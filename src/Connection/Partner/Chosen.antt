-- ===== src/Connection/Partner/Chosen.antt =====
-- What the choice of a partner promises, and what becomes of it in the worker it is handed over to.
use https_proxy_server.Base.{
  ℕ, Bool, true, false, Option, none, some, [], ◌∷◌, map, Bytes, sym, subst, ◌==◌, ◌≡◌, ◌≢◌, ◌⊎◌,
  inl, inr, refl, ap, ◌∙◌, arith, Bool-cases, Option-cases, ==→eq,
}
use https_proxy_server.Cstring.{until_nul, to_lower, same_text}
use https_proxy_server.Connection.Pairs.{is_set}
use https_proxy_server.Connection.Tables.{Infos, ClientTable}
use https_proxy_server.Connection.UriInfo.{ℤ}
use https_proxy_server.Connection.Partner.{
  Choice, take_it, hand_over, new_server, refuse, abort, http_proxy_server_internal_error,
  http_null_connection, http_matched_connection, http_conflict_connection, http_device_id_different,
  same_device, find_client, match_client,
}

-- Another connection is found at the socket, both are attached to workers, and this one has no
-- partner.
pub record IsFound (clients : ClientTable) (infos : Infos) (a : ℕ) (sock : ℤ) (c own host : ℕ)
    : Type 0 where
  pub found : find_client clients sock ≡ some c
  pub differ : c ≢ a
  pub own_is : (infos a).host ≡ some own
  pub host_is : (infos c).host ≡ some host
  pub free : (infos a).other ≡ none

-- Two device ids, as C strings, in lower case.
abbrev pub lower : Bytes → Bytes
lower id = map to_lower (until_nul id)

-- The reason for each exception.
abbrev pub IsRefusal : Bool → ClientTable → Infos → ℕ → ℤ → Bool → ℕ → Type 0
IsRefusal notified clients infos a sock detached code =
    ((code ≡ http_null_connection) × (find_client clients sock ≡ none))
    ⊎ ((code ≡ http_conflict_connection) × (find_client clients sock ≡ some a))
    ⊎ ((c : ℕ) × (own : ℕ) × (host : ℕ) × IsFound clients infos a sock c own host
        × (((code ≡ http_proxy_server_internal_error)
              × (detached ≡ true)
              × (notified ≡ false)
              × (own ≢ host))
            ⊎ ((code ≡ http_matched_connection) × (own ≡ host) × (is_set (infos c).other ≡ true))
            ⊎ ((code ≡ http_device_id_different)
                × (own ≡ host)
                × (lower (infos a).dev_id ≢ lower (infos c).dev_id))))

abbrev pub IsClientChoice : Bool → ClientTable → Infos → ℕ → ℤ → Choice → Type 0
IsClientChoice notified clients infos a sock (take_it c is_client) =
    (is_client ≡ true)
    × ((host : ℕ) × IsFound clients infos a sock c host host)
    × ((infos c).other ≡ none)
    × (lower (infos a).dev_id ≡ lower (infos c).dev_id)
IsClientChoice notified clients infos a sock (hand_over host s flag) =
    (flag ≡ true)
    × (s ≡ sock)
    × (notified ≡ true)
    × ((c : ℕ) × (own : ℕ) × IsFound clients infos a sock c own host × (own ≢ host))
IsClientChoice notified clients infos a sock new_server = ⊥
IsClientChoice notified clients infos a sock (refuse detached code) =
    IsRefusal notified clients infos a sock detached code
IsClientChoice notified clients infos a sock abort =
    (c : ℕ) × (find_client clients sock ≡ some c)
    × (c ≢ a)
    × (((infos a).host ≡ none) ⊎ ((infos c).host ≡ none) ⊎ (is_set (infos a).other ≡ true))

not_set : (o : Option ℕ) → is_set o ≡ false → o ≡ none
not_set none e = refl
not_set (some x) e = cc

not_eq : (a b : ℕ) → (a == b) ≡ false → a ≢ b
not_eq a b e = ground arith

same_text-alike : (x y : Bytes) → same_text x y ≡ true → map to_lower x ≡ map to_lower y
unfolding same_text
same_text-alike [] [] e = refl
same_text-alike [] (b ∷ y) e = cc
same_text-alike (a ∷ x) [] e = cc
same_text-alike (a ∷ x) (b ∷ y) e =
    let ih = same_text-alike x y (ground arith) in
    let first : to_lower a ≡ to_lower b = ground arith in cc

alike-same_text : (x y : Bytes) → map to_lower x ≡ map to_lower y → same_text x y ≡ true
unfolding same_text
alike-same_text [] [] e = refl
alike-same_text [] (b ∷ y) e = cc
alike-same_text (a ∷ x) [] e = cc
alike-same_text (a ∷ x) (b ∷ y) e =
    let ih = alike-same_text x y cc in
    let first : to_lower a ≡ to_lower b = cc in
    let same : (to_lower a == to_lower b) ≡ true = ground arith in rw (same, ih)

same_device-lower :
    (infos : Infos) (a c : ℕ)
    → same_device infos a c ≡ true
    → lower (infos a).dev_id ≡ lower (infos c).dev_id
unfolding same_device
same_device-lower infos a c e = sym (same_text-alike _ _ e)

same_device-differ :
    (infos : Infos) (a c : ℕ)
    → same_device infos a c ≡ false
    → lower (infos a).dev_id ≢ lower (infos c).dev_id
unfolding same_device
same_device-differ infos a c e q =
    let t = alike-same_text (until_nul (infos c).dev_id) (until_nul (infos a).dev_id) (sym q) in
    let z = sym e ∙ t in cc

-- `match_client` on every branch: it takes another connection only if that stands in the table at
-- the socket, lives in the same worker, has no partner, as this one has none, and is of the same
-- device whatever the case of its letters; it hands itself over only to the other's worker; each
-- exception has its reason; and an assertion fails only where another connection is found and one of
-- the two is not attached to a worker or this one has a partner.
pub match_client-IsClientChoice :
    (notified : Bool) (clients : ClientTable) (infos : Infos) (a : ℕ) (sock : ℤ)
    → IsClientChoice notified clients infos a sock (match_client notified clients infos a sock)
unfolding match_client
match_client-IsClientChoice n clients infos a sock =
    elim (Option-cases (find_client clients sock)) [
      | inl m ↦ rw (match_client, m) (inl (refl, m))
      | inr (c, m) ↦ elim (Bool-cases (c == a)) [
        | inl e ↦ rw (match_client, m, e) (inr (inl (refl, m ∙ ap some (==→eq c a e))))
        | inr e ↦ elim (Option-cases (infos a).host) [
          | inl o ↦ rw (match_client, m, e, o) (c, m, not_eq c a e, inl o)
          | inr (own, o) ↦ elim (Option-cases (infos c).host) [
            | inl g ↦ rw (match_client, m, e, o, g) (c, m, not_eq c a e, inr (inl g))
            | inr (host, g) ↦ elim (Bool-cases (is_set (infos a).other)) [
              | inl s ↦ rw (match_client, m, e, o, g, s) (c, m, not_eq c a e, inr (inr s))
              | inr s ↦ attached c own host m e o g s
            ]
          ]
        ]
      ]
    ]
  where
    handed :
        (c own host : ℕ)
        → IsFound clients infos a sock c own host
        → (c == a) ≡ false
        → is_set (infos a).other ≡ false
        → (own == host) ≡ false
        → (k : Bool) → n ≡ k
        → IsClientChoice n clients infos a sock (match_client n clients infos a sock)
    handed c own host f e s h true k =
        rw (match_client, f.found, e, f.own_is, f.host_is, s, h, k)
          (refl, refl, refl, (c, own, f, not_eq own host h))
    handed c own host f e s h false k =
        rw (match_client, f.found, e, f.own_is, f.host_is, s, h, k)
          (inr (inr (c, own, host, f, inl (refl, refl, refl, not_eq own host h))))

    attached :
        (c own host : ℕ)
        → find_client clients sock ≡ some c
        → (c == a) ≡ false
        → (infos a).host ≡ some own
        → (infos c).host ≡ some host
        → is_set (infos a).other ≡ false
        → IsClientChoice n clients infos a sock (match_client n clients infos a sock)
    attached c own host m e o g s =
        let f : IsFound clients infos a sock c own host = record {
          found = m;
          differ = not_eq c a e;
          own_is = o;
          host_is = g;
          free = not_set (infos a).other s;
        } in
        elim (Bool-cases (own == host)) [
          | inr h ↦ handed c own host f e s h n refl
          | inl h ↦
              let one : own ≡ host = ==→eq own host h in
              elim (Bool-cases (is_set (infos c).other)) [
                | inl t ↦
                    rw (match_client, m, e, o, g, s, h, t)
                      (inr (inr (c, own, host, f, inr (inl (refl, one, t)))))
                | inr t ↦ elim (Bool-cases (same_device infos a c)) [
                  | inl d ↦
                      rw (match_client, m, e, o, g, s, h, t, d)
                        (
                          refl,
                          (host, subst (λ k. IsFound clients infos a sock c k host) one f),
                          not_set _ t,
                          same_device-lower infos a c d,
                        )
                  | inr d ↦
                      rw (match_client, m, e, o, g, s, h, t, d)
                        (inr (
                          inr (
                            c,
                            own,
                            host,
                            f,
                            inr (inr (refl, one, same_device-differ infos a c d)),
                          )))
                ]
              ]
        ]
