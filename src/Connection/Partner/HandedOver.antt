-- ===== src/Connection/Partner/HandedOver.antt =====
-- A connection that is handed over to another worker, and a match that is carried out.
use https_proxy_server.Base.{
  ℕ, Bool, true, false, some, ◌==◌, ◌≡◌, ◌≢◌, inl, inr, refl, sym, ap, subst, ◌∙◌, arith,
  Bool-cases, ==_refl,
}
use https_proxy_server.Connection.Output.{idle_server, LoopEnd}
use https_proxy_server.Connection.Pairs.{Connection, Store, Matching, is_set, match}
use https_proxy_server.Connection.Pairs.Links.{IsPaired}
use https_proxy_server.Connection.Pairs.Match.{IsMatching, match-IsMatching}
use https_proxy_server.Connection.Tables.{Infos, ClientTable, ServerTable}
use https_proxy_server.Connection.UriInfo.{ℤ, pos, negsuc}
use https_proxy_server.Connection.Partner.{
  take_it, hand_over, find_client, same_device, match_client, match_sock_client, match_sock,
  is_minus_one, attach_to, perform,
}
use https_proxy_server.Connection.Partner.Chosen.{
  IsFound, IsClientChoice, match_client-IsClientChoice,
}

not_minus_one :
    (clients : ClientTable) (sock : ℤ) (c : ℕ)
    → find_client clients sock ≡ some c
    → is_minus_one sock ≡ false
unfolding find_client
not_minus_one clients (pos s) c m = refl
not_minus_one clients (negsuc n) c m = cc

differ_eq : (c a : ℕ) → c ≢ a → (c == a) ≡ false
differ_eq c a n = ground arith

-- Within one worker the two functions choose alike.
same_worker :
    (n : Bool) (clients : ClientTable) (servers : ServerTable) (infos : Infos) (a : ℕ) (sock : ℤ)
    (c host : ℕ)
    → IsFound clients infos a sock c host host
    → match_sock true clients servers infos a sock ≡ match_client n clients infos a sock
unfolding match_sock match_sock_client match_client
same_worker n clients servers infos a sock c host f =
    let m = f.found in
    let e = differ_eq c a f.differ in
    let s : is_set (infos a).other ≡ false = ap is_set f.free in
    let own = f.own_is in
    let theirs = f.host_is in
    let here = ==_refl host in
    elim (Bool-cases (is_set (infos c).other)) [
      | inl t ↦ rw (
        match_sock,
        match_sock_client,
        match_client,
        not_minus_one clients sock c m,
        m,
        e,
        s,
        own,
        theirs,
        here,
        t,
      )
      | inr t ↦ elim (Bool-cases (same_device infos a c)) [
        | inl d ↦ rw (
          match_sock,
          match_sock_client,
          match_client,
          not_minus_one clients sock c m,
          m,
          e,
          s,
          own,
          theirs,
          here,
          t,
          d,
        )
        | inr d ↦ rw (
          match_sock,
          match_sock_client,
          match_client,
          not_minus_one clients sock c m,
          m,
          e,
          s,
          own,
          theirs,
          here,
          t,
          d,
        )
      ]
    ]

-- A server's connection that `match_client` hands over to the worker of its client is treated there,
-- once it is attached, as `match_client` would have treated it had it been in that worker from the
-- start.
pub match_sock-match_client :
    (clients : ClientTable) (servers : ServerTable) (infos : Infos) (a : ℕ) (sock s : ℤ) (host : ℕ)
    (flag notified : Bool)
    → match_client true clients infos a sock ≡ hand_over host s flag
    → match_sock flag clients servers (attach_to a host infos) a s
      ≡ match_client notified clients (attach_to a host infos) a sock
unfolding attach_to
match_sock-match_client clients servers infos a sock s host flag n e =
    let (is_flag, is_sock, told, (c, own, f, away)) =
      subst (IsClientChoice true clients infos a sock) e
        (match_client-IsClientChoice true clients infos a sock) in
    let moved = attach_to a host infos in
    let other_one = differ_eq c a f.differ in
    let f' : IsFound clients moved a sock c host host = record {
      found = f.found;
      differ = f.differ;
      own_is = rw (attach_to, ==_refl a);
      host_is = rw (attach_to, other_one) f.host_is;
      free = rw (attach_to, ==_refl a) f.free;
    } in
    ap (λ b. match_sock b clients servers moved a s) is_flag
    ∙ ap (λ t. match_sock true clients servers moved a t) is_sock
    ∙ same_worker n clients servers moved a sock c host f'

-- What the tables read is what the connections are.
pub record IsView (infos : Infos) (store : Store) : Type 0 where
  pub other_is : (k : ℕ) (c : Connection) → store k ≡ some c → (infos k).other ≡ c.other
  pub type_is : (k : ℕ) (c : Connection) → store k ≡ some c → (infos k).type ≡ c.type

-- A server's idle connection that calls `match_client`, where each connection in the table lives and
-- every `other_` points to a living connection that points back: the match it chooses can be carried
-- out, fails no assertion, and leaves the two either pointing to each other or both without a
-- partner, with every `other_` still pointing to one that points back and no other connection
-- changed.
pub perform-IsMatching :
    (notified : Bool) (clients : ClientTable) (infos : Infos) (store : Store) (a : ℕ) (sock : ℤ)
    (self : Connection) (c : ℕ) (is_client : Bool) (ended : LoopEnd)
    → IsView infos store
    → IsPaired store
    → ((s : ℤ) (k : ℕ) → find_client clients s ≡ some k → (d : Connection) × (store k ≡ some d))
    → store a ≡ some self
    → self.type ≡ idle_server
    → match_client notified clients infos a sock ≡ take_it c is_client
    → (m : Matching) × (perform ended a store (take_it c is_client) ≡ some m)
      × IsMatching a c store m
unfolding perform
perform-IsMatching n clients infos store a sock self c is_client ended view paired living at_a idle
      e =
    let (is_flag, (host, f), free, device) =
      subst (IsClientChoice n clients infos a sock) e
        (match_client-IsClientChoice n clients infos a sock) in
    let (conn, at_c) = living sock c f.found in
    let differ : a ≢ c = λ q. f.differ (sym q) in
    (
      match is_client ended a self c conn store,
      rw (perform, at_a, at_c),
      match-IsMatching a c self conn store paired differ at_a at_c
          (sym (view.other_is a self at_a) ∙ f.free) (sym (view.other_is c conn at_c) ∙ free)
          is_client ended (λ t. idle),
    )
