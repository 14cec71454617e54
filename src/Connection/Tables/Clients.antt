-- ===== src/Connection/Tables/Clients.antt =====
-- The table of clients is a partial function of the socket.
use https_proxy_server.Base.{
  ℕ, Bool, true, false, Option, none, some, [], ◌∷◌, ◌==◌, if◌then◌else◌, ◌≡◌, inl, inr, refl, sym,
  ap, ◌∙◌, arith, Bool-cases, ==→eq,
}
use https_proxy_server.Connection.Pairs.{is_set}
use https_proxy_server.Connection.Tables.{ClientTable, get_client, add_client, remove_client, keep}

-- No socket has two entries.
abbrev pub IsTable : ClientTable → Type 0
IsTable [] = Unit {0}
IsTable ((key, a) ∷ table) = (get_client table key ≡ none) × IsTable table

-- A socket that is not there is added: it is found afterwards, and every other one as before.
pub add_client-IsTable :
    (sock a : ℕ) (table : ClientTable)
    → IsTable table
    → get_client table sock ≡ none
    → (table' : ClientTable) × (add_client sock a table ≡ some table')
      × IsTable table'
      × ((k : ℕ) → get_client table' k ≡ (if sock == k then some a else get_client table k))
unfolding add_client get_client
add_client-IsTable sock a table t n = ((sock, a) ∷ table, rw (ap is_set n), (n, t), λ k. refl)

-- What `remove` leaves of each socket.
pub record IsRemoved (sock : ℕ) (table : ClientTable) (found : Bool) (table' : ClientTable)
    : Type 0 where
  pub found_is : found ≡ is_set (get_client table sock)
  pub is_table : IsTable table'
  pub lookups : (k : ℕ) → get_client table' k ≡ (if sock == k then none else get_client table k)

lookup_there :
    (key sock a k : ℕ) (o : Option ℕ)
    → key ≡ sock
    → (key ≡ k → o ≡ none)
    → o ≡ (if sock == k then none else (if key == k then some a else o))
lookup_there key sock a k o e f = elim (Bool-cases (sock == k)) [
  | inl q ↦ rw q (f (e ∙ ==→eq sock k q))
  | inr q ↦ rw (q, ap (λ z. z == k) e ∙ q)
]

lookup_kept :
    (key sock a k : ℕ) (o o' : Option ℕ)
    → (key == sock) ≡ false
    → o' ≡ (if sock == k then none else o)
    → (if key == k then some a else o')
      ≡ (if sock == k then none else (if key == k then some a else o))
lookup_kept key sock a k o o' n e = elim (Bool-cases (key == k)) [
  | inl q ↦ let differ : (sock == k) ≡ false = ground arith in rw (q, differ)
  | inr q ↦ rw (q, e)
]

remove_there :
    (sock key a : ℕ) (table : ClientTable)
    → (key == sock) ≡ true
    → IsTable ((key, a) ∷ table)
    → IsRemoved sock ((key, a) ∷ table) true table
unfolding get_client
remove_there sock key a table e (n, t) = record {
  found_is = rw e;
  is_table = t;
  lookups = λ k.
      lookup_there key sock a k (get_client table k) (==→eq key sock e)
        (λ q. ap (get_client table) (sym q) ∙ n);
}

remove_kept :
    (sock key a : ℕ) (table : ClientTable) (r : Bool × ClientTable)
    → (key == sock) ≡ false
    → get_client table key ≡ none
    → IsRemoved sock table r.0 r.1
    → IsRemoved sock ((key, a) ∷ table) (keep (key, a) r).0 (keep (key, a) r).1
unfolding get_client
remove_kept sock key a table (found, table') e n i = record {
  found_is = i.found_is ∙ rw e;
  is_table = (i.lookups key ∙ none_then_none, i.is_table);
  lookups =
      λ k. lookup_kept key sock a k (get_client table k) (get_client table' k) e (i.lookups k);
}
  where
    none_then_none : (if sock == key then none else get_client table key) ≡ none
    none_then_none = elim (Bool-cases (sock == key)) [ inl q ↦ rw q | inr q ↦ rw q n ]

-- `remove` reports whether the socket was there; afterwards it is not found, and every other one as
-- before.
pub remove_client-IsRemoved :
    (sock : ℕ) (table : ClientTable)
    → IsTable table
    → IsRemoved sock table (remove_client sock table).0 (remove_client sock table).1
unfolding remove_client get_client
remove_client-IsRemoved sock [] t = record {
  found_is = refl;
  is_table = tt;
  lookups = λ k. ground arith;
}
remove_client-IsRemoved sock ((key, a) ∷ table) t = elim (Bool-cases (key == sock)) [
  | inl e ↦
      let is : remove_client sock ((key, a) ∷ table) ≡ (true, table) = rw (remove_client, e) in
      rw is (remove_there sock key a table e t)
  | inr e ↦
      let is : remove_client sock ((key, a) ∷ table) ≡ keep (key, a) (remove_client sock table) =
        rw (remove_client, e) in
      rw is (
        remove_kept sock key a table (remove_client sock table) e t.0
          (remove_client-IsRemoved sock table t.1))
]
