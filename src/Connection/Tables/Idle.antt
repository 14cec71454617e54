-- ===== src/Connection/Tables/Idle.antt =====
-- `get_idle` gives no connection to two clients.
use https_proxy_server.Base.{
  ℕ, true, false, ◌&&◌, Option, none, some, [], ◌∷◌, ◌≡◌, ◌≢◌, ◌⊎◌, ◌==◌, ==_refl, inl, inr, refl,
  sym, ap, ◌∙◌, arith, Bytes, Bool-cases,
}
use https_proxy_server.Http.Parser.Types.{bytes_eq}
use https_proxy_server.Connection.Output.{ConnectionType, client, idle_server, busy_server}
use https_proxy_server.Connection.Pairs.{is_idle}
use https_proxy_server.Connection.Tables.{Infos, ServerTable, set_busy, get_idle}

-- The connection stands in the table under the device id.
abbrev pub IsEntry : Bytes → ℕ → ServerTable → Type 0
IsEntry dev_id a [] = ⊥
IsEntry dev_id a ((id, x) ∷ table) =
    ((bytes_eq id dev_id ≡ true) × (x ≡ a)) ⊎ IsEntry dev_id a table

-- What `get_idle` gives: a connection of the device that was idle, and that is busy now, with
-- nothing else changed; or none, where no connection of the device is idle.
abbrev pub IsIdleOf : ServerTable → Bytes → Infos → Option ℕ → Infos → Type 0
IsIdleOf table dev_id infos none infos' =
    ((a : ℕ) → IsEntry dev_id a table → (infos a).type ≢ idle_server) × (infos' ≡ infos)
IsIdleOf table dev_id infos (some a) infos' =
    IsEntry dev_id a table
    × ((infos a).type ≡ idle_server)
    × (infos' a ≡ record (infos a) { type = busy_server })
    × ((k : ℕ) → k ≢ a → infos' k ≡ infos k)

set_busy_self :
    (a : ℕ) (infos : Infos) → set_busy a infos a ≡ record (infos a) { type = busy_server }
unfolding set_busy
set_busy_self a infos = rw (==_refl a)

set_busy_other : (a : ℕ) (infos : Infos) (k : ℕ) → k ≢ a → set_busy a infos k ≡ infos k
unfolding set_busy
set_busy_other a infos k n = let e : (k == a) ≡ false = ground arith in rw e

idle_of : (type : ConnectionType) → is_idle type ≡ true → type ≡ idle_server
idle_of idle_server e = refl
idle_of busy_server e = cc
idle_of client e = cc

get_idle-step :
    (id dev_id : Bytes) (x : ℕ) (table : ServerTable) (infos : Infos) (o : Option ℕ)
    (infos' : Infos)
    → (bytes_eq id dev_id && is_idle (infos x).type) ≡ false
    → IsIdleOf table dev_id infos o infos'
    → IsIdleOf ((id, x) ∷ table) dev_id infos o infos'
get_idle-step id dev_id x table infos none infos' n (f, e) = (here, e)
  where
    here : (a : ℕ) → IsEntry dev_id a ((id, x) ∷ table) → (infos a).type ≢ idle_server
    here a (inl (q, r)) t =
        let busy : is_idle (infos x).type ≡ false = ground arith in
        let idle : is_idle (infos x).type ≡ true = ap is_idle (ap (λ k. (infos k).type) r ∙ t) in
        let z = sym busy ∙ idle in cc
    here a (inr m) t = f a m t
get_idle-step id dev_id x table infos (some a) infos' n (m, i, e, f) = (inr m, i, e, f)

-- `get_idle` takes an idle connection of the device that is in the table, whose type is busy then,
-- and changes nothing else of it and no other connection; it gives none only if the device has no
-- idle connection in the table, and then changes nothing.
pub get_idle-IsIdleOf :
    (table : ServerTable) (dev_id : Bytes) (infos : Infos)
    → IsIdleOf table dev_id infos (get_idle table dev_id infos).0 (get_idle table dev_id infos).1
unfolding get_idle
get_idle-IsIdleOf [] dev_id infos = ((λ a m. absurd m), refl)
get_idle-IsIdleOf ((id, x) ∷ table) dev_id infos =
    elim (Bool-cases (bytes_eq id dev_id && is_idle (infos x).type)) [
      | inl e ↦ rw e (
        inl (ground arith, refl),
        idle_of (infos x).type (ground arith),
        set_busy_self x infos,
        set_busy_other x infos,
      )
      | inr e ↦
          rw e (get_idle-step id dev_id x table infos _ _ e (get_idle-IsIdleOf table dev_id infos))
    ]
