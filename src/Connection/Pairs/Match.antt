-- ===== src/Connection/Pairs/Match.antt =====
-- `match` joins two connections.
use https_proxy_server.Base.{
  ℕ, Bool, true, false, Option, none, some, ◌≡◌, ◌≢◌, inl, inr, refl, sym, ap, ◌∙◌, Bool-cases,
}
use https_proxy_server.Connection.Output.{
  ConnectionType, idle_server, LoopEnd, waiting, broken, drained, after_send,
}
use https_proxy_server.Connection.Pairs.{
  Connection, Store, set_at, is_set, Matching, joined, refused, write_failed, aborted,
  match_as_client, match_as_server, match,
}
use https_proxy_server.Connection.Pairs.Links.{
  other_in, other_of, IsPaired, IsChange, two_at, cleared, linked, set_at-same, set_at-other,
}

-- What `match` leaves in each case: joined, the two point to each other; else neither has a partner;
-- no other connection is changed.
pub record IsMatched (a b : ℕ) (at_a at_b : Option ℕ) (store store' : Store) : Type 0 where
  pub paired : IsPaired store'
  pub change : IsChange store store' a b at_a at_b

abbrev pub IsMatching : ℕ → ℕ → Store → Matching → Type 0
IsMatching a b store (joined store') = IsMatched a b (some b) (some a) store store'
IsMatching a b store (refused code store') = IsMatched a b none none store store'
IsMatching a b store (write_failed store') = IsMatched a b none none store store'
IsMatching a b store aborted = ⊥

after_idle :
    (ended : LoopEnd) (close_flag : Bool) (type : ConnectionType)
    → type ≡ idle_server
    → (after_send ended close_flag false type).type ≡ idle_server
unfolding after_send
after_idle waiting close_flag type e = e
after_idle broken close_flag type e = e
after_idle drained true type e = e
after_idle drained false type e = rw e refl

module _ (a b : ℕ) (self conn : Connection) (store : Store) (p : IsPaired store) (differ : a ≢ b)
    (at_a : store a ≡ some self) (at_b : store b ≡ some conn) (free_a : self.other ≡ none)
    (free_b : conn.other ≡ none) where
  none_a : other_of store a ≡ none
  none_a = ap other_in at_a ∙ free_a

  none_b : other_of store b ≡ none
  none_b = ap other_in at_b ∙ free_b

  unjoined :
      (store' : Store) → IsChange store store' a b none none → IsMatched a b none none store store'
  unjoined store' c = record {
    paired =
        cleared a b store store' p c (λ k f. let z = sym none_a ∙ f in cc)
          (λ k f. let z = sym none_b ∙ f in cc);
    change = c;
  }

  both :
      (c d : Connection)
      → c.other ≡ none
      → d.other ≡ none
      → IsMatched a b none none store (set_at a (some c) (set_at b (some d) store))
  both c d ec ed =
      let t = two_at a b (some c) (some d) store (inl differ) in
      unjoined _ (record { a_is = t.a_is ∙ ec; b_is = t.b_is ∙ ed; outside = t.outside })

  join :
      (c d : Connection)
      → c.other ≡ some b
      → d.other ≡ some a
      → IsMatched a b (some b) (some a) store (set_at a (some c) (set_at b (some d) store))
  join c d ec ed =
      let t = two_at a b (some c) (some d) store (inl differ) in
      let change : IsChange store (set_at a (some c) (set_at b (some d) store)) a b (some b)
          (some a) =
        record { a_is = t.a_is ∙ ec; b_is = t.b_is ∙ ed; outside = t.outside } in
      record { paired = linked a b store _ p change none_a none_b; change = change }

  only_b :
      (d : Connection) → d.other ≡ none → IsMatched a b none none store (set_at b (some d) store)
  only_b d ed = unjoined _ (record {
    a_is = ap other_in (set_at-other b a (some d) store differ) ∙ none_a;
    b_is = ap other_in (set_at-same b (some d) store) ∙ ed;
    outside = λ k na nb. set_at-other b k (some d) store nb;
  })

  as_server : (ended : LoopEnd) → IsMatching a b store (match_as_server ended a self b conn store)
  unfolding match_as_server
  as_server ended =
      let after = after_send ended conn.close_flag false conn.type in
      elim (Bool-cases after.thrown) [
        | inl t ↦ rw t (only_b _ free_b)
        | inr t ↦ rw t (join _ _ refl refl)
      ]

  as_client :
      (ended : LoopEnd)
      → (after_send ended self.close_flag false self.type).type ≡ idle_server
      → IsMatching a b store (match_as_client ended a self b conn store)
  unfolding match_as_client
  as_client ended idle =
      let after = after_send ended self.close_flag false self.type in
      elim (Bool-cases conn.timeout) [
        | inl m ↦ elim (Bool-cases after.thrown) [
          | inl t ↦ rw (m, t) (both _ _ free_a free_b)
          | inr t ↦ rw (m, t, idle) (join _ _ refl refl)
        ]
        | inr m ↦
            rw m
              (unjoined store (record { a_is = none_a; b_is = none_b; outside = λ k na nb. refl }))
      ]

  -- `match` of two different living connections without partners, where a connection that takes a
  -- client's is that of an idle server, fails no assertion. Either the two then point to each other,
  -- or an exception leaves both without a partner; every other `other_` still points to a living
  -- connection that points back, and no other connection is changed.
  pub match-IsMatching :
      (is_client : Bool) (ended : LoopEnd)
      → (is_client ≡ true → self.type ≡ idle_server)
      → IsMatching a b store (match is_client ended a self b conn store)
  unfolding match
  match-IsMatching true ended h =
      rw (ap is_set free_a, ap is_set free_b)
        (as_client ended (after_idle ended self.close_flag self.type (h refl)))
  match-IsMatching false ended h = rw (ap is_set free_a, ap is_set free_b) (as_server ended)
