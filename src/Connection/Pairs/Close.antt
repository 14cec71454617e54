-- ===== src/Connection/Pairs/Close.antt =====
-- `close` takes a pair apart, and touches no other.
use https_proxy_server.Base.{
  ℕ, Bool, true, false, not, ◌||◌, Option, none, some, ◌≡◌, ◌≢◌, inl, inr, refl, sym, ap, ◌∙◌,
  arith, Bool-cases, Option-cases,
}
use https_proxy_server.Connection.Output.{LoopEnd, after_send}
use https_proxy_server.Connection.Pairs.{
  Connection, Store, set_at, is_client, let_go, release, flush, CloseReason, self_error,
  other_wr_error, idle_timeout, close_in, close,
}
use https_proxy_server.Connection.Pairs.Links.{
  other_in, other_of, IsPaired, two_at, cleared, set_at-same, set_at-other,
}

release-other :
    (rd reuse_server : Bool) (self c : Connection)
    → other_in (release rd reuse_server self c) ≡ none
unfolding release
release-other rd reuse_server self c = ground arith

flush-other :
    (rd : Bool) (ended : LoopEnd) (c : Option Connection)
    → other_in c ≡ none
    → other_in (flush rd ended c) ≡ none
unfolding flush
flush-other rd ended none e = refl
flush-other false ended (some c) e = e
flush-other true ended (some c) e =
    elim (Bool-cases (after_send ended c.close_flag false c.type).thrown) [
      | inl t ↦ rw t
      | inr t ↦ rw t e
    ]

-- What `close` leaves: the pairs, all connections but the two, and, on an error of its own socket,
-- no connection at its address.
pub record IsClosed (reason : CloseReason) (a : ℕ) (other : Option ℕ) (store store' : Store)
    : Type 0 where
  pub paired : IsPaired store'
  pub outside : (k : ℕ) → k ≢ a → other ≢ some k → store' k ≡ store k
  pub gone : (rd : Bool) → reason ≡ self_error rd → store' a ≡ none

module _ (a : ℕ) (self : Connection) (store : Store) (p : IsPaired store)
    (at_a : store a ≡ some self) where
  self_other : (o : Option ℕ) → self.other ≡ o → other_of store a ≡ o
  self_other o e = ap other_in at_a ∙ e

  -- A connection with no partner is deleted.
  alone :
      (reason : CloseReason)
      → self.other ≡ none
      → IsClosed reason a none store (set_at a none store)
  alone reason e = record {
    paired =
        cleared a a store (set_at a none store) p
          (record {
            a_is = ap other_in (set_at-same a none store);
            b_is = ap other_in (set_at-same a none store);
            outside = λ k na nb. set_at-other a k none store na;
          })
          (λ k f. let z = sym (self_other none e) ∙ f in cc)
          (λ k f. let z = sym (self_other none e) ∙ f in cc);
    outside = λ k na nb. set_at-other a k none store na;
    gone = λ rd q. set_at-same a none store;
  }

  module _ (b : ℕ) (e : self.other ≡ some b) where
    partner : (c : Connection) × (store b ≡ some c)
    partner =
        let back : other_of store b ≡ some a = p a b (self_other (some b) e) in
        elim (Option-cases (store b)) [
          | inl n ↦ absurd (let z = sym (ap other_in n) ∙ back in cc)
          | inr s ↦ s
        ]

    -- A pair whose two connections are replaced by some without partners.
    apart :
        (c d : Option Connection)
        → other_in c ≡ none
        → other_in d ≡ none
        → IsPaired (set_at a c (set_at b d store))
          × ((k : ℕ) → k ≢ a → some b ≢ some k → set_at a c (set_at b d store) k ≡ store k)
    apart c d ec ed =
        let s' = set_at a c (set_at b d store) in
        let t = two_at a b c d store (inr (ec ∙ sym ed)) in
        (
          cleared a b store s' p
              (record { a_is = t.a_is ∙ ec; b_is = t.b_is ∙ ed; outside = t.outside })
              (λ k f. let z = sym (self_other (some b) e) ∙ f in cc)
              (λ k f. let z = sym (p a b (self_other (some b) e)) ∙ f in cc),
          λ k na nb. t.outside k na (λ q. nb (ap some (sym q))),
        )

  by_reason :
      (reason : CloseReason) (o : Option ℕ) (reuse_server : Bool) (ended : LoopEnd)
      → self.other ≡ o
      → (reason ≡ other_wr_error → o ≢ none)
      → (store' : Store) × (close_in reason o reuse_server ended a self store ≡ some store')
        × IsClosed reason a o store store'
  unfolding close_in
  by_reason (self_error rd) none reuse_server ended e h =
      (set_at a none store, refl, alone (self_error rd) e)
  by_reason (self_error rd) (some b) reuse_server ended e h =
      let (c, at_b) = partner b e in
      let d = flush rd ended (release rd reuse_server self c) in
      let (paired, outside) =
        apart b e none d refl (flush-other rd ended _ (release-other rd reuse_server self c)) in
      let s' = set_at a none (set_at b d store) in
      (
        s',
        rw (at_b),
        record {
          paired = paired;
          outside = outside;
          gone = λ r q. set_at-same a none (set_at b d store);
        },
      )
  by_reason other_wr_error none reuse_server ended e h = absurd (h refl refl)
  by_reason other_wr_error (some b) reuse_server ended e h =
      let (c, at_b) = partner b e in
      elim (Bool-cases (not reuse_server || is_client self)) [
        | inl t ↦
            let (paired, outside) = apart b e none none refl refl in
            (
              set_at a none (set_at b none store),
              rw (at_b, t),
              record { paired = paired; outside = outside; gone = λ r q. cc },
            )
        | inr t ↦
            let (paired, outside) = apart b e (some (let_go self)) none refl refl in
            (
              set_at a (some (let_go self)) (set_at b none store),
              rw (at_b, t),
              record { paired = paired; outside = outside; gone = λ r q. cc },
            )
      ]
  by_reason idle_timeout none reuse_server ended e h =
      (set_at a none store, refl, alone idle_timeout e)
  by_reason idle_timeout (some b) reuse_server ended e h =
      let (c, at_b) = partner b e in
      elim (Bool-cases (is_client self)) [
        | inl t ↦ (store, rw t, record { paired = p; outside = λ k na nb. refl; gone = λ r q. cc })
        | inr t ↦
            let d = record c { other = none } in
            let (paired, outside) = apart b e none (some d) refl refl in
            (
              set_at a none (set_at b (some d) store),
              rw (t, at_b),
              record { paired = paired; outside = outside; gone = λ r q. cc },
            )
      ]

  -- `close` of a living connection, for whatever reason, fails no assertion and uses no deleted
  -- connection, where OTHER_WR_ERROR comes with a partner; afterwards every `other_` again points to
  -- a living connection that points back, and no connection but the two is changed. On an error of
  -- its own socket the connection is gone.
  pub close-IsClosed :
      (reason : CloseReason) (reuse_server : Bool) (ended : LoopEnd)
      → (reason ≡ other_wr_error → self.other ≢ none)
      → (store' : Store) × (close reason reuse_server ended a self store ≡ some store')
        × IsClosed reason a self.other store store'
  unfolding close
  close-IsClosed reason reuse_server ended h = by_reason reason self.other reuse_server ended refl h
