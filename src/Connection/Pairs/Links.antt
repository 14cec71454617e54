-- ===== src/Connection/Pairs/Links.antt =====
-- A connection and its partner point to each other.
use https_proxy_server.Base.{
  ℕ, Option, none, some, ◌==◌, ◌≡◌, ◌≢◌, ◌⊎◌, inl, inr, sym, ap, ◌∙◌, arith, Bool-cases, ==→eq,
  ==_refl,
}
use https_proxy_server.Connection.Pairs.{Connection, Store, set_at}

abbrev pub other_in : Option Connection → Option ℕ
other_in none = none
other_in (some c) = c.other

-- `other_` of the connection at an address; a deleted one has none.
abbrev pub other_of : Store → ℕ → Option ℕ
other_of store a = other_in (store a)

-- Each `other_` points to a living connection, which points back.
abbrev pub IsPaired : Store → Type 0
IsPaired store = (a b : ℕ) → other_of store a ≡ some b → other_of store b ≡ some a

pub set_at-same : (a : ℕ) (c : Option Connection) (store : Store) → set_at a c store a ≡ c
unfolding set_at
set_at-same a c store = rw (==_refl a)

pub set_at-other :
    (a k : ℕ) (c : Option Connection) (store : Store) → k ≢ a → set_at a c store k ≡ store k
unfolding set_at
set_at-other a k c store n = elim (Bool-cases (k == a)) [
  | inl e ↦ absurd (n (==→eq k a e))
  | inr e ↦ rw e
]

pub is_equal : (a b : ℕ) → (a ≡ b) ⊎ (a ≢ b)
is_equal a b = elim (Bool-cases (a == b)) [ inl e ↦ inl (==→eq a b e) | inr e ↦ inr (ground arith) ]

-- A step that changes the connections at two addresses only: their partners afterwards.
pub record IsChange (store store' : Store) (a b : ℕ) (at_a at_b : Option ℕ) : Type 0 where
  pub a_is : other_of store' a ≡ at_a
  pub b_is : other_of store' b ≡ at_b
  pub outside : (k : ℕ) → k ≢ a → k ≢ b → store' k ≡ store k

-- Two connections are put in place of those at `a` and `b`.
pub two_at :
    (a b : ℕ) (c d : Option Connection) (store : Store)
    → (a ≢ b) ⊎ (other_in c ≡ other_in d)
    → IsChange store (set_at a c (set_at b d store)) a b (other_in c) (other_in d)
two_at a b c d store h = record {
  a_is = ap other_in (set_at-same a c (set_at b d store));
  b_is = at_b h;
  outside = λ k na nb. set_at-other a k c (set_at b d store) na ∙ set_at-other b k d store nb;
}
  where
    away : b ≢ a → other_of (set_at a c (set_at b d store)) b ≡ other_in d
    away n = ap other_in (set_at-other a b c (set_at b d store) n ∙ set_at-same b d store)

    at_b :
        (a ≢ b) ⊎ (other_in c ≡ other_in d)
        → other_of (set_at a c (set_at b d store)) b ≡ other_in d
    at_b (inl n) = away (λ q. n (sym q))
    at_b (inr e) = elim (is_equal b a) [
      | inl q ↦
          ap (λ k. other_in (set_at a c (set_at b d store) k)) q
          ∙ ap other_in (set_at-same a c (set_at b d store))
          ∙ e
      | inr n ↦ away n
    ]

-- Where the pair of `a` and `b` is taken apart, all other pairs stay.
pub cleared :
    (a b : ℕ) (store store' : Store)
    → IsPaired store
    → IsChange store store' a b none none
    → ((k : ℕ) → other_of store a ≡ some k → k ≡ b)
    → ((k : ℕ) → other_of store b ≡ some k → k ≡ a)
    → IsPaired store'
cleared a b store store' p c ha hb k m e = elim (is_equal k a) [
  | inl q ↦ absurd (let z = sym (ap (other_of store') q) ∙ e in let w = c.a_is in cc)
  | inr ka ↦ elim (is_equal k b) [
    | inl q ↦ absurd (let z = sym (ap (other_of store') q) ∙ e in let w = c.b_is in cc)
    | inr kb ↦
        let back : other_of store m ≡ some k = p k m (ap other_in (sym (c.outside k ka kb)) ∙ e) in
        let ma : m ≢ a = λ q. kb (ha k (sym (ap (other_of store) q) ∙ back)) in
        let mb : m ≢ b = λ q. ka (hb k (sym (ap (other_of store) q) ∙ back)) in
        ap other_in (c.outside m ma mb) ∙ back
  ]
]

-- Two connections with no partners are joined.
pub linked :
    (a b : ℕ) (store store' : Store)
    → IsPaired store
    → IsChange store store' a b (some b) (some a)
    → other_of store a ≡ none
    → other_of store b ≡ none
    → IsPaired store'
linked a b store store' p c ha hb k m e = elim (is_equal k a) [
  | inl q ↦
      let z : some b ≡ some m = sym c.a_is ∙ sym (ap (other_of store') q) ∙ e in
      let m_is : m ≡ b = cc in ap (other_of store') m_is ∙ c.b_is ∙ ap some (sym q)
  | inr ka ↦ elim (is_equal k b) [
    | inl q ↦
        let z : some a ≡ some m = sym c.b_is ∙ sym (ap (other_of store') q) ∙ e in
        let m_is : m ≡ a = cc in ap (other_of store') m_is ∙ c.a_is ∙ ap some (sym q)
    | inr kb ↦
        let back : other_of store m ≡ some k = p k m (ap other_in (sym (c.outside k ka kb)) ∙ e) in
        let ma : m ≢ a = λ q. let z = sym (ap (other_of store) q) ∙ back in cc in
        let mb : m ≢ b = λ q. let z = sym (ap (other_of store) q) ∙ back in cc in
        ap other_in (c.outside m ma mb) ∙ back
  ]
]
