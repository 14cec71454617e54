-- ===== src/CircleBuffer/Ring.antt =====
-- The ring as the list of its values, the oldest one first.
use https_proxy_server.Base.{
  ℕ, zero, suc, ◌+◌, ◌-◌, ◌≤◌, ◌<◌, true, false, ◌≡◌, ◌≢◌, ◌⊎◌, inl, inr, refl, sym, ap, ◌∙◌, arith,
  some, List, [], ◌∷◌, ◌++◌, ◌==◌, ltb, if◌then◌else◌, Bool-cases, ==→eq, ==_refl, drop, length,
}
use https_proxy_server.CircleBuffer.{
  CircleBuffer, put, index, new_circle, is_full, push_back, pop_front, clear,
}

-- The position `n` places behind `p`, for an `n` up to the capacity.
abbrev position : ℕ → ℕ → ℕ → ℕ
position capacity p n = if ltb (p + n) capacity then p + n else p + n - capacity

module _ {ℓ} {A : Type ℓ} where
  -- `count` values from a position on.
  abbrev pub run : ℕ → (ℕ → A) → ℕ → ℕ → List A
  run capacity values zero p = []
  run capacity values (suc count) p = values p ∷ run capacity values count (index capacity (p + 1))

  abbrev pub contents : CircleBuffer A → List A
  contents c = run c.capacity c.values c.size c.front

  -- The last value lies in front of the place that is `size_` places behind the first one.
  pub record IsRing (c : CircleBuffer A) : Type 0 where
    pub has_room : 0 < c.capacity
    pub size_le : c.size ≤ c.capacity
    pub front_lt : c.front < c.capacity
    pub back_lt : c.back < c.capacity
    pub back_is :
        (c.back + 1 ≡ c.front + c.size)
        ⊎ (c.back + 1 ≡ c.front + c.size + c.capacity)
        ⊎ (c.back + 1 + c.capacity ≡ c.front + c.size)

  put-same : (i : ℕ) (x : A) (values : ℕ → A) → put i x values i ≡ x
  unfolding put
  put-same i x values = rw (==_refl i)

  put-other : (i k : ℕ) (x : A) (values : ℕ → A) → k ≢ i → put i x values k ≡ values k
  unfolding put
  put-other i k x values n = elim (Bool-cases (k == i)) [
    | inl e ↦ absurd (n (==→eq k i e))
    | inr e ↦ rw e
  ]

  run_last :
      (capacity : ℕ) (values : ℕ → A) (n p : ℕ)
      → p < capacity
      → n < capacity
      → run capacity values (suc n) p
        ≡ run capacity values n p ++ values (position capacity p n) ∷ []
  run_last capacity values zero p h k = ap (λ i. values i ∷ []) (ground arith)
  run_last capacity values (suc n) p h k =
      ap (λ l. values p ∷ l)
        (run_last capacity values n (index capacity (p + 1)) (ground arith) (omega arith)
          ∙ ap (λ i. run capacity values n (index capacity (p + 1)) ++ values i ∷ [])
              (ground arith))

  -- A value written outside a run does not change the run.
  run-put :
      (capacity q : ℕ) (x : A) (values : ℕ → A) (n p : ℕ)
      → p < capacity
      → n ≤ capacity
      → ((i : ℕ) → i < n → position capacity p i ≢ q)
      → run capacity (put q x values) n p ≡ run capacity values n p
  run-put capacity q x values zero p h k away = refl
  run-put capacity q x values (suc n) p h k away =
      let here : p ≢ q = λ e. away 0 (omega arith) (ground arith) in
      rw (
        put-other q p x values here,
        run-put capacity q x values n (index capacity (p + 1)) (ground arith) (omega arith)
            (λ i l e. away (suc i) (omega arith) (ground arith)),
      )

  push_back-room :
      (x : A) (c : CircleBuffer A)
      → IsRing c
      → c.size < c.capacity
      → IsRing (push_back x c) × (contents (push_back x c) ≡ contents c ++ x ∷ [])
  unfolding push_back
  push_back-room x c r h =
      let b = index c.capacity (c.back + 1) in
      let room = r.has_room in
      let le = r.size_le in
      let f = r.front_lt in
      let free : (c.size == c.capacity) ≡ false = ground arith in
      let b_is : b ≡ position c.capacity c.front c.size = ground arith in
      let pushed : contents (record c { values = put b x c.values; back = b; size = suc c.size })
          ≡ contents c ++ x ∷ [] =
        run_last c.capacity (put b x c.values) c.size c.front f h
        ∙ ap (λ i. run c.capacity (put b x c.values) c.size c.front ++ put b x c.values i ∷ [])
            (sym b_is)
        ∙ ap (λ y. run c.capacity (put b x c.values) c.size c.front ++ y ∷ [])
            (put-same b x c.values)
        ∙ ap (λ l. l ++ x ∷ [])
            (run-put c.capacity b x c.values c.size c.front f le (λ i l q. ground arith)) in
      rw free (
        record {
          has_room = room;
          size_le = omega arith;
          front_lt = f;
          back_lt = ground arith;
          back_is = ground arith;
        },
        pushed,
      )

  push_back-full :
      (x : A) (c : CircleBuffer A)
      → IsRing c
      → c.size ≡ c.capacity
      → IsRing (push_back x c) × (contents (push_back x c) ≡ drop 1 (contents c) ++ x ∷ [])
  unfolding push_back
  push_back-full x c r h =
      let room = r.has_room in
      let f = r.front_lt in
      let m = c.capacity - 1 in
      let size_is : c.size ≡ suc m = omega arith in
      let next = index c.capacity (c.front + 1) in
      let values' = put c.front x c.values in
      let next_lt : next < c.capacity = ground arith in
      let last_is : position c.capacity next m ≡ c.front = ground arith in
      let full : (c.size == c.capacity) ≡ true = ground arith in
      let some_there : (c.size == 0) ≡ false = ground arith in
      let pushed : run c.capacity values' c.size next ≡ drop 1 (contents c) ++ x ∷ [] =
        ap (λ n. run c.capacity values' n next) size_is
        ∙ run_last c.capacity values' m next next_lt (omega arith)
        ∙ ap (λ i. run c.capacity values' m next ++ values' i ∷ []) last_is
        ∙ ap (λ y. run c.capacity values' m next ++ y ∷ []) (put-same c.front x c.values)
        ∙ ap (λ l. l ++ x ∷ [])
            (run-put c.capacity c.front x c.values m next next_lt (omega arith)
              (λ i l q. ground arith))
        ∙ ap (λ n. drop 1 (run c.capacity c.values n c.front) ++ x ∷ []) (sym size_is) in
      rw (full, some_there)
        (
          record {
            has_room = room;
            size_le = r.size_le;
            front_lt = next_lt;
            back_lt = f;
            back_is = ground arith;
          },
          pushed,
        )

  -- `push_back` adds a value at the end; a ring that is full loses its oldest value.
  pub push_back-IsRing :
      (x : A) (c : CircleBuffer A)
      → IsRing c
      → IsRing (push_back x c)
        × (contents (push_back x c)
            ≡ (if is_full c then drop 1 (contents c) ++ x ∷ [] else contents c ++ x ∷ []))
  push_back-IsRing x c r =
      let le = r.size_le in
      elim (Bool-cases (is_full c)) [
        | inl e ↦ rw e (push_back-full x c r (==→eq c.size c.capacity e))
        | inr e ↦ rw e (push_back-room x c r (ground arith))
      ]

  -- `pop_front` takes the oldest value off, where there is one.
  pub pop_front-IsRing :
      (c : CircleBuffer A)
      → IsRing c
      → 0 < c.size
      → (c' : CircleBuffer A) × (pop_front c ≡ some c')
        × IsRing c'
        × (contents c ≡ c.values c.front ∷ contents c')
  unfolding pop_front
  pop_front-IsRing c r h =
      let room = r.has_room in
      let f = r.front_lt in
      let k = r.back_lt in
      let some_there : (c.size == 0) ≡ false = ground arith in
      let size_is : c.size ≡ suc (c.size - 1) = omega arith in
      let next = index c.capacity (c.front + 1) in
      (
        record c { front = next; size = c.size - 1 },
        rw some_there,
        record {
          has_room = room;
          size_le = let le = r.size_le in omega arith;
          front_lt = ground arith;
          back_lt = k;
          back_is = let e = r.back_is in ground arith;
        },
        ap (λ n. run c.capacity c.values n c.front) size_is,
      )

  -- A new ring is full of the value it is made with, and a cleared one is empty.
  pub new_circle-IsRing :
      (n : ℕ) (x : A)
      → 0 < n
      → IsRing (new_circle n x)
        × (length (contents (new_circle n x)) ≡ n)
        × IsRing (clear (new_circle n x))
        × (contents (clear (new_circle n x)) ≡ [])
  unfolding new_circle clear
  new_circle-IsRing n x h = (ring, run-length n n 0, cleared, refl)
    where
      ring : IsRing (new_circle n x)
      ring = record {
        has_room = h;
        size_le = omega arith;
        front_lt = h;
        back_lt = omega arith;
        back_is = inl (omega arith);
      }

      cleared : IsRing (clear (new_circle n x))
      cleared = record {
        has_room = h;
        size_le = omega arith;
        front_lt = h;
        back_lt = omega arith;
        back_is = inr (inl (omega arith));
      }

      run-length : (capacity count p : ℕ) → length (run capacity (λ k. x) count p) ≡ count
      run-length capacity zero p = refl
      run-length capacity (suc count) p =
          ap suc (run-length capacity count (index capacity (p + 1)))
