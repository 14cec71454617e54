-- ===== src/IoExt/Exact.antt =====
-- `readn` reads what it is asked for, and `writen` reports a failure.
use https_proxy_server.Base.{
  ℕ, zero, suc, ◌+◌, ◌-◌, ◌<◌, ◌≤◌, Bool, true, false, not, ◌||◌, ◌&&◌, ==_refl, ◌≡◌, refl, sym, ap,
  ◌∙◌, arith, Option, some, [], ◌∷◌, ◌++◌, ◌==◌, min, length, take, drop, Bytes, Bool-cases, inl,
  inr, length-append, append_assoc,
}
use https_proxy_server.IoExt.{
  Returned, count, nothing, failed, minus_one, moved, Moved, finish, got, is_failed, readn_loop,
  readn, writen,
}

-- The bytes that have been read are those at the front of the source, in their order, and no more
-- than were asked for; the call succeeds exactly if they are as many as that.
pub record IsFront (cnt : ℕ) (source : Bytes) (m : Moved) : Type 0 where
  pub whole : m.bytes ++ m.rest ≡ source
  pub fits : length m.bytes ≤ cnt
  pub ok_is : m.ok ≡ (length m.bytes == cnt)

-- What `*tran` is, from what the first `read` returns and how many bytes are asked for.
abbrev pub IsTran : Returned → ℕ → Moved → Type 0
IsTran failed (suc n) m = (m.tran ≡ minus_one) × (m.bytes ≡ [])
IsTran failed zero m = m.tran ≡ moved 0
IsTran (count k) cnt m = m.tran ≡ moved (length m.bytes)
IsTran nothing cnt m = m.tran ≡ moved (length m.bytes)

-- What has been read is the front of what there was.
pub got_whole :
    (r : Returned) (left : ℕ) (source : Bytes)
    → got r left source ++ drop (length (got r left source)) source ≡ source
got_whole (count n) left source = taken (min (suc n) left) source
  where
    taken : (k : ℕ) (xs : Bytes) → take k xs ++ drop (length (take k xs)) xs ≡ xs
    taken zero xs = refl
    taken (suc k) [] = refl
    taken (suc k) (x ∷ xs) = ap (◌∷◌ x) (taken k xs)
got_whole nothing left source = refl
got_whole failed left source = refl

length-got : (r : Returned) (left : ℕ) (source : Bytes) → length (got r left source) ≤ left
length-got (count n) left source = let k = short (min (suc n) left) source in ground arith
  where
    short : (k : ℕ) (xs : Bytes) → length (take k xs) ≤ k
    short zero xs = omega arith
    short (suc k) [] = omega arith
    short (suc k) (x ∷ xs) = omega (arith, short k xs)
length-got nothing left source = omega arith
length-got failed left source = omega arith

module _ (reads : ℕ → Returned) (cnt : ℕ) (source : Bytes) where
  abbrev Reads : Option Moved → Type 0
  Reads o = (m : Moved) × (o ≡ some m) × IsFront cnt source m × (m.tran ≡ moved (length m.bytes))

  finished :
      (left : ℕ) (bytes rest : Bytes)
      → bytes ++ rest ≡ source
      → length bytes + left ≡ cnt
      → IsFront cnt source (finish cnt left bytes rest)
        × (moved (cnt - left) ≡ moved (length bytes))
  finished left bytes rest whole sum =
      (record { whole = whole; fits = omega arith; ok_is = same_test }, ap moved (omega arith))
    where
      same_test : (left == 0) ≡ (length bytes == cnt)
      same_test = ground arith

  ended :
      (left : ℕ) (b : Bool) (bytes rest : Bytes)
      → (left == 0) ≡ b
      → ◌≡◌ {A = Option Moved}
          (some (finish cnt left bytes rest))
          (some (record { ok = b; tran = moved (cnt - left); bytes = bytes; rest = rest }))
  ended left b bytes rest z =
      ap (λ k. some (record { ok = k; tran = moved (cnt - left); bytes = bytes; rest = rest })) z

  readn_loop-more :
      (fuel i left : ℕ) (bytes rest : Bytes) (c : ℕ) (more : Bytes)
      → (left == 0) ≡ false
      → got (reads i) left rest ≡ c ∷ more
      → readn_loop (suc fuel) reads i cnt left bytes rest
        ≡ readn_loop fuel reads
            (suc i)
            cnt
            (left - length (c ∷ more))
            (bytes ++ c ∷ more)
            (drop (length (c ∷ more)) rest)
  unfolding readn_loop
  readn_loop-more fuel i left bytes rest c more z e = rw (readn_loop, z, e)

  -- A round, when the later ones are right.
  readn_round :
      (fuel i left : ℕ) (bytes rest : Bytes)
      → bytes ++ rest ≡ source
      → length bytes + left ≡ cnt
      → left < suc fuel
      → ((left' : ℕ) (bytes' rest' : Bytes)
          → bytes' ++ rest' ≡ source
          → length bytes' + left' ≡ cnt
          → left' < fuel
          → (is_failed (reads (suc i)) && left' == cnt) ≡ false
          → Reads (readn_loop fuel reads (suc i) cnt left' bytes' rest'))
      → (is_failed (reads i) && left == cnt) ≡ false
      → (g : Bytes) → got (reads i) left rest ≡ g
      → (left == 0) ≡ false
      → Reads (readn_loop (suc fuel) reads i cnt left bytes rest)
  unfolding readn_loop
  readn_round fuel i left bytes rest whole sum h later calm (c ∷ more) e z =
      let all_got : c ∷ more ++ drop (length (c ∷ more)) rest ≡ rest =
        ap (λ g. g ++ drop (length g) rest) (sym e) ∙ got_whole (reads i) left rest in
      let short = length-got (reads i) left rest in
      let len : length (got (reads i) left rest) ≡ suc (length more) = ap length e in
      let l = length-append bytes (c ∷ more) in
      let fewer : (is_failed (reads (suc i)) && left - length (c ∷ more) == cnt) ≡ false =
        let here : (left == 0) ≡ false = z in ground arith in
      let (m, is, r, q) =
        later (left - length (c ∷ more)) (bytes ++ c ∷ more) (drop (length (c ∷ more)) rest)
          (append_assoc bytes (c ∷ more) (drop (length (c ∷ more)) rest)
            ∙ ap (λ t. bytes ++ t) all_got
            ∙ whole)
          (omega arith) (omega arith) fewer in
      (m, readn_loop-more fuel i left bytes rest c more z e ∙ is, r, q)
  readn_round fuel i left bytes rest whole sum h later calm [] e z =
      let t : (not (is_failed (reads i)) || not (left == cnt)) ≡ true = ground arith in
      (
        finish cnt left bytes rest,
        rw (readn_loop, z, e, t) (ended left false bytes rest z),
        (finished left bytes rest whole sum).0,
        (finished left bytes rest whole sum).1,
      )

  readn_loop-Reads :
      (fuel i left : ℕ) (bytes rest : Bytes)
      → bytes ++ rest ≡ source
      → length bytes + left ≡ cnt
      → left < fuel
      → (is_failed (reads i) && left == cnt) ≡ false
      → Reads (readn_loop fuel reads i cnt left bytes rest)
  unfolding readn_loop
  readn_loop-Reads zero i left bytes rest whole sum h calm = absurd (omega arith)
  readn_loop-Reads (suc fuel) i left bytes rest whole sum h calm = elim (Bool-cases (left == 0)) [
    | inl z ↦
        let (front, counted) = finished left bytes rest whole sum in
        (finish cnt left bytes rest, rw (readn_loop, z), front, counted)
    | inr z ↦
        readn_round fuel i left bytes rest whole sum h
          (λ left' bytes' rest' w t k q. readn_loop-Reads fuel (suc i) left' bytes' rest' w t k q)
          calm (got (reads i) left rest) refl z
  ]

-- Whatever each `read` returns, `readn` ends after at most one round more than it is asked for bytes.
-- What it has read is then the front of the source, in its order; it succeeds exactly if that is as
-- many bytes as asked for, and `*tran` counts them, unless bytes are asked for and the first `read`
-- fails, which makes it -1, with no byte read.
pub readn-IsRead :
    (reads : ℕ → Returned) (fuel cnt : ℕ) (source : Bytes)
    → cnt < fuel
    → (m : Moved) × (readn fuel reads cnt source ≡ some m)
      × IsFront cnt source m
      × IsTran (reads 0) cnt m
unfolding readn readn_loop
readn-IsRead reads zero cnt source h = absurd (omega arith)
readn-IsRead reads (suc fuel) zero source h =
    (finish 0 0 [] source, refl, front, by_first (reads 0))
  where
    front : IsFront 0 source (finish 0 0 [] source)
    front = record { whole = refl; fits = omega arith; ok_is = refl }

    by_first : (r : Returned) → IsTran r 0 (finish 0 0 [] source)
    by_first (count k) = refl
    by_first nothing = refl
    by_first failed = refl
readn-IsRead reads (suc fuel) (suc n) source h = by_first (reads 0) refl
  where
    calm_of : is_failed (reads 0) ≡ false → (is_failed (reads 0) && suc n == suc n) ≡ false
    calm_of e = rw e

    by_first :
        (r : Returned)
        → reads 0 ≡ r
        → (m : Moved) × (readn (suc fuel) reads (suc n) source ≡ some m)
          × IsFront (suc n) source m
          × IsTran r (suc n) m
    by_first (count k) e =
        readn_loop-Reads reads (suc n) source (suc fuel) 0 (suc n) [] source refl (omega arith) h
          (calm_of (ap is_failed e))
    by_first nothing e =
        readn_loop-Reads reads (suc n) source (suc fuel) 0 (suc n) [] source refl (omega arith) h
          (calm_of (ap is_failed e))
    by_first failed e =
        let same : (suc n == suc n) ≡ true = ==_refl (suc n) in
        let some_asked : (suc n == 0) ≡ false = ground arith in
        let none_got : (0 == suc n) ≡ false = ground arith in
        let is = ap is_failed e in
        (
          record { ok = false; tran = minus_one; bytes = []; rest = source },
          rw (readn, readn_loop, e, some_asked, same, is),
          record { whole = refl; fits = omega arith; ok_is = sym none_got },
          (refl, refl),
        )

-- Whatever `write` returns, `writen` reports failure for every count above 0, even if all has been
-- written.
pub writen-fails :
    (returned : Returned) (cnt : ℕ) (buf : Bytes) → 0 < cnt → (writen returned cnt buf).ok ≡ false
unfolding writen
writen-fails returned cnt buf h = by_result returned
  where
    some_left : (cnt == 0) ≡ false
    some_left = ground arith

    by_result : (r : Returned) → (writen r cnt buf).ok ≡ false
    by_result (count n) = rw some_left
    by_result nothing = rw some_left
    by_result failed = rw some_left
