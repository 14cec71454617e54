-- ===== src/Cstring/Numbers.antt =====
-- A number that `sprintf` has written is read back.
use https_proxy_server.Base.{
  ℕ, zero, suc, ◌+◌, ◌/◌, ◌%◌, ◌<◌, ◌≤◌, Bool, true, false, ◌&&◌, ◌≡◌, refl, ap, ◌∙◌, arith, [],
  ◌∷◌, ltb, ◌==◌, Bytes, some, Bool-cases, inl, inr, ltb→lt,
}
use https_proxy_server.Cstring.{
  is_space, digit_in, digits_value, ulong_size, strtoul, decimal_from, decimal,
}

pub is_decimal : ℕ → Bool
is_decimal c = ltb (digit_in 10 c) 10 && (digit_in 10 c + b'0' == c)

digit_in-decimal : (d : ℕ) → d < 10 → digit_in 10 (b'0' + d) ≡ d
unfolding digit_in
digit_in-decimal d h = ground arith

-- Reading what has been written in front of `out`, from 0, is reading `out` from that number.
digits_value-decimal_from :
    (fuel n : ℕ) (out : Bytes)
    → n < fuel
    → digits_value 10 0 (decimal_from fuel n out) ≡ digits_value 10 n out
unfolding decimal_from digits_value
digits_value-decimal_from zero n out h = absurd (omega arith)
digits_value-decimal_from (suc fuel) n out h = elim (Bool-cases (ltb n 10)) [
  | inl small ↦ rw small (ground (arith, digit_in-decimal n))
  | inr large ↦ rw large (
      digits_value-decimal_from fuel (n / 10) ((b'0' + n % 10) ∷ out) (ground arith)
      ∙ ground (arith, digit_in-decimal (n % 10)))
]

-- The first byte written is a digit, so that no space, sign or prefix is skipped.
FirstDigit : Bytes → Type 0
FirstDigit [] = ⊥
FirstDigit (c ∷ text) = (b'0' ≤ c) × (c ≤ b'9')

decimal_from-FirstDigit :
    (fuel n : ℕ) (out : Bytes) → n < fuel → FirstDigit (decimal_from fuel n out)
unfolding decimal_from FirstDigit
decimal_from-FirstDigit zero n out h = absurd (omega arith)
decimal_from-FirstDigit (suc fuel) n out h = elim (Bool-cases (ltb n 10)) [
  | inl small ↦ rw small (let k = ltb→lt n 10 small in omega arith)
  | inr large ↦
      rw large (decimal_from-FirstDigit fuel (n / 10) ((b'0' + n % 10) ∷ out) (ground arith))
]

digit_is_plain :
    (c : ℕ)
    → b'0' ≤ c
    → c ≤ b'9'
    → (is_space c ≡ false)
      × ((c == b'-') ≡ false)
      × ((c == b'+') ≡ false)
      × (ltb (digit_in 10 c) 10 ≡ true)
unfolding is_space digit_in
digit_is_plain c lo hi = ground arith

strtoul-FirstDigit :
    (text : Bytes)
    → FirstDigit text
    → digits_value 10 0 text < ulong_size
    → strtoul text 10 ≡ some (digits_value 10 0 text)
unfolding strtoul FirstDigit
strtoul-FirstDigit [] f h = absurd f
strtoul-FirstDigit (c ∷ []) f h = ground (arith, digit_is_plain c f.0 f.1)
strtoul-FirstDigit (c ∷ x ∷ text) f h = ground (arith, digit_is_plain c f.0 f.1)

digits_value-nil : (n : ℕ) → digits_value 10 n [] ≡ n
unfolding digits_value
digits_value-nil n = refl

-- Every number that fits an `unsigned long` is read back from its decimal digits.
pub strtoul-decimal : (n : ℕ) → n < ulong_size → strtoul (decimal n) 10 ≡ some n
unfolding decimal
strtoul-decimal n h =
    let text = decimal_from (suc n) n [] in
    let value : digits_value 10 0 text ≡ n =
      digits_value-decimal_from (suc n) n [] (omega arith) ∙ digits_value-nil n in
    strtoul-FirstDigit text (decimal_from-FirstDigit (suc n) n [] (omega arith))
      (omega (arith, value))
    ∙ ap some value
