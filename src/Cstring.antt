-- ===== src/Cstring.antt =====
-- base/cstring.h and base/cstring.cpp: the conversion of text to numbers, `trim`, and the case
-- functions of the C library in the "C" locale. A C string is the list of the bytes in front of its
-- NUL.
pub mod Numbers
use https_proxy_server.Base.{
  ℕ, zero, suc, ◌+◌, ◌-◌, ◌*◌, ◌%◌, ◌/◌, ◌^◌, Bool, true, false, ◌&&◌, ◌||◌, List, [], ◌∷◌, ◌++◌,
  Option, none, some, leb, ltb, ◌==◌, if◌then◌else◌, Bytes,
}

-- The C string at the front of an array.
unfoldable pub until_nul : Bytes → Bytes
until_nul [] = []
until_nul (c ∷ text) = if c == 0 then [] else c ∷ until_nul text

-- `tolower`
unfoldable pub to_lower : ℕ → ℕ
to_lower c = if leb b'A' c && leb c b'Z' then c + 32 else c

-- `0 == strcasecmp(a, b)`
unfoldable pub same_text : Bytes → Bytes → Bool
unfolding to_lower
same_text [] [] = true
same_text [] (y ∷ b) = false
same_text (x ∷ a) [] = false
same_text (x ∷ a) (y ∷ b) = to_lower x == to_lower y && same_text a b

-- `isspace`, which is also the set of bytes that `trim` drops.
unfoldable pub is_space : ℕ → Bool
is_space c = c == b' ' || (leb 9 c && leb c 13)

unfoldable pub skip_spaces : Bytes → Bytes
unfolding is_space
skip_spaces [] = []
skip_spaces (c ∷ text) = if is_space c then skip_spaces text else c ∷ text

-- The value of a digit, or the base where it is none.
unfoldable pub digit_in : ℕ → ℕ → ℕ
digit_in base c =
    let d =
      if leb b'0' c && leb c b'9'
      then c - b'0'
      else if leb b'a' c && leb c b'z'
      then c - b'a' + 10
      else if leb b'A' c && leb c b'Z'
      then c - b'A' + 10
      else base in
    if ltb d base then d else base

-- The value of the digits at the front of a text, after `n`.
unfoldable pub digits_value : ℕ → ℕ → Bytes → ℕ
unfolding digit_in
digits_value base n [] = n
digits_value base n (c ∷ text) =
    let d = digit_in base c in
    let rest = digits_value base (n * base + d) text in if ltb d base then rest else n

unfoldable pub starts_digit : ℕ → Bytes → Bool
unfolding digit_in
starts_digit base [] = false
starts_digit base (c ∷ text) = ltb (digit_in base c) base

-- With base 16 a prefix `0x` in front of a digit is skipped.
unfoldable pub skip_prefix : ℕ → Bytes → Bytes
unfolding starts_digit to_lower
skip_prefix base (z ∷ x ∷ text) =
    if base == 16 && (z == b'0' && (to_lower x == b'x' && starts_digit base text))
    then text
    else z ∷ x ∷ text
skip_prefix base text = text

abbrev pub ulong_size : ℕ
ulong_size = 2 ^ 64

-- `::strtoul` at the digits, with `base::strtoul`'s tests: no digit, or `ERANGE`, is a failure. A
-- number behind a minus sign is negated in an `unsigned long`.
unfoldable pub unsigned_digits : ℕ → Bool → Bytes → Option ℕ
unfolding starts_digit digits_value
unsigned_digits base negated text =
    let n = digits_value base 0 text in
    if starts_digit base text
    then if ltb n ulong_size
      then some (if negated then (ulong_size - n) % ulong_size else n)
      else none
    else none

unfoldable pub after_sign : ℕ → Bytes → Option ℕ
unfolding unsigned_digits skip_prefix
after_sign base [] = none
after_sign base (c ∷ text) =
    if c == b'-'
    then unsigned_digits base true (skip_prefix base text)
    else if c == b'+'
    then unsigned_digits base false (skip_prefix base text)
    else unsigned_digits base false (skip_prefix base (c ∷ text))

-- `base::strtoul` with `check_safe` false, as all of its calls have it; `none` is `false`.
unfoldable pub strtoul : Bytes → ℕ → Option ℕ
unfolding after_sign skip_spaces
strtoul text base = after_sign base (skip_spaces text)

-- The decimal digits that `sprintf` writes, most significant first. The fuel is a bound on their
-- number, and a number has no more digits than its value plus one.
unfoldable pub decimal_from : ℕ → ℕ → Bytes → Bytes
decimal_from zero n out = out
decimal_from (suc fuel) n out =
    let more = decimal_from fuel (n / 10) ((b'0' + n % 10) ∷ out) in
    if ltb n 10 then (b'0' + n) ∷ out else more

unfoldable pub decimal : ℕ → Bytes
unfolding decimal_from
decimal n = decimal_from (suc n) n []
