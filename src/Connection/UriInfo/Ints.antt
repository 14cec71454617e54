-- ===== src/Connection/UriInfo/Ints.antt =====
-- The `int` that `atoi` gives `get_uri_info`.
use https_proxy_server.Base.{
  ℕ, zero, suc, ◌-◌, ◌%◌, ◌^◌, ◌≤◌, ◌<◌, ltb, arith, Bytes, Bool-cases, inl, inr,
}
use https_proxy_server.Cstring.{skip_spaces}
use https_proxy_server.Connection.UriInfo.{
  ℤ, pos, negsuc, neg, strtol_digits, int_of_word, to_int, atoi,
}

-- A value of an `int` of 32 bits.
abbrev pub IsInt : ℤ → Type 0
IsInt (pos n) = n < 2 ^ 31
IsInt (negsuc n) = n < 2 ^ 31

int_of_word-IsInt : (word : ℕ) → word < 2 ^ 32 → IsInt (int_of_word word)
unfolding int_of_word
int_of_word-IsInt word h = elim (Bool-cases (ltb word (2 ^ 31))) [
  | inl e ↦ rw e (ground arith)
  | inr e ↦ rw e (negated (2 ^ 32 - word) (ground arith))
]
  where
    negated : (n : ℕ) → n ≤ 2 ^ 31 → IsInt (neg n)
    negated zero k = omega arith
    negated (suc n) k = omega arith

to_int-IsInt : (value : ℤ) → IsInt (to_int value)
unfolding to_int
to_int-IsInt (pos n) = int_of_word-IsInt (n % 2 ^ 32) (omega arith)
to_int-IsInt (negsuc n) = int_of_word-IsInt (2 ^ 32 - 1 - n % 2 ^ 32) (omega arith)

pub atoi-IsInt : (text : Bytes) → IsInt (atoi text)
unfolding atoi
atoi-IsInt text = to_int-IsInt (strtol_digits (skip_spaces text))
