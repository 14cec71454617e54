-- ===== src/Uri.antt =====
-- The URI codec of core/http.cpp: the table of unreserved bytes, `http_encode_uri_impl`,
-- `http_decode_uri_impl` and the in-place `http_decode_uri`. A pointer `uri + i` is the list of the
-- bytes in memory from there on, and `len` counts those that are still part of the text: the code
-- looks at up to two bytes behind the one it decodes, which may lie past the text.
pub mod Spec
pub mod RoundTrip
pub mod InPlace
use https_proxy_server.Base.{
  ℕ, zero, suc, ◌+◌, ◌-◌, ◌*◌, ◌/◌, ◌%◌, Bool, true, false, not, ◌&&◌, ◌||◌, List, [], ◌∷◌, ◌++◌,
  Option, none, some, leb, ltb, ◌==◌, if◌then◌else◌, get_or, take, drop, prepend, Bytes,
}

within : ℕ → ℕ → ℕ → Bool
within lo hi c = leb lo c && leb c hi

-- `http_uri_table`, sixteen entries to a row; the upper half is 0.
abbrev pub http_uri_table : List ℕ
http_uri_table =
    0 ∷ 0 ∷ 0 ∷ 0 ∷ 0 ∷ 0 ∷ 0 ∷ 0 ∷ 0 ∷ 0 ∷ 0 ∷ 0 ∷ 0 ∷ 0 ∷ 0 ∷ 0 ∷ 0 ∷ 0 ∷ 0 ∷ 0 ∷ 0 ∷ 0 ∷ 0 ∷ 0
    ∷ 0 ∷ 0 ∷ 0 ∷ 0 ∷ 0 ∷ 0 ∷ 0 ∷ 0 ∷ 0 ∷ 0 ∷ 0 ∷ 0 ∷ 0 ∷ 0 ∷ 0 ∷ 0 ∷ 0 ∷ 0 ∷ 0 ∷ 0 ∷ 0 ∷ 1 ∷ 1 ∷ 0
    ∷ 1 ∷ 1 ∷ 1 ∷ 1 ∷ 1 ∷ 1 ∷ 1 ∷ 1 ∷ 1 ∷ 1 ∷ 0 ∷ 0 ∷ 0 ∷ 0 ∷ 0 ∷ 0 ∷ 0 ∷ 1 ∷ 1 ∷ 1 ∷ 1 ∷ 1 ∷ 1 ∷ 1
    ∷ 1 ∷ 1 ∷ 1 ∷ 1 ∷ 1 ∷ 1 ∷ 1 ∷ 1 ∷ 1 ∷ 1 ∷ 1 ∷ 1 ∷ 1 ∷ 1 ∷ 1 ∷ 1 ∷ 1 ∷ 1 ∷ 1 ∷ 0 ∷ 0 ∷ 0 ∷ 0 ∷ 1
    ∷ 0 ∷ 1 ∷ 1 ∷ 1 ∷ 1 ∷ 1 ∷ 1 ∷ 1 ∷ 1 ∷ 1 ∷ 1 ∷ 1 ∷ 1 ∷ 1 ∷ 1 ∷ 1 ∷ 1 ∷ 1 ∷ 1 ∷ 1 ∷ 1 ∷ 1 ∷ 1 ∷ 1
    ∷ 1 ∷ 1 ∷ 1 ∷ 0 ∷ 0 ∷ 0 ∷ 1 ∷ 0 ∷ []

-- `HTTP_CHAR_IS_UNRESERVED`: a byte from 128 on has the entry 0.
unfoldable pub is_unreserved : ℕ → Bool
is_unreserved c = not (get_or http_uri_table c 0 == 0)

-- A digit of `sprintf("%02X")`.
unfoldable pub hex_digit : ℕ → ℕ
hex_digit d = if ltb d 10 then b'0' + d else b'A' + (d - 10)

-- What one byte of the text is written as.
unfoldable pub encode_byte : ℕ → Bool → Bytes
unfolding is_unreserved hex_digit
encode_byte c space_as_plus =
    if is_unreserved c
    then c ∷ []
    else if c == b' ' && space_as_plus
    then b'+' ∷ []
    else b'%' ∷ hex_digit (c / 16) ∷ hex_digit (c % 16) ∷ []

unfoldable pub encode_uri : Bytes → Bool → Bytes
unfolding encode_byte
encode_uri [] space_as_plus = []
encode_uri (c ∷ uri) space_as_plus = encode_byte c space_as_plus ++ encode_uri uri space_as_plus

-- `decode_plus` is an `int` that the code compares with 0 only.
pub data DecodePlus : Type 0 where
  negative null positive : DecodePlus

abbrev pub is_nonzero : DecodePlus → Bool
is_nonzero null = false
is_nonzero _ = true

-- `if(decode_plus < 0) decode_plus = 1`
abbrev pub after_query : DecodePlus → DecodePlus
after_query negative = positive
after_query plus = plus

unfoldable pub is_xdigit : ℕ → Bool
unfolding within
is_xdigit c = within b'0' b'9' c || within b'A' b'F' c || within b'a' b'f' c

-- The value of a digit under `strtol(…, 16)`.
unfoldable pub digit_value : ℕ → ℕ
digit_value c = if leb c b'9' then c - b'0' else if leb c b'F' then c - 55 else c - 87

-- `c == '%' && isxdigit(uri[i+1]) && isxdigit(uri[i+2])`
unfoldable pub is_escape : Bytes → Bool
unfolding is_xdigit
is_escape uri = get_or uri 0 0 == b'%' && (is_xdigit (get_or uri 1 0) && is_xdigit (get_or uri 2 0))

unfoldable pub escape_value : Bytes → ℕ
unfolding digit_value
escape_value uri = 16 * digit_value (get_or uri 1 0) + digit_value (get_or uri 2 0)

-- One round of the loop: the byte to write, how far `i` moves, and `decode_plus` from then on.
pub record Decoded : Type 0 where
  pub byte : ℕ
  pub used : ℕ
  pub plus : DecodePlus

unfoldable pub decode_byte : Bytes → DecodePlus → Decoded
unfolding is_escape escape_value
decode_byte uri plus =
    let c = get_or uri 0 0 in
    if c == b'?'
    then record { byte = c; used = 1; plus = after_query plus }
    else if c == b'+' && is_nonzero plus
    then record { byte = b' '; used = 1; plus = plus }
    else if is_escape uri
    then record { byte = escape_value uri; used = 3; plus = plus }
    else record { byte = c; used = 1; plus = plus }

-- Each round moves `i` on, so `len` rounds are enough.
unfoldable pub decode_loop : ℕ → Bytes → ℕ → DecodePlus → Bytes
unfolding decode_byte
decode_loop zero uri len plus = []
decode_loop (suc fuel) uri zero plus = []
decode_loop (suc fuel) uri (suc n) plus =
    let d = decode_byte uri plus in
    d.byte ∷ decode_loop fuel (drop d.used uri) (suc n - d.used) d.plus

unfoldable pub decode_uri : Bytes → ℕ → DecodePlus → Bytes
unfolding decode_loop
decode_uri uri len plus = decode_loop len uri len plus

-- The memory behind the escape at the front once
-- `memmove(&uri[i+1], &uri[i+3], len-i-3)` has closed the gap: the two last bytes stay behind.
unfoldable pub close_gap : Bytes → ℕ → Bytes
close_gap uri len = take (len - 3) (drop 3 uri) ++ drop (len - 2) uri

-- The in-place decoder gives the bytes that it leaves in `uri[0 .. result)`. `none` is the
-- `memmove` whose length `len-i-3` falls below zero and wraps around.
unfoldable pub decode_in_place_loop : ℕ → Bytes → ℕ → DecodePlus → Option Bytes
unfolding decode_byte close_gap is_escape
decode_in_place_loop zero uri len plus = some []
decode_in_place_loop (suc fuel) uri zero plus = some []
decode_in_place_loop (suc fuel) uri (suc n) plus =
    let d = decode_byte uri plus in
    let step_over = decode_in_place_loop fuel (drop 1 uri) n d.plus in
    let step_on = decode_in_place_loop fuel (close_gap uri (suc n)) (n - 2) d.plus in
    if d.used == 3
    then if ltb n 2 then none else prepend d.byte step_on
    else prepend d.byte step_over

unfoldable pub decode_in_place : Bytes → ℕ → DecodePlus → Option Bytes
unfolding decode_in_place_loop
decode_in_place uri len plus = decode_in_place_loop len uri len plus
