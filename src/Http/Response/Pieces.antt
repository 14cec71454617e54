-- ===== src/Http/Response/Pieces.antt =====
-- What the pieces of a response are, and how many bytes they have.
use https_proxy_server.Base.{
  ℕ, zero, suc, ◌+◌, ◌/◌, ◌%◌, ◌<◌, ◌≤◌, true, false, not, ◌≡◌, refl, sym, ap, ◌∙◌, arith, some, [],
  ◌∷◌, ◌++◌, ltb, leb, ◌==◌, length, all, Bytes, codes, length-append, append_assoc, append-nil,
  Bool-cases, inl, inr,
}
use https_proxy_server.Cstring.{until_nul, decimal_from, decimal}
use https_proxy_server.Http.Parser.Types.{HeaderMap}
use https_proxy_server.Http.Response.{
  digit_len_from, get_digit_len, crlf, sprintf_to, memcpy_to, headers_size, header_line,
  write_headers, status_text, write_response,
}

-- A C string: no byte is a NUL.
abbrev pub IsPlain : Bytes → Type 0
IsPlain part = all (λ c. not (c == 0)) part ≡ true

abbrev pub ArePlain : HeaderMap → Type 0
ArePlain [] = Unit {0}
ArePlain ((name, value) ∷ headers) = IsPlain name × IsPlain value × ArePlain headers

pub until_nul-IsPlain : (part : Bytes) → IsPlain part → until_nul part ≡ part
unfolding until_nul
until_nul-IsPlain [] h = refl
until_nul-IsPlain (c ∷ part) h = let ih = until_nul-IsPlain part in ground arith

length-decimal_from :
    (fuel n : ℕ) (out : Bytes)
    → n < fuel
    → length (decimal_from fuel n out) ≡ digit_len_from fuel 10 n + length out
unfolding decimal_from digit_len_from
length-decimal_from zero n out h = absurd (omega arith)
length-decimal_from (suc fuel) n out h = elim (Bool-cases (ltb n 10)) [
  | inl small ↦ let e : (n / 10 == 0) ≡ true = ground arith in rw (small, e) (omega arith)
  | inr large ↦
      let e : (n / 10 == 0) ≡ false = ground arith in
      rw (large, e)
        (let ih = length-decimal_from fuel (n / 10) ((b'0' + n % 10) ∷ out) (ground arith) in
          omega (arith, ih))
]

-- `get_digit_len` counts the digits that `%d` prints.
pub length-decimal : (n : ℕ) → length (decimal n) ≡ get_digit_len n 10
unfolding decimal get_digit_len
length-decimal n = omega (arith, length-decimal_from (suc n) n [] (omega arith))

abbrev pub header_lines : HeaderMap → Bytes
header_lines [] = []
header_lines ((name, value) ∷ headers) = header_line name value ++ header_lines headers

length-header_line :
    (name value : Bytes) → length (header_line name value) ≡ length name + length value + 4
length-header_line name value =
    omega (arith, length-append name (codes ": " ++ (value ++ crlf)), length-append value crlf)

pub length-header_lines :
    (headers : HeaderMap) → length (header_lines headers) ≡ headers_size headers
unfolding headers_size
length-header_lines [] = refl
length-header_lines ((name, value) ∷ headers) = omega (
  arith,
  length-append (header_line name value) (header_lines headers),
  length-header_line name value,
  length-header_lines headers,
)

pub sprintf_to-fits :
    (size : ℕ) (out line : Bytes)
    → length out + length line + 1 ≤ size
    → sprintf_to size out line ≡ some (out ++ line)
unfolding sprintf_to
sprintf_to-fits size out line h =
    let t : leb (length out + length line + 1) size ≡ true = ground arith in rw t

pub memcpy_to-fits :
    (size : ℕ) (out bytes : Bytes)
    → length out + length bytes ≤ size
    → memcpy_to size out bytes ≡ some (out ++ bytes)
unfolding memcpy_to
memcpy_to-fits size out bytes h =
    let t : leb (length out + length bytes) size ≡ true = ground arith in rw t

pub write_headers-lines :
    (size : ℕ) (headers : HeaderMap) (out : Bytes)
    → ArePlain headers
    → length out + headers_size headers + 1 ≤ size
    → write_headers size headers out ≡ some (out ++ header_lines headers)
unfolding write_headers headers_size
write_headers-lines size [] out plain h = ap some (sym (append-nil out))
write_headers-lines size ((name, value) ∷ headers) out (pn, pv, plain) h =
    let line = header_line name value in
    let len = length-header_line name value in
    rw
      (
        write_headers,
        until_nul-IsPlain name pn,
        until_nul-IsPlain value pv,
        sprintf_to-fits size out line (omega arith),
      )
      (write_headers-lines size headers (out ++ line) plain (omega (arith, length-append out line))
        ∙ ap some (append_assoc out line (header_lines headers)))

decimal_from-IsPlain : (fuel n : ℕ) (out : Bytes) → IsPlain out → IsPlain (decimal_from fuel n out)
unfolding decimal_from
decimal_from-IsPlain zero n out h = h
decimal_from-IsPlain (suc fuel) n out h = elim (Bool-cases (ltb n 10)) [
  | inl small ↦ let e : (b'0' + n == 0) ≡ false = ground arith in rw (small, e) h
  | inr large ↦
      let e : (b'0' + n % 10 == 0) ≡ false = ground arith in
      rw large (decimal_from-IsPlain fuel (n / 10) ((b'0' + n % 10) ∷ out) (rw e h))
]

pub decimal-IsPlain : (n : ℕ) → IsPlain (decimal n)
unfolding decimal
decimal-IsPlain n = decimal_from-IsPlain (suc n) n [] refl

-- The writes succeed where they fit, and are then all that is in the buffer.
pub write_response-fits :
    (size : ℕ) (line : Bytes) (major minor : ℕ) (headers : HeaderMap) (body : Bytes)
    → ArePlain headers
    → length (status_text line major minor) + headers_size headers + 2 + length body ≤ size
    → write_response size line major minor headers body
      ≡ some (((status_text line major minor ++ header_lines headers) ++ crlf) ++ body)
unfolding write_response
write_response-fits size line major minor headers body fine h =
    let first = status_text line major minor in
    let lines = length-append first (header_lines headers) in
    let all_lines = length-header_lines headers in
    let head = length-append (first ++ header_lines headers) crlf in
    rw
      (
        write_response,
        sprintf_to-fits size [] first (omega arith),
        write_headers-lines size headers first fine (omega arith),
        memcpy_to-fits size (first ++ header_lines headers) crlf (omega arith),
      )
      (memcpy_to-fits size ((first ++ header_lines headers) ++ crlf) body (omega arith))
