-- ===== src/Http/Response/Signed.antt =====
-- A response to a request whose version does not fit a `char`.
use https_proxy_server.Base.{
  ℕ, zero, suc, ◌+◌, ◌-◌, ◌*◌, ◌/◌, ◌^◌, ◌<◌, ◌≤◌, Bool, true, false, ◌≡◌, refl, sym, ap, ◌∙◌,
  arith, Option, some, ◌∷◌, ◌++◌, ltb, leb, ◌==◌, length, Bytes, length-append, Bool-cases, inl,
  inr, passes_from, table_lem,
}
use https_proxy_server.Cstring.{until_nul, decimal}
use https_proxy_server.Http.Parser.Types.{HeaderMap}
use https_proxy_server.Http.Response.{
  digit_len_from, get_digit_len, char_as_size, char_digits, SendMode, Response, crlf, headers_size,
  or_none, body_bytes, status_text, response_size, is_closed_after, is_sent_at_once, send_response,
}
use https_proxy_server.Http.Response.Pieces.{
  ArePlain, until_nul-IsPlain, length-decimal, header_lines, length-header_lines,
  write_response-fits,
}
use https_proxy_server.Http.Response.Filled.{status_words, status_words_lem, char_lem}

-- `10 ^ k`
ten_to : ℕ → ℕ
ten_to zero = 1
ten_to (suc k) = 10 * ten_to k

digit_len_from-above : (k fuel n : ℕ) → k < fuel → ten_to k ≤ n → k < digit_len_from fuel 10 n
unfolding digit_len_from ten_to
digit_len_from-above k zero n h p = absurd (omega arith)
digit_len_from-above zero (suc fuel) n h p = elim (Bool-cases (n / 10 == 0)) [
  | inl e ↦ rw e (omega arith)
  | inr e ↦ rw e (omega arith)
]
digit_len_from-above (suc k) (suc fuel) n h p =
    let ih = digit_len_from-above k fuel (n / 10) (omega arith) (omega arith) in
    elim (Bool-cases (n / 10 == 0)) [
      | inl e ↦ absurd (let pos = ten_to-pos k in ground arith)
      | inr e ↦ rw e (omega arith)
    ]
  where
    ten_to-pos : (k : ℕ) → 0 < ten_to k
    ten_to-pos zero = omega arith
    ten_to-pos (suc k) = let ih = ten_to-pos k in omega arith

-- The digits of a negative `char` are counted as those of a large `size_t`.
get_digit_len-negative : (c : ℕ) → 128 ≤ c → c < 256 → 4 < get_digit_len (char_as_size c) 10
unfolding get_digit_len char_as_size ten_to
get_digit_len-negative c h k =
    let t : ltb c 128 ≡ false = ground arith in
    rw t (
      digit_len_from-above 4 (suc (2 ^ 64 - (256 - c))) (2 ^ 64 - (256 - c)) (omega arith)
        (omega arith))

three_digits : passes_from 0 129 (λ n. leb (length (decimal n)) 3) ≡ true
unfolding passes_from decimal
three_digits = refl

length-char_digits : (c : ℕ) → 128 ≤ c → c < 256 → length (char_digits c) ≤ 4
unfolding char_digits
length-char_digits c h k =
    let t : ltb c 128 ≡ false = ground arith in
    let few =
      table_lem 129 (λ n. leb (length (decimal n)) 3) (256 - c) three_digits (omega arith) in
    rw t (short (length (decimal (256 - c))) few)
  where
    short : (n : ℕ) → leb n 3 ≡ true → suc n ≤ 4
    short n e = ground arith

-- A minor version of 128 or more, which a `char` holds as a negative number, makes the buffer longer
-- than what is written to it: bytes that were never written are sent behind the response. The major
-- version is below 128, and no header has a NUL.
pub send_response-short :
    (major minor : ℕ) (close : Bool) (status : ℕ) (headers : Option HeaderMap) (body : Option Bytes)
    (flag : SendMode)
    → major < 128
    → 128 ≤ minor
    → minor < 256
    → ArePlain (or_none headers)
    → (r : Response) × (send_response major minor close status headers body flag ≡ some r)
      × (length r.data_ < r.data_len)
unfolding send_response response_size
send_response-short major minor close status headers body flag hi low lo fine =
    let line = status_words status in
    let (plain, is_line) = status_words_lem status in
    let hs = or_none headers in
    let content = body_bytes body in
    let size = response_size line major minor hs content in
    let first = status_text line major minor in
    let text = ((first ++ header_lines hs) ++ crlf) ++ content in
    let few = length-char_digits minor low lo in
    let many = get_digit_len-negative minor low lo in
    let major_digits : length (char_digits major) ≡ get_digit_len (char_as_size major) 10 =
      ap length (char_lem major hi).0
      ∙ length-decimal major
      ∙ ap (λ c. get_digit_len c 10) (sym (char_lem major hi).1) in
    let words = ap length (until_nul-IsPlain line plain) in
    let first_len =
      length-append (char_digits major)
        (b'.' ∷ (char_digits minor ++ (b' ' ∷ (until_nul line ++ crlf)))) in
    let minor_len = length-append (char_digits minor) (b' ' ∷ (until_nul line ++ crlf)) in
    let line_len = length-append (until_nul line) crlf in
    let lines = length-append first (header_lines hs) in
    let all_lines = length-header_lines hs in
    let head = length-append (first ++ header_lines hs) crlf in
    let whole = length-append ((first ++ header_lines hs) ++ crlf) content in
    let fits : length first + headers_size hs + 2 + length content < size = omega arith in
    (
      record {
        data_ = text;
        data_len = size;
        close_bit = is_closed_after flag close;
        is_sent = is_sent_at_once flag;
      },
      rw (
        send_response,
        is_line,
        write_response-fits size line major minor hs content fine (omega arith),
      ),
      omega arith,
    )
