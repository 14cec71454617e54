-- ===== src/Http/Response/Filled.antt =====
-- The size that `send_response` computes is the size of what it writes.
use https_proxy_server.Base.{
  ℕ, ◌+◌, ◌<◌, ◌≤◌, Bool, true, false, not, ◌≡◌, refl, sym, ap, ◌∙◌, arith, Option, some, [], ◌∷◌,
  ◌++◌, ltb, ◌==◌, length, all, Bytes, codes, length-append, append_assoc, Bool-cases, inl, inr,
  passes_from, table_lem,
}
use https_proxy_server.Cstring.{decimal}
use https_proxy_server.Http.Status.{StatusLine, null, fault, text, http_get_status_line}
use https_proxy_server.Http.Parser.Types.{HeaderMap}
use https_proxy_server.Http.Response.{
  get_digit_len, char_as_size, char_digits, SendMode, nosend, send_close, send_keepalive, Response,
  crlf, headers_size, or_none, body_bytes, status_text, response_size, write_response,
  line_or_unknown, is_closed_after, is_sent_at_once, send_response,
}
use https_proxy_server.Http.Response.Pieces.{
  write_response-fits, IsPlain, ArePlain, until_nul-IsPlain, length-decimal, header_lines,
  length-header_lines,
}

-- The words of a status line, as `send_response` chooses them.
abbrev words_of : StatusLine → Bytes
words_of null = codes "unknow"
words_of fault = []
words_of (text line) = line

abbrev pub status_words : ℕ → Bytes
status_words status = words_of (http_get_status_line status)

is_plain_line : StatusLine → Bool
is_plain_line null = true
is_plain_line fault = false
is_plain_line (text line) = all (λ c. not (c == 0)) line

lines_table : passes_from 0 600 (λ s. is_plain_line (http_get_status_line s)) ≡ true
unfolding passes_from is_plain_line http_get_status_line
lines_table = refl

lines_beyond : (status : ℕ) → 600 ≤ status → is_plain_line (http_get_status_line status) ≡ true
unfolding is_plain_line http_get_status_line
lines_beyond status h = ground arith

words-IsPlain :
    (line : StatusLine)
    → is_plain_line line ≡ true
    → IsPlain (words_of line) × (line_or_unknown line ≡ some (words_of line))
unfolding is_plain_line
words-IsPlain null h = (refl, refl)
words-IsPlain fault h = cc
words-IsPlain (text line) h = (h, refl)

pub status_words_lem :
    (status : ℕ)
    → IsPlain (status_words status)
      × (line_or_unknown (http_get_status_line status) ≡ some (status_words status))
status_words_lem status =
    words-IsPlain (http_get_status_line status) (elim (Bool-cases (ltb status 600)) [
      | inl small ↦
          table_lem 600 (λ s. is_plain_line (http_get_status_line s)) status lines_table
            (ground arith)
      | inr large ↦ lines_beyond status (ground arith)
    ])

-- The response as HTTP has it.
abbrev pub response_text : ℕ → Bytes → ℕ → HeaderMap → Bytes → Bytes
response_text major line minor headers body =
    codes "HTTP/"
    ++ (decimal major
        ++ (b'.'
            ∷ (decimal minor
                ++ (b' ' ∷ (line ++ (crlf ++ (header_lines headers ++ (crlf ++ body))))))))

pub char_lem : (c : ℕ) → c < 128 → (char_digits c ≡ decimal c) × (char_as_size c ≡ c)
unfolding char_digits char_as_size
char_lem c h = let t : ltb c 128 ≡ true = ground arith in (rw t, rw t)

-- The first line and the headers of a response with a version of two numbers below 128.
module _ (major minor : ℕ) (hi : major < 128) (lo : minor < 128) (line : Bytes)
    (plain : IsPlain line) where
  abbrev first_line : Bytes
  first_line =
      codes "HTTP/" ++ (decimal major ++ (b'.' ∷ (decimal minor ++ (b' ' ∷ (line ++ crlf)))))

  status_text_lem : status_text line major minor ≡ first_line
  status_text_lem = rw ((char_lem major hi).0, (char_lem minor lo).0, until_nul-IsPlain line plain)

  length-first_line :
      length first_line ≡ 9 + get_digit_len major 10 + get_digit_len minor 10 + length line
  length-first_line = omega (
    arith,
    length-append (decimal major) (b'.' ∷ (decimal minor ++ (b' ' ∷ (line ++ crlf)))),
    length-append (decimal minor) (b' ' ∷ (line ++ crlf)),
    length-append line crlf,
    length-decimal major,
    length-decimal minor,
  )

  module _ (headers : HeaderMap) (fine : ArePlain headers) (body : Bytes) where
    abbrev size : ℕ
    size = response_size line major minor headers body

    abbrev parts : Bytes
    parts = ((first_line ++ header_lines headers) ++ crlf) ++ body

    response_size_lem : size ≡ length first_line + headers_size headers + 2 + length body
    unfolding response_size
    response_size_lem =
        let a = (char_lem major hi).1 in
        let b = (char_lem minor lo).1 in
        let l = length-first_line in
        ap
          (λ c.
            5
            + (get_digit_len c 10 + get_digit_len (char_as_size minor) 10 + 2)
            + (length line + 2)
            + headers_size headers
            + 2
            + length body)
          a
        ∙ ap
            (λ c.
              5
              + (get_digit_len major 10 + get_digit_len c 10 + 2)
              + (length line + 2)
              + headers_size headers
              + 2
              + length body)
            b
        ∙ omega arith

    length-parts : length parts ≡ size
    length-parts = omega (
      arith,
      length-append ((first_line ++ header_lines headers) ++ crlf) body,
      length-append (first_line ++ header_lines headers) crlf,
      length-append first_line (header_lines headers),
      length-header_lines headers,
      response_size_lem,
    )

    write_response-parts : write_response size line major minor headers body ≡ some parts
    write_response-parts =
        let s = response_size_lem in
        let len = ap length status_text_lem in
        write_response-fits size line major minor headers body fine (omega arith)
        ∙ ap (λ t. some (((t ++ header_lines headers) ++ crlf) ++ body)) status_text_lem

    parts_lem : parts ≡ response_text major line minor headers body
    parts_lem =
        let rest = header_lines headers ++ (crlf ++ body) in
        append_assoc (first_line ++ header_lines headers) crlf body
        ∙ append_assoc first_line (header_lines headers) (crlf ++ body)
        ∙ ap (λ t. codes "HTTP/" ++ t)
            (append_assoc (decimal major) (b'.' ∷ (decimal minor ++ (b' ' ∷ (line ++ crlf)))) rest
              ∙ ap (λ t. decimal major ++ (b'.' ∷ t))
                  (append_assoc (decimal minor) (b' ' ∷ (line ++ crlf)) rest
                    ∙ ap (λ t. decimal minor ++ (b' ' ∷ t)) (append_assoc line crlf rest)))

-- A whole response: its bytes, counted, with MASK_BIT_CLOSE and whether it is sent.
abbrev pub whole_response : Bytes → Bool → Bool → Response
whole_response data_ close_bit is_sent = record {
  data_ = data_;
  data_len = length data_;
  close_bit = close_bit;
  is_sent = is_sent;
}

pub send_response_lem :
    (major minor : ℕ) (close : Bool) (status : ℕ) (headers : Option HeaderMap) (body : Option Bytes)
    (flag : SendMode)
    → major < 128
    → minor < 128
    → ArePlain (or_none headers)
    → let data_ =
        response_text major (status_words status) minor (or_none headers) (body_bytes body) in
      send_response major minor close status headers body flag
      ≡ some (whole_response data_ (is_closed_after flag close) (is_sent_at_once flag))
unfolding send_response
send_response_lem major minor close status headers body flag hi lo fine =
    let line = status_words status in
    let (plain, is_line) = status_words_lem status in
    let hs = or_none headers in
    let content = body_bytes body in
    let text_is = parts_lem major minor hi lo line plain hs fine content in
    let size_is =
      ap length (sym text_is) ∙ length-parts major minor hi lo line plain hs fine content in
    rw (
      send_response,
      is_line,
      write_response-parts major minor hi lo line plain hs fine content,
      text_is,
      sym size_is,
    )

-- What a flag does to MASK_BIT_CLOSE, which was `close`, and whether it makes `async_send` called.
abbrev pub IsMarked : SendMode → Bool → Response → Type 0
IsMarked nosend close r = (r.close_bit ≡ close) × (r.is_sent ≡ false)
IsMarked send_close close r = (r.close_bit ≡ true) × (r.is_sent ≡ true)
IsMarked send_keepalive close r = (r.close_bit ≡ false) × (r.is_sent ≡ true)

marked :
    (flag : SendMode) (close : Bool) (data_ : Bytes)
    → IsMarked flag close (whole_response data_ (is_closed_after flag close) (is_sent_at_once flag))
marked nosend close data_ = (refl, refl)
marked send_close close data_ = (refl, refl)
marked send_keepalive close data_ = (refl, refl)

-- For every status, headers and body, with the two numbers of the version below 128 and no NUL in a
-- header, `send_response` writes the response as HTTP has it, never past the end of its buffer: the
-- `size` that it computes is exactly the number of bytes that it writes. MASK_BIT_CLOSE is set for
-- `send_close`, cleared for `send_keepalive` and left alone by `nosend`, which alone does not send.
pub send_response-IsFilled :
    (major minor : ℕ) (close : Bool) (status : ℕ) (headers : Option HeaderMap) (body : Option Bytes)
    (flag : SendMode)
    → major < 128
    → minor < 128
    → ArePlain (or_none headers)
    → (r : Response) × (send_response major minor close status headers body flag ≡ some r)
      × (r.data_
          ≡ response_text major (status_words status) minor (or_none headers) (body_bytes body))
      × (r.data_len ≡ length r.data_)
      × IsMarked flag close r
send_response-IsFilled major minor close status headers body flag hi lo fine = (
  _,
  send_response_lem major minor close status headers body flag hi lo fine,
  refl,
  refl,
  marked flag close _,
)
