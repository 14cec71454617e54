-- ===== src/Http/Response.antt =====
-- The writing half of `http_stream` in core/http.cpp: `send_response`,
-- and `get_digit_len` of base/util.cpp. A write past the end of a buffer, a failed assertion and a
-- read past the end of a table are `none`. NTI_PROXY_SRV, which the build defines, and the order in
-- which a hash map is read are parameters.
pub mod Pieces
pub mod Filled
pub mod Signed
pub mod Pages
pub mod Answers
use https_proxy_server.Base.{
  ℕ, zero, suc, ◌+◌, ◌-◌, ◌/◌, ◌^◌, Bool, true, false, Option, none, some, List, [], ◌∷◌, ◌++◌, ltb,
  leb, ◌==◌, if◌then◌else◌, length, Bytes, codes,
}
use https_proxy_server.Cstring.{until_nul, decimal}
use https_proxy_server.Http.Status.{StatusLine, null, fault, text, http_get_status_line}
use https_proxy_server.Http.Parser.Types.{HeaderMap, insert}

-- `get_digit_len`: a number has no more digits than its value plus one.
unfoldable pub digit_len_from : ℕ → ℕ → ℕ → ℕ
digit_len_from zero base digit = 0
digit_len_from (suc fuel) base digit =
    let rest = digit_len_from fuel base (digit / base) in if digit / base == 0 then 1 else suc rest

unfoldable pub get_digit_len : ℕ → ℕ → ℕ
unfolding digit_len_from
get_digit_len digit base = digit_len_from (suc digit) base digit

-- A `char`, which has a sign, as a `size_t`, and as `%d` prints it.
unfoldable pub char_as_size : ℕ → ℕ
char_as_size c = if ltb c 128 then c else 2 ^ 64 - (256 - c)

unfoldable pub char_digits : ℕ → Bytes
char_digits c = if ltb c 128 then decimal c else b'-' ∷ decimal (256 - c)

pub data SendMode : Type 0 where
  nosend send_close send_keepalive : SendMode

-- The buffer that is pushed on `out_queue_`: the bytes that have been written to it and its `dlen_`;
-- then MASK_BIT_CLOSE, and whether `async_send` is called.
pub record Response : Type 0 where
  pub data_ : Bytes
  pub data_len : ℕ
  pub close_bit : Bool
  pub is_sent : Bool

abbrev pub crlf : Bytes
crlf = 13 ∷ 10 ∷ []

-- A `sprintf`, which writes a NUL behind the text, and a `memcpy`, to the place behind `out` in a
-- buffer of `size` bytes.
unfoldable pub sprintf_to : ℕ → Bytes → Bytes → Option Bytes
sprintf_to size out line =
    if leb (length out + length line + 1) size then some (out ++ line) else none

unfoldable pub memcpy_to : ℕ → Bytes → Bytes → Option Bytes
memcpy_to size out bytes =
    if leb (length out + length bytes) size then some (out ++ bytes) else none

unfoldable pub headers_size : HeaderMap → ℕ
headers_size [] = 0
headers_size ((name, value) ∷ headers) = length name + length value + 4 + headers_size headers

abbrev pub header_line : Bytes → Bytes → Bytes
header_line name value = name ++ (codes ": " ++ (value ++ crlf))

unfoldable pub write_headers : ℕ → HeaderMap → Bytes → Option Bytes
unfolding sprintf_to until_nul
write_headers size [] out = some out
write_headers size ((name, value) ∷ headers) out =
    elim (sprintf_to size out (header_line (until_nul name) (until_nul value))) [
      | none ↦ none
      | some out' ↦ write_headers size headers out'
    ]

abbrev pub or_none : Option HeaderMap → HeaderMap
or_none none = []
or_none (some headers) = headers

abbrev pub body_bytes : Option Bytes → Bytes
body_bytes none = []
body_bytes (some body) = body

abbrev pub status_text : Bytes → ℕ → ℕ → Bytes
status_text line major minor =
    codes "HTTP/"
    ++ (char_digits major ++ (b'.' ∷ (char_digits minor ++ (b' ' ∷ (until_nul line ++ crlf)))))

-- `size`
unfoldable pub response_size : Bytes → ℕ → ℕ → HeaderMap → Bytes → ℕ
unfolding get_digit_len char_as_size headers_size
response_size line major minor headers body =
    5
    + (get_digit_len (char_as_size major) 10 + get_digit_len (char_as_size minor) 10 + 2)
    + (length line + 2)
    + headers_size headers
    + 2
    + length body

-- The writes to the buffer, one after another.
unfoldable pub write_response : ℕ → Bytes → ℕ → ℕ → HeaderMap → Bytes → Option Bytes
unfolding char_digits sprintf_to memcpy_to write_headers
write_response size line major minor headers body =
    elim (sprintf_to size [] (status_text line major minor)) [
      | none ↦ none
      | some first ↦ elim (write_headers size headers first) [
        | none ↦ none
        | some lines ↦ elim (memcpy_to size lines crlf) [
          | none ↦ none
          | some head ↦ memcpy_to size head body
        ]
      ]
    ]

abbrev pub line_or_unknown : StatusLine → Option Bytes
line_or_unknown null = some (codes "unknow")
line_or_unknown fault = none
line_or_unknown (text line) = some line

abbrev pub is_closed_after : SendMode → Bool → Bool
is_closed_after nosend close = close
is_closed_after send_close close = true
is_closed_after send_keepalive close = false

abbrev pub is_sent_at_once : SendMode → Bool
is_sent_at_once nosend = false
is_sent_at_once send_close = true
is_sent_at_once send_keepalive = true

-- `send_response`, with the version that the parser has read and the connection's MASK_BIT_CLOSE.
-- The pointers to the headers and to the body may be null.
unfoldable pub send_response :
    ℕ → ℕ → Bool → ℕ → Option HeaderMap → Option Bytes → SendMode → Option Response
unfolding response_size write_response
send_response major minor close status headers body flag =
    elim (line_or_unknown (http_get_status_line status)) [
      | none ↦ none
      | some line ↦
          let hs = or_none headers in
          let content = body_bytes body in
          let size = response_size line major minor hs content in
          elim (write_response size line major minor hs content) [
            | none ↦ none
            | some data_ ↦ some (record {
              data_ = data_;
              data_len = size;
              close_bit = is_closed_after flag close;
              is_sent = is_sent_at_once flag;
            })
          ]
    ]
