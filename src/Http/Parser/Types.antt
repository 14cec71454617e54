-- ===== src/Http/Parser/Types.antt =====
-- The parser's data: `http_header`, the members of `http_parser`, and its classes of bytes.
use https_proxy_server.Base.{
  ℕ, ◌-◌, Bool, true, false, ◌&&◌, ◌||◌, List, [], ◌∷◌, Option, none, some, leb, ltb, ◌==◌,
  if◌then◌else◌, take, drop, Bytes,
}

pub data MessageType : Type 0 where
  request response : MessageType

pub data ParseState : Type 0 where
  start check space_before_uri uri : ParseState
  http_version_h http_version_t_1 http_version_t_2 http_version_p : ParseState
  http_version_slash http_version_major http_version_minor : ParseState
  status_code status_text : ParseState
  header_lws header_name space_before_header_value header_value : ParseState
  almost_done header_almost_done : ParseState

-- The results -1, 0 and 1 of the parse functions.
pub data ParseResult : Type 0 where
  failed finished unfinished : ParseResult

-- `str_hash_map`: `insert` keeps the value of a name that is there, and names are compared byte by
-- byte.
abbrev pub HeaderMap : Type 0
HeaderMap = List (Bytes × Bytes)

abbrev pub bytes_eq : Bytes → Bytes → Bool
bytes_eq [] [] = true
bytes_eq [] (y ∷ ys) = false
bytes_eq (x ∷ xs) [] = false
bytes_eq (x ∷ xs) (y ∷ ys) = x == y && bytes_eq xs ys

unfoldable pub find : Bytes → HeaderMap → Option Bytes
find name [] = none
find name ((key, value) ∷ headers) = if bytes_eq key name then some value else find name headers

unfoldable pub insert : Bytes → Bytes → HeaderMap → HeaderMap
insert name value [] = (name, value) ∷ []
insert name value ((key, old) ∷ headers) =
    if bytes_eq key name then (key, old) ∷ headers else (key, old) ∷ insert name value headers

-- `http_header`. The two structs of its union lie over one another, so `request.verb` is
-- `response.code`, `request.uri` is `response.text`, and the lengths are one.
pub record HttpHeader : Type 0 where
  pub type : MessageType
  pub major : ℕ
  pub minor : ℕ
  pub verb_or_code : ℕ
  pub uri_or_text : ℕ
  pub len : ℕ
  pub headers : HeaderMap

pub record HttpParser : Type 0 where
  pub state : ParseState
  pub line_beg : ℕ
  pub line_end : ℕ
  pub name_beg : Option ℕ
  pub name_end : ℕ
  pub off : ℕ
  pub hdr : HttpHeader
  pub hdr_len : ℕ

-- `reset`
unfoldable pub reset : HttpParser → HttpParser
reset parser = record parser {
  off = 0;
  name_beg = none;
  state = start;
  hdr = record parser.hdr { headers = [] };
}

unfoldable pub is_char : ℕ → Bool
is_char c = ltb c 128

unfoldable pub is_ctl : ℕ → Bool
is_ctl c = leb c 31 || c == 127

unfoldable pub is_tspecial : ℕ → Bool
is_tspecial c =
    c == b'('
    || c == b')'
    || c == b'<'
    || c == b'>'
    || c == b'@'
    || c == b','
    || c == b';'
    || c == b':'
    || c == b'\\'
    || c == b'"'
    || c == b'/'
    || c == b'['
    || c == b']'
    || c == b'?'
    || c == b'='
    || c == b'{'
    || c == b'}'
    || c == b' '
    || c == 9

unfoldable pub is_digit : ℕ → Bool
is_digit c = leb b'0' c && leb c b'9'

-- The test that starts a line and a name, and that each byte of a name passes:
-- `is_char(c) && !is_ctl(c) && !is_tspecial(c)`.
unfoldable pub is_token : ℕ → Bool
unfolding is_char is_ctl is_tspecial
is_token c =
    if ltb c 128 then (if is_ctl c then false else if is_tspecial c then false else true) else false

-- The bytes from one offset up to another.
unfoldable pub slice : Bytes → ℕ → ℕ → Bytes
slice text beg end = take (end - beg) (drop beg text)
