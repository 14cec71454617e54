-- ===== src/Http/Parser/BodyInfo.antt =====
-- `http_parser::get_body_info` of core/http.cpp: how the body behind a header is delimited.
pub mod Framing
use https_proxy_server.Base.{
  ℕ, Bool, true, false, not, ◌&&◌, ◌||◌, Option, none, some, ltb, ◌==◌, if◌then◌else◌, codes, Bytes,
}
use https_proxy_server.Cstring.{same_text, strtoul}
use https_proxy_server.Http.Parser.Types.{
  MessageType, request, response, find, HttpHeader, HeaderMap,
}
use https_proxy_server.Http.Parser.FirstLine.{http_post, http_put, http_patch}

-- `HTTP_BODY_NONE`, `HTTP_BODY_CONTENT`, `HTTP_BODY_CHUNK_SIZE` and `HTTP_BODY_CHUNK_DATA`.
pub data BodyType : Type 0 where
  no_body content chunk_size chunk_data : BodyType

abbrev pub http_bad_request : ℕ
http_bad_request = 400

abbrev pub http_continue : ℕ
http_continue = 100

abbrev pub http_expectation_failed : ℕ
http_expectation_failed = 417

-- The result, and the three out parameters as the function leaves them.
pub record BodyInfo : Type 0 where
  pub ok : Bool
  pub type : BodyType
  pub len : ℕ
  pub error : ℕ

-- Is the value there, and equal to the text but for case?
unfoldable pub is_value : Bytes → Option Bytes → Bool
is_value text none = false
is_value text (some value) = same_text value text

-- The first part: the type and the length by the header fields.
unfoldable pub body_type_of : HeaderMap → BodyInfo → BodyInfo
unfolding is_value
body_type_of headers info =
    if is_value (codes "chunked") (find (codes "Transfer-Encoding") headers)
    then record info { type = chunk_size }
    else elim (find (codes "Content-Length") headers) [
      | none ↦ record info { type = no_body }
      | some value ↦ elim (strtoul value 10) [
        | none ↦ record info { ok = false; error = http_bad_request }
        | some n ↦ record info { type = content; len = n }
      ]
    ]

abbrev pub is_no_body : BodyType → Bool
is_no_body no_body = true
is_no_body _ = false

-- The methods that must have a body.
abbrev pub wants_body : ℕ → Bool
wants_body verb = verb == http_post || (verb == http_put || verb == http_patch)

-- `hdr_.major>1||(hdr_.major==1&&hdr_.minor==1)`, the fields being signed.
abbrev pub is_from_1_1 : HttpHeader → Bool
is_from_1_1 hdr = (ltb 1 hdr.major && ltb hdr.major 128) || (hdr.major == 1 && hdr.minor == 1)

unfoldable pub check_expectation : HttpHeader → BodyInfo → BodyInfo
check_expectation hdr info =
    if is_from_1_1 hdr
    then elim (find (codes "Except") hdr.headers) [
      | none ↦ info
      | some value ↦
          if same_text value (codes "100-Continue")
          then record info { error = http_continue }
          else record info { ok = false; error = http_expectation_failed }
    ]
    else info

-- The second part, for a request.
unfoldable pub check_request : HttpHeader → BodyInfo → BodyInfo
unfolding check_expectation
check_request hdr info =
    if wants_body hdr.verb_or_code && is_no_body info.type
    then record info { ok = false; error = http_bad_request }
    else check_expectation hdr info

abbrev pub only_request : MessageType → HttpHeader → BodyInfo → BodyInfo
only_request request hdr info = check_request hdr info
only_request response hdr info = info

unfoldable pub get_body_info : HttpHeader → BodyType → ℕ → ℕ → BodyInfo
get_body_info hdr type len error =
    let info =
      body_type_of hdr.headers (record { ok = true; type = type; len = len; error = error }) in
    if info.ok then only_request hdr.type hdr info else info
