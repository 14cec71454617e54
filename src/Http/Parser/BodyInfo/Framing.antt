-- ===== src/Http/Parser/BodyInfo/Framing.antt =====
-- What the answer of `get_body_info` says of the header.
use https_proxy_server.Base.{
  ℕ, Bool, true, false, ◌&&◌, ◌≡◌, ◌⊎◌, inl, inr, refl, arith, none, some, if◌then◌else◌, codes,
  Bytes, Option-cases, Bool-cases,
}
use https_proxy_server.Cstring.{strtoul}
use https_proxy_server.Http.Parser.Types.{
  request, response, find, HttpHeader, HeaderMap, MessageType,
}
use https_proxy_server.Http.Parser.BodyInfo.{
  BodyType, no_body, content, chunk_size, chunk_data, BodyInfo, is_value, body_type_of, is_no_body,
  wants_body, check_expectation, check_request, only_request, get_body_info, http_bad_request,
  http_expectation_failed,
}

abbrev pub is_chunked : HeaderMap → Bool
is_chunked headers = is_value (codes "chunked") (find (codes "Transfer-Encoding") headers)

-- What the header fields say of a body of each type.
abbrev pub Framed : HeaderMap → BodyType → ℕ → Type 0
Framed headers no_body len =
    (is_chunked headers ≡ false) × (find (codes "Content-Length") headers ≡ none)
Framed headers content len =
    (value : Bytes) × (is_chunked headers ≡ false)
    × (find (codes "Content-Length") headers ≡ some value)
    × (strtoul value 10 ≡ some len)
Framed headers chunk_size len = is_chunked headers ≡ true
Framed headers chunk_data len = ⊥

body_type_of-Framed :
    (headers : HeaderMap) (type : BodyType) (len error : ℕ)
    → let info =
        body_type_of headers (record { ok = true; type = type; len = len; error = error }) in
      info.ok ≡ true → Framed headers info.type info.len
unfolding body_type_of
body_type_of-Framed headers type len error = elim (Bool-cases (is_chunked headers)) [
  | inl c ↦ rw c (λ h. c)
  | inr c ↦ rw c (elim (Option-cases (find (codes "Content-Length") headers)) [
    | inl f ↦ rw f (λ h. (c, f))
    | inr (value, f) ↦ rw f (elim (Option-cases (strtoul value 10)) [
      | inl n ↦ rw n (λ h. cc)
      | inr (k, n) ↦ rw n (λ h. (value, c, f, n))
    ])
  ])
]

body_type_of-error :
    (headers : HeaderMap) (type : BodyType) (len error : ℕ)
    → let info =
        body_type_of headers (record { ok = true; type = type; len = len; error = error }) in
      info.ok ≡ false → info.error ≡ http_bad_request
unfolding body_type_of
body_type_of-error headers type len error = elim (Bool-cases (is_chunked headers)) [
  | inl c ↦ rw c (λ h. cc)
  | inr c ↦ rw c (elim (Option-cases (find (codes "Content-Length") headers)) [
    | inl f ↦ rw f (λ h. cc)
    | inr (value, f) ↦ rw f (elim (Option-cases (strtoul value 10)) [
      | inl n ↦ rw n (λ h. refl)
      | inr (k, n) ↦ rw n (λ h. cc)
    ])
  ])
]

-- The checks of a request change neither the type nor the length, and refuse with 400 or 417.
record Checked (hdr : HttpHeader) (info checked : BodyInfo) : Type 0 where
  type_kept : checked.type ≡ info.type
  len_kept : checked.len ≡ info.len
  body_there : checked.ok ≡ true → wants_body hdr.verb_or_code ≡ true → is_no_body info.type ≡ false
  error_is :
      checked.ok ≡ false
      → (checked.error ≡ http_bad_request) ⊎ (checked.error ≡ http_expectation_failed)

check_expectation-Checked :
    (hdr : HttpHeader) (info : BodyInfo)
    → info.ok ≡ true
    → (wants_body hdr.verb_or_code && is_no_body info.type) ≡ false
    → Checked hdr info (check_expectation hdr info)
unfolding check_expectation
check_expectation-Checked hdr info h w = ground arith

check_request-Checked :
    (hdr : HttpHeader) (info : BodyInfo)
    → info.ok ≡ true
    → Checked hdr info (check_request hdr info)
unfolding check_request
check_request-Checked hdr info h =
    elim (Bool-cases (wants_body hdr.verb_or_code && is_no_body info.type)) [
      | inl w ↦ rw w (record {
        type_kept = refl;
        len_kept = refl;
        body_there = λ x. cc;
        error_is = λ x. inl refl;
      })
      | inr w ↦ rw w (check_expectation-Checked hdr info h w)
    ]

-- What a caller of `get_body_info` may rely on.
pub record Reliable (hdr : HttpHeader) (info : BodyInfo) : Type 0 where
  pub framed : info.ok ≡ true → Framed hdr.headers info.type info.len
  pub body_there :
      info.ok ≡ true
      → hdr.type ≡ request
      → wants_body hdr.verb_or_code ≡ true
      → is_no_body info.type ≡ false
  pub error_is :
      info.ok ≡ false → (info.error ≡ http_bad_request) ⊎ (info.error ≡ http_expectation_failed)

Checked-Reliable :
    (hdr : HttpHeader) (info checked : BodyInfo)
    → info.ok ≡ true
    → Framed hdr.headers info.type info.len
    → Checked hdr info checked
    → Reliable hdr checked
Checked-Reliable hdr info checked h f c = record {
  framed = λ k. rw (c.type_kept, c.len_kept) f;
  body_there = λ k t w. rw (c.type_kept) (c.body_there k w);
  error_is = c.error_is;
}

of_type :
    (type : MessageType) (hdr : HttpHeader) (info : BodyInfo)
    → hdr.type ≡ type
    → info.ok ≡ true
    → Framed hdr.headers info.type info.len
    → Reliable hdr (only_request type hdr info)
of_type request hdr info t h f = Checked-Reliable hdr info _ h f (check_request-Checked hdr info h)
of_type response hdr info t h f = record {
  framed = λ k. f;
  body_there = λ k r w. ground arith;
  error_is = λ k. cc;
}

by_result :
    (hdr : HttpHeader) (info : BodyInfo) (b : Bool)
    → info.ok ≡ b
    → (info.ok ≡ true → Framed hdr.headers info.type info.len)
    → (info.ok ≡ false → info.error ≡ http_bad_request)
    → Reliable hdr (if b then only_request hdr.type hdr info else info)
by_result hdr info true e f r = of_type hdr.type hdr info refl e (f e)
by_result hdr info false e f r = record {
  framed = λ k. cc;
  body_there = λ k. cc;
  error_is = λ k. inl (r e);
}

-- If the call succeeds, the type and the length are those that the header fields say: chunked
-- before a length, a length as `strtoul` reads it, and no body only where neither field is there;
-- and a POST, PUT or PATCH request has a body. If it fails, the error is 400 or 417.
pub get_body_info-Reliable :
    (hdr : HttpHeader) (type : BodyType) (len error : ℕ)
    → Reliable hdr (get_body_info hdr type len error)
unfolding get_body_info
get_body_info-Reliable hdr type len error =
    by_result hdr _ _ refl (body_type_of-Framed hdr.headers type len error)
      (body_type_of-error hdr.headers type len error)
