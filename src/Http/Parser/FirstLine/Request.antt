-- ===== src/Http/Parser/FirstLine/Request.antt =====
-- The first-line parser reads a request line back.
use https_proxy_server.Base.{
  ℕ, ◌+◌, ◌-◌, Bool, true, not, ◌&&◌, ◌≡◌, refl, ◌∙◌, arith, [], ◌∷◌, ◌++◌, ◌==◌, length,
  length-append, Bytes, codes, add-zero, all,
}
use https_proxy_server.Http.Parser.Types.{
  request, start, space_before_uri, uri, http_version_major, http_version_minor, finished,
  HttpParser, reset, is_token, is_ctl, is_digit,
}
use https_proxy_server.Http.Parser.FirstLine.{
  http_get, http_head, http_post, http_put, http_delete, http_options, http_patch, http_trace,
  http_connect, add_digit, char_size, first_line_loop, parse_first_line,
}

-- The methods that the parser knows.
pub data Verb : Type 0 where
  get head post put delete options patch trace connect : Verb

abbrev pub verb_text : Verb → Bytes
verb_text get = codes "GET"
verb_text head = codes "HEAD"
verb_text post = codes "POST"
verb_text put = codes "PUT"
verb_text delete = codes "DELETE"
verb_text options = codes "OPTIONS"
verb_text patch = codes "PATCH"
verb_text trace = codes "TRACE"
verb_text connect = codes "CONNECT"

abbrev pub verb_code : Verb → ℕ
verb_code get = http_get
verb_code head = http_head
verb_code post = http_post
verb_code put = http_put
verb_code delete = http_delete
verb_code options = http_options
verb_code patch = http_patch
verb_code trace = http_trace
verb_code connect = http_connect

abbrev pub is_uri_byte : ℕ → Bool
is_uri_byte c = not (is_ctl c) && not (c == b' ')

-- A run of digits read into a word of the given size.
abbrev pub number_from : ℕ → ℕ → Bytes → ℕ
number_from size n [] = n
number_from size n (d ∷ digits) = number_from size (add_digit size n d) digits

-- `GET /uri HTTP/1.1\r\n`, with the bytes that follow it.
abbrev pub request_line : Verb → Bytes → Bytes → Bytes → Bytes → Bytes
request_line verb target major minor rest =
    verb_text verb
    ++ (b' ' ∷ target ++ (codes " HTTP/" ++ (major ++ (b'.' ∷ minor ++ (13 ∷ 10 ∷ rest)))))

abbrev after_verb : Verb → HttpParser → HttpParser
after_verb verb parser = record parser {
  state = space_before_uri;
  line_beg = 0;
  off = length (verb_text verb);
  hdr = record parser.hdr { type = request; verb_or_code = verb_code verb };
}

verb_phase :
    (verb : Verb) (rest : Bytes) (parser : HttpParser)
    → first_line_loop (verb_text verb ++ rest) (verb_text verb ++ rest) (reset parser)
      ≡ first_line_loop rest (verb_text verb ++ rest) (after_verb verb (reset parser))
unfolding first_line_loop is_token reset
verb_phase get rest parser = refl
verb_phase head rest parser = refl
verb_phase post rest parser = refl
verb_phase put rest parser = refl
verb_phase delete rest parser = refl
verb_phase options rest parser = refl
verb_phase patch rest parser = refl
verb_phase trace rest parser = refl
verb_phase connect rest parser = refl

module _ (text : Bytes) (q : HttpParser) where
  uri_phase :
      (target rest : Bytes) (n : ℕ)
      → all is_uri_byte target ≡ true
      → first_line_loop (target ++ rest) text (record q { state = uri; off = n })
        ≡ first_line_loop rest text (record q { state = uri; off = n + length target })
  unfolding first_line_loop
  uri_phase [] rest n h = rw add-zero
  uri_phase (c ∷ target) rest n h = ground (arith, uri_phase target rest (n + 1))

  major_phase :
      (digits rest : Bytes) (n m : ℕ)
      → all is_digit digits ≡ true
      → first_line_loop
          (digits ++ rest)
          text
          (record q { state = http_version_major; off = n; hdr = record q.hdr { major = m } })
        ≡ first_line_loop rest text (record q {
          state = http_version_major;
          off = n + length digits;
          hdr = record q.hdr { major = number_from char_size m digits };
        })
  unfolding first_line_loop
  major_phase [] rest n m h = rw add-zero
  major_phase (d ∷ digits) rest n m h =
      ground (arith, major_phase digits rest (n + 1) (add_digit char_size m d))

  minor_phase :
      (digits rest : Bytes) (n m : ℕ)
      → all is_digit digits ≡ true
      → first_line_loop
          (digits ++ rest)
          text
          (record q { state = http_version_minor; off = n; hdr = record q.hdr { minor = m } })
        ≡ first_line_loop rest text (record q {
          state = http_version_minor;
          off = n + length digits;
          hdr = record q.hdr { minor = number_from char_size m digits };
        })
  unfolding first_line_loop
  minor_phase [] rest n m h = rw add-zero
  minor_phase (d ∷ digits) rest n m h =
      ground (arith, minor_phase digits rest (n + 1) (add_digit char_size m d))

-- The parser once the whole request line is read.
abbrev pub parsed_request : Verb → Bytes → Bytes → Bytes → HttpParser → HttpParser
parsed_request verb target major minor parser =
    let total = length (request_line verb target major minor []) in
    record parser {
      state = start;
      line_beg = 0;
      line_end = total;
      off = total;
      hdr = record parser.hdr {
        type = request;
        major = number_from char_size 0 major;
        minor = number_from char_size 0 minor;
        verb_or_code = verb_code verb;
        uri_or_text = length (verb_text verb) + 1;
        len = length target;
      };
    }

-- The first-line parser reads a request line with any method it knows, any target with no space
-- and no control byte and any digits for the version: it ends behind the line, with the method,
-- the place of the target and the version.
pub parse_first_line-request_line :
    (verb : Verb) (target major minor rest : Bytes) (parser : HttpParser)
    → all is_uri_byte target ≡ true
    → all is_digit major ≡ true
    → all is_digit minor ≡ true
    → parse_first_line (request_line verb target major minor rest) (reset parser)
      ≡ (finished, parsed_request verb target major minor (reset parser))
unfolding parse_first_line first_line_loop reset is_digit is_ctl
parse_first_line-request_line verb target major minor rest parser ht hma hmi =
    let text = request_line verb target major minor rest in
    let beg = length (verb_text verb) + 1 in
    let end = beg + length target in
    let q1 = record (after_verb verb (reset parser)) {
      hdr = record parser.hdr {
        type = request;
        verb_or_code = verb_code verb;
        uri_or_text = beg;
        headers = [];
      };
    } in
    let q2 = record q1 { hdr = record q1.hdr { len = end - beg } } in
    let digits = end + 1 + 1 + 1 + 1 + 1 + 1 in
    let q3 = record q2 { hdr = record q2.hdr { major = number_from char_size 0 major } } in
    verb_phase verb
      (b' ' ∷ target ++ (codes " HTTP/" ++ (major ++ (b'.' ∷ minor ++ (13 ∷ 10 ∷ rest))))) parser
    ∙ uri_phase text q1 target (codes " HTTP/" ++ (major ++ (b'.' ∷ minor ++ (13 ∷ 10 ∷ rest)))) beg
        ht
    ∙ major_phase text q2 major (b'.' ∷ minor ++ (13 ∷ 10 ∷ rest)) digits 0 hma
    ∙ minor_phase text q3 minor (13 ∷ 10 ∷ rest) (digits + length major + 1) 0 hmi
    ∙ ground (
      arith,
      length-append (verb_text verb)
          (b' ' ∷ target ++ (codes " HTTP/" ++ (major ++ (b'.' ∷ minor ++ (13 ∷ 10 ∷ []))))),
      length-append target (codes " HTTP/" ++ (major ++ (b'.' ∷ minor ++ (13 ∷ 10 ∷ [])))),
      length-append major (b'.' ∷ minor ++ (13 ∷ 10 ∷ [])),
      length-append minor (13 ∷ 10 ∷ []),
    )
