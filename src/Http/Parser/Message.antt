-- ===== src/Http/Parser/Message.antt =====
-- A whole header, first line and header lines, is read back.
use https_proxy_server.Base.{
  ℕ, ◌+◌, ◌-◌, true, ◌≡◌, refl, sym, ap, ◌∙◌, arith, [], ◌∷◌, ◌++◌, append_assoc, length,
  length-append, drop, drop-append, take-append, all, none, Bytes, codes,
}
use https_proxy_server.Http.Parser.Types.{
  finished, HeaderMap, HttpHeader, HttpParser, reset, is_digit, slice, find, request,
}
use https_proxy_server.Http.Parser.FirstLine.{char_size}
use https_proxy_server.Http.Parser.FirstLine.Request.{
  Verb, get, verb_text, verb_code, is_uri_byte, number_from, request_line, parsed_request,
  parse_first_line-request_line,
}
use https_proxy_server.Http.Parser.HeaderLine.{
  header_line_loop, parse_header_line, parse_header, then_header_line,
}
use https_proxy_server.Http.Parser.HeaderLine.RoundTrip.{print_headers, is_header, headers_phase}
use https_proxy_server.Http.Parser.HeaderMap.{find-insert_all}

request_line-append :
    (verb : Verb) (target major minor rest : Bytes)
    → request_line verb target major minor rest ≡ request_line verb target major minor [] ++ rest
request_line-append verb target major minor rest = simp append_assoc

-- What the parser knows of a request once its header is read, the offsets being those of `text`.
pub record IsRequest (text : Bytes) (verb : Verb) (target major minor : Bytes) (lines : HeaderMap)
    (total : ℕ) (parser : HttpParser) : Type 0 where
  pub type_is : parser.hdr.type ≡ request
  pub verb_is : parser.hdr.verb_or_code ≡ verb_code verb
  pub target_is :
      slice text parser.hdr.uri_or_text (parser.hdr.uri_or_text + parser.hdr.len) ≡ target
  pub major_is : parser.hdr.major ≡ number_from char_size 0 major
  pub minor_is : parser.hdr.minor ≡ number_from char_size 0 minor
  pub headers_are : (name : Bytes) → find name parser.hdr.headers ≡ find name lines
  pub len_is : parser.hdr_len ≡ total

add-sub_self : (m n : ℕ) → m + n - m ≡ n
add-sub_self m n = omega arith

target_slice :
    (verb : Verb) (target rest : Bytes)
    → slice
        (verb_text verb ++ (b' ' ∷ target ++ rest))
        (length (verb_text verb) + 1)
        (length (verb_text verb) + 1 + length target)
      ≡ target
unfolding slice
target_slice get target rest = rw (add-sub_self 4 (length target)) (take-append target rest)
target_slice verb target rest =
    rw (add-sub_self (length (verb_text verb) + 1) (length target)) (take-append target rest)

-- `parse_header` reads a request with any method it knows, any target with no space and no control
-- byte, and any header lines of the form `name: value`. It is given all of the text, and may be
-- given bytes behind it.
pub parse_header-IsRequest :
    (verb : Verb) (target major minor : Bytes) (lines : HeaderMap) (rest : Bytes)
    (parser : HttpParser)
    → all is_uri_byte target ≡ true
    → all is_digit major ≡ true
    → all is_digit minor ≡ true
    → all is_header lines ≡ true
    → let text = request_line verb target major minor (print_headers lines rest) in
      (parser' : HttpParser) × (parse_header text (reset parser) ≡ (finished, parser'))
      × IsRequest text verb target major minor lines
          (length (request_line verb target major minor (print_headers lines [])))
          parser'
unfolding parse_header parse_header_line reset find
parse_header-IsRequest verb target major minor lines rest parser ht hma hmi hl =
    let tail = print_headers lines rest in
    let text = request_line verb target major minor tail in
    let line = request_line verb target major minor [] in
    let first = parsed_request verb target major minor (reset parser) in
    let here : drop (length line) text ≡ tail =
      rw (request_line-append verb target major minor tail) (drop-append line tail) in
    let (parser', e, hdr, hl, off, st) =
      headers_phase lines rest text first (length line) parser.name_end none [] [] refl hl here in
    (
      parser',
      ap (then_header_line text)
            (parse_first_line-request_line verb target major minor tail parser ht hma hmi)
          ∙ ap (λ d. header_line_loop d text first []) here
          ∙ e,
      record {
        type_is = ap (λ h. h.type) hdr;
        verb_is = ap (λ h. h.verb_or_code) hdr;
        target_is =
            ap (λ (h : HttpHeader). slice text h.uri_or_text (h.uri_or_text + h.len)) hdr
            ∙ target_slice verb target
                (codes " HTTP/" ++ (major ++ (b'.' ∷ minor ++ (13 ∷ 10 ∷ tail))));
        major_is = ap (λ h. h.major) hdr;
        minor_is = ap (λ h. h.minor) hdr;
        headers_are = λ name.
            ap (λ (h : HttpHeader). find name h.headers) hdr ∙ find-insert_all name lines [];
        len_is =
            hl
            ∙ sym (
                ap length (request_line-append verb target major minor (print_headers lines []))
                ∙ length-append line (print_headers lines []));
      },
    )
