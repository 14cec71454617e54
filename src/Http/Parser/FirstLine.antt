-- ===== src/Http/Parser/FirstLine.antt =====
-- `http_parser::parse_first_line` of core/http.cpp: one state machine reads the first line of a
-- request and of a response.
pub mod Resume
pub mod Request
use https_proxy_server.Base.{
  ℕ, ◌+◌, ◌-◌, ◌*◌, ◌%◌, ◌^◌, Bool, true, false, ◌&&◌, List, [], ◌∷◌, none, ◌==◌, if◌then◌else◌,
  drop, Bytes, codes,
}
use https_proxy_server.Http.Parser.Types.{
  MessageType, request, response, ParseState, start, check, space_before_uri, uri, http_version_h,
  http_version_t_1, http_version_t_2, http_version_p, http_version_slash, http_version_major,
  http_version_minor, status_code, status_text, almost_done, ParseResult, failed, finished,
  unfinished, HttpHeader, HttpParser, is_token, is_ctl, is_digit,
}

-- `HTTP_GET` and so on
abbrev pub http_get : ℕ
http_get = 0x0001

abbrev pub http_head : ℕ
http_head = 0x0002

abbrev pub http_post : ℕ
http_post = 0x0004

abbrev pub http_put : ℕ
http_put = 0x0008

abbrev pub http_delete : ℕ
http_delete = 0x0010

abbrev pub http_options : ℕ
http_options = 0x0100

abbrev pub http_patch : ℕ
http_patch = 0x2000

abbrev pub http_trace : ℕ
http_trace = 0x4000

abbrev pub http_connect : ℕ
http_connect = 0x8000

-- What a byte does: the loop goes on, or the function returns -1 or 0.
pub data FirstLineOutcome : Type 0 where
  continue : HttpParser → FirstLineOutcome
  fail finish : HttpParser → FirstLineOutcome

-- `0 == strncmp(text, word, strlen(word))`
abbrev pub starts_with : Bytes → Bytes → Bool
starts_with text [] = true
starts_with [] (w ∷ word) = false
starts_with (t ∷ text) (w ∷ word) = t == w && starts_with text word

abbrev pub to_state : ParseState → HttpParser → HttpParser
to_state s parser = record parser { state = s }

-- `hdr_.request.verb = verb; state_ = space_before_uri`
abbrev pub to_verb : ℕ → HttpParser → HttpParser
to_verb verb parser = record parser {
  state = space_before_uri;
  hdr = record parser.hdr { verb_or_code = verb };
}

-- The switch over `p - line_beg_`, for the word that starts at `line_beg_`.
unfoldable pub check_word : ℕ → Bytes → HttpParser → HttpParser
check_word n word parser =
    if n == 2
    then if starts_with word (codes "GET")
      then to_verb http_get parser
      else if starts_with word (codes "PUT")
      then to_verb http_put parser
      else parser
    else if n == 3
    then if starts_with word (codes "HEAD")
      then to_verb http_head parser
      else if starts_with word (codes "POST")
      then to_verb http_post parser
      else if starts_with word (codes "HTTP")
      then record parser { state = http_version_slash; hdr = record parser.hdr { type = response } }
      else parser
    else if n == 4
    then if starts_with word (codes "TRACE")
      then to_verb http_trace parser
      else if starts_with word (codes "PATCH")
      then to_verb http_patch parser
      else parser
    else if n == 5
    then if starts_with word (codes "DELETE") then to_verb http_delete parser else parser
    else if n == 6
    then if starts_with word (codes "OPTIONS")
      then to_verb http_options parser
      else if starts_with word (codes "CONNECT")
      then to_verb http_connect parser
      else parser
    else parser

-- `if (x != c) return -1; state_ = s;`
abbrev pub expect : ℕ → ℕ → ParseState → HttpParser → FirstLineOutcome
expect x c s parser = if c == x then continue (to_state s parser) else fail parser

-- `n * 10 + c - '0'`, kept in a word of the given size.
abbrev pub add_digit : ℕ → ℕ → ℕ → ℕ
add_digit size n c = (n * 10 + (c - b'0')) % size

-- A `char` and an `int`.
abbrev pub char_size : ℕ
char_size = 256

abbrev pub int_size : ℕ
int_size = 2 ^ 32

-- The body of the loop for the byte `c` at offset `p`, once `off_` has moved past it.
unfoldable pub first_line_in : ParseState → ℕ → ℕ → Bytes → HttpParser → FirstLineOutcome
unfolding check_word
first_line_in start p c text parser =
    if is_token c
    then continue
        (record parser { state = check; hdr = record parser.hdr { type = request }; line_beg = p })
    else fail parser
first_line_in check p c text parser =
    if c == b' '
    then fail parser
    else continue (check_word (p - parser.line_beg) (drop parser.line_beg text) parser)
first_line_in space_before_uri p c text parser =
    if c == b' '
    then continue (record parser { state = uri; hdr = record parser.hdr { uri_or_text = p + 1 } })
    else fail parser
first_line_in uri p c text parser =
    if is_ctl c
    then fail parser
    else if c == b' '
    then continue (record parser {
      state = http_version_h;
      hdr = record parser.hdr { len = p - parser.hdr.uri_or_text };
    })
    else continue parser
first_line_in http_version_h p c text parser = expect b'H' c http_version_t_1 parser
first_line_in http_version_t_1 p c text parser = expect b'T' c http_version_t_2 parser
first_line_in http_version_t_2 p c text parser = expect b'T' c http_version_p parser
first_line_in http_version_p p c text parser = expect b'P' c http_version_slash parser
first_line_in http_version_slash p c text parser =
    if c == b'/'
    then continue
        (record parser { state = http_version_major; hdr = record parser.hdr { major = 0 } })
    else fail parser
first_line_in http_version_major p c text parser =
    if is_digit c
    then continue (record parser {
      hdr = record parser.hdr { major = add_digit char_size parser.hdr.major c };
    })
    else if c == b'.'
    then continue
        (record parser { state = http_version_minor; hdr = record parser.hdr { minor = 0 } })
    else fail parser
first_line_in http_version_minor p c text parser =
    if is_digit c
    then continue (record parser {
      hdr = record parser.hdr { minor = add_digit char_size parser.hdr.minor c };
    })
    else if c == 13
    then continue (to_state almost_done parser)
    else if c == b' '
    then continue
        (record parser { state = status_code; hdr = record parser.hdr { verb_or_code = 0 } })
    else fail parser
first_line_in status_code p c text parser =
    if is_digit c
    then continue (record parser {
      hdr = record parser.hdr { verb_or_code = add_digit int_size parser.hdr.verb_or_code c };
    })
    else if c == b' '
    then continue
        (record parser { state = status_text; hdr = record parser.hdr { uri_or_text = p + 1 } })
    else fail parser
first_line_in status_text p c text parser =
    if c == 13
    then continue (record parser {
      state = almost_done;
      hdr = record parser.hdr { len = p - parser.hdr.uri_or_text };
    })
    else if is_ctl c
    then fail parser
    else continue parser
first_line_in almost_done p c text parser =
    if c == 10 then finish (record parser { state = start; line_end = p + 1 }) else fail parser
first_line_in _ p c text parser = continue parser

-- `p` is always `data + off_`, since both move on by one for each byte.
unfoldable pub first_line_step : ℕ → Bytes → HttpParser → FirstLineOutcome
unfolding first_line_in
first_line_step c text parser =
    first_line_in parser.state parser.off c text (record parser { off = parser.off + 1 })

unfoldable pub first_line_loop : Bytes → Bytes → HttpParser → ParseResult × HttpParser
unfolding first_line_step
first_line_loop [] text parser = (unfinished, parser)
first_line_loop (c ∷ cs) text parser = elim (first_line_step c text parser) [
  | continue parser' ↦ first_line_loop cs text parser'
  | fail parser' ↦ (failed, parser')
  | finish parser' ↦ (finished, parser')
]

unfoldable pub parse_first_line : Bytes → HttpParser → ParseResult × HttpParser
unfolding first_line_loop
parse_first_line text parser = first_line_loop (drop parser.off text) text parser
