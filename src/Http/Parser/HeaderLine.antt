-- ===== src/Http/Parser/HeaderLine.antt =====
-- `http_parser::parse_header_line` and `parse_header` of core/http.cpp and core/http.h.
pub mod RoundTrip
pub mod Trailer
use https_proxy_server.Base.{
  ℕ, ◌+◌, Bool, true, false, ◌||◌, ◌&&◌, not, List, [], ◌∷◌, ◌++◌, Option, none, some, ◌==◌,
  if◌then◌else◌, drop, Bytes,
}
use https_proxy_server.Http.Parser.Types.{
  ParseState, start, header_lws, header_name, space_before_header_value, header_value, almost_done,
  header_almost_done, ParseResult, failed, finished, unfinished, HttpHeader, HttpParser, is_token,
  is_ctl, slice, insert,
}
use https_proxy_server.Http.Parser.FirstLine.{parse_first_line, to_state}

-- What a byte does: the loop goes on with the local `value`, or the function returns -1 or 0.
pub data LineOutcome : Type 0 where
  continue : HttpParser → Bytes → LineOutcome
  fail finish : HttpParser → LineOutcome

-- `if(name_beg_) hdr_.headers.insert(make_pair(string_t(name_beg_,name_end_),value))`
unfoldable pub store_header : Bytes → Bytes → HttpParser → HttpParser
unfolding insert slice
store_header text value parser = elim parser.name_beg [
  | none ↦ parser
  | some beg ↦ record parser {
    hdr = record parser.hdr {
      headers = insert (slice text beg parser.name_end) value parser.hdr.headers;
    };
  }
]

abbrev pub is_some {ℓ} : {A : Type ℓ} → Option A → Bool
is_some none = false
is_some (some a) = true

-- The body of the loop for the byte `c` at offset `p`, once `off_` has moved past it.
unfoldable pub header_line_in : ParseState → ℕ → ℕ → Bytes → HttpParser → Bytes → LineOutcome
unfolding store_header
header_line_in start p c text parser value =
    if c == 13
    then continue (to_state header_almost_done parser) value
    else if is_some parser.name_beg && (c == b' ' || c == 9)
    then continue (to_state header_lws parser) value
    else if is_token c
    then continue
        (record (store_header text value parser) { name_beg = some p; state = header_name })
        (if is_some parser.name_beg then [] else value)
    else fail parser
header_line_in header_lws p c text parser value =
    if c == 13
    then continue (to_state almost_done parser) value
    else if c == b' ' || c == 9
    then continue parser value
    else if is_ctl c
    then fail parser
    else continue (to_state header_value parser) (value ++ c ∷ [])
header_line_in header_name p c text parser value =
    if c == b':'
    then continue (record parser { state = space_before_header_value; name_end = p }) value
    else if is_token c
    then continue parser value
    else fail parser
header_line_in space_before_header_value p c text parser value =
    if c == b' ' then continue (to_state header_value parser) value else fail parser
header_line_in header_value p c text parser value =
    if c == 13
    then continue (to_state almost_done parser) value
    else if is_ctl c && (not (c == b' ') || not (c == 9))
    then fail parser
    else continue parser (value ++ c ∷ [])
header_line_in almost_done p c text parser value =
    if c == 10 then continue (to_state start parser) value else fail parser
header_line_in header_almost_done p c text parser value =
    if c == 10
    then finish (record (store_header text value parser) { hdr_len = parser.off })
    else fail parser
header_line_in _ p c text parser value = continue parser value

unfoldable pub header_line_step : ℕ → Bytes → HttpParser → Bytes → LineOutcome
unfolding header_line_in
header_line_step c text parser value =
    header_line_in parser.state parser.off c text (record parser { off = parser.off + 1 }) value

unfoldable pub header_line_loop : Bytes → Bytes → HttpParser → Bytes → ParseResult × HttpParser
unfolding header_line_step
header_line_loop [] text parser value = (unfinished, parser)
header_line_loop (c ∷ cs) text parser value = elim (header_line_step c text parser value) [
  | continue parser' value' ↦ header_line_loop cs text parser' value'
  | fail parser' ↦ (failed, parser')
  | finish parser' ↦ (finished, parser')
]

unfoldable pub parse_header_line : Bytes → HttpParser → ParseResult × HttpParser
unfolding header_line_loop
parse_header_line text parser = header_line_loop (drop parser.off text) text parser []

-- `parse_trailer` is `parse_header_line`, with the members as the header left them. `name_beg_` then
-- points into the header's buffer, which has been handed on, and `name_end_` too: of a trailer that is
-- longer than the header was, the code takes a last name from there where `store_header` takes the bytes
-- of the trailer at the same place. Nothing reads that name: `reset` clears the headers before the
-- next message.
unfoldable pub parse_trailer : Bytes → HttpParser → ParseResult × HttpParser
unfolding parse_header_line
parse_trailer text parser = parse_header_line text parser

-- `if(0==ret) ret = parse_header_line(data,len)`
abbrev pub then_header_line : Bytes → ParseResult × HttpParser → ParseResult × HttpParser
then_header_line text (finished, parser) = parse_header_line text parser
then_header_line text (failed, parser) = (failed, parser)
then_header_line text (unfinished, parser) = (unfinished, parser)

unfoldable pub parse_header : Bytes → HttpParser → ParseResult × HttpParser
unfolding parse_first_line parse_header_line
parse_header text parser = then_header_line text (parse_first_line text parser)
