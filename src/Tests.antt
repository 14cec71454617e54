-- ===== src/Tests.antt =====
-- The theorems at concrete inputs: texts, requests and buffers as the server meets them.
mod Stream
mod Connection
mod Tables
mod Worker
mod Response
mod Relay
mod BasicPool
mod IoExt
mod Partner
use https_proxy_server.Base.{
  ℕ, ◌<◌, ◌≤◌, ◌≡◌, Bool, true, false, refl, arith, List, [], ◌∷◌, ◌++◌, Option, none, some, length,
  Bytes, codes,
}
use https_proxy_server.Cstring.{strtoul, decimal}
use https_proxy_server.Cstring.Numbers.{strtoul-decimal}
use https_proxy_server.Uri.{
  DecodePlus, null, negative, positive, encode_uri, decode_uri, decode_in_place, is_escape,
  is_xdigit,
}
use https_proxy_server.Uri.Spec.{decode_text, decode_uri-decode_text}
use https_proxy_server.Uri.RoundTrip.{decode_uri-encode_uri}
use https_proxy_server.Uri.InPlace.{
  decode_in_place-eq-decode_uri, decode_in_place_open_escape, decode_uri_negative,
}
use https_proxy_server.Http.Status.{http_get_status_line}
use https_proxy_server.Http.Status.Lines.{Fits, http_get_status_line-Fits}
use https_proxy_server.Http.Parser.Types.{
  HttpParser, HttpHeader, MessageType, request, ParseState, start, uri, ParseResult, finished,
  unfinished, HeaderMap, reset, is_token, is_char, is_ctl, is_tspecial, is_digit, slice, find,
  insert,
}
use https_proxy_server.Http.Parser.FirstLine.{parse_first_line, first_line_loop}
use https_proxy_server.Http.Parser.FirstLine.Resume.{parse_first_line-resume}
use https_proxy_server.Http.Parser.FirstLine.Request.{
  Verb, get, request_line, parsed_request, parse_first_line-request_line,
}
use https_proxy_server.Http.Parser.HeaderLine.{
  parse_header, parse_header_line, parse_trailer, header_line_loop,
}
use https_proxy_server.Http.Parser.HeaderLine.RoundTrip.{print_headers}
use https_proxy_server.Http.Parser.HeaderLine.Trailer.{parse_trailer-unfinished}
use https_proxy_server.Http.Parser.Message.{IsRequest, parse_header-IsRequest}
use https_proxy_server.Http.Parser.BodyInfo.{no_body, get_body_info}
use https_proxy_server.Http.Parser.BodyInfo.Framing.{Reliable, get_body_info-Reliable}

abbrev device : Bytes
device = codes "cam 1/&?"

decode_uri-encode_uri_example :
    decode_uri (encode_uri device true ++ codes "41") (length (encode_uri device true)) positive
    ≡ device
decode_uri-encode_uri_example =
    decode_uri-encode_uri device (codes "41") true positive (omega arith) refl

decode_in_place-eq-decode_uri_example :
    decode_in_place (codes "a+b%20c" ++ codes "%4") (length (codes "a+b%20c")) null
    ≡ some (decode_uri (codes "a+b%20c" ++ codes "%4") (length (codes "a+b%20c")) null)
unfolding is_escape
decode_in_place-eq-decode_uri_example =
    decode_in_place-eq-decode_uri (codes "a+b%20c") (codes "%4") null (refl, refl)

decode_in_place_open_escape_example : decode_in_place (codes "%41x") 1 null ≡ none
unfolding is_xdigit
decode_in_place_open_escape_example =
    decode_in_place_open_escape b'4' b'1' 1 (codes "x") null refl refl (omega arith) (omega arith)

abbrev new_parser : HttpParser
new_parser = record {
  state = start;
  line_beg = 0;
  line_end = 0;
  name_beg = none;
  name_end = 0;
  off = 0;
  hdr = record {
    type = request;
    major = 1;
    minor = 1;
    verb_or_code = 0;
    uri_or_text = 0;
    len = 0;
    headers = [];
  };
  hdr_len = 0;
}

abbrev half_read : HttpParser
half_read = (parse_first_line (codes "GET /ca") (reset new_parser)).1

parse_first_line-resume_example :
    parse_first_line (codes "GET /ca" ++ codes "m HTTP/1.1\r\n") half_read
    ≡ parse_first_line (codes "GET /ca" ++ codes "m HTTP/1.1\r\n") (reset new_parser)
unfolding parse_first_line reset is_token
parse_first_line-resume_example =
    parse_first_line-resume (codes "GET /ca") (codes "m HTTP/1.1\r\n") (reset new_parser) half_read
      (omega arith) refl

abbrev lines : HeaderMap
lines = (codes "Host", codes "proxy") ∷ []

abbrev header_text : Bytes
header_text = request_line get (codes "/cam") (codes "1") (codes "1") (print_headers lines [])

parse_header-IsRequest_example :
    (parser' : HttpParser) × (parse_header header_text (reset new_parser) ≡ (finished, parser'))
    × IsRequest header_text get
        (codes "/cam")
        (codes "1")
        (codes "1")
        lines
        (length header_text)
        parser'
unfolding is_digit is_ctl is_token
parse_header-IsRequest_example =
    parse_header-IsRequest get (codes "/cam") (codes "1") (codes "1") lines [] new_parser refl refl
      refl refl

abbrev read_parser : HttpParser
read_parser = (parse_header header_text (reset new_parser)).1

parse_trailer-unfinished_example :
    parse_trailer (codes "Expires: 0\r\n\r\n") read_parser ≡ (unfinished, read_parser)
unfolding parse_header reset is_token is_digit
parse_trailer-unfinished_example =
    parse_trailer-unfinished header_text (codes "Expires: 0\r\n\r\n") (reset new_parser) refl
      (omega arith)

get_body_info-Reliable_example :
    Reliable read_parser.hdr (get_body_info read_parser.hdr no_body 0 0)
get_body_info-Reliable_example = get_body_info-Reliable read_parser.hdr no_body 0 0
