-- ===== src/Tests/Stream.antt =====
-- The theorems on a stream at concrete buffers.
use https_proxy_server.Base.{◌≡◌, refl, arith, [], ◌∷◌, ◌++◌, none, some, codes}
use https_proxy_server.Http.Parser.Types.{HttpParser, request, start}
use https_proxy_server.Http.Parser.BodyInfo.{content}
use https_proxy_server.Http.Stream.{
  ReadBuffer, HttpStream, reading_header, reading_body, bytes, Handler, taken, after_header,
  read_message,
}
use https_proxy_server.Http.Stream.Conserve.{held, Conserves, read_message-Conserves}
use https_proxy_server.Http.Stream.Content.{read_all, after_content, read_message-content}

abbrev handler : Handler
handler parser buf = taken

abbrev parser : HttpParser
parser = record {
  state = start;
  line_beg = 0;
  line_end = 0;
  name_beg = none;
  name_end = 0;
  off = 0;
  hdr = record {
    type = request;
    major = 1;
    minor = 1;
    verb_or_code = 0;
    uri_or_text = 0;
    len = 0;
    headers = [];
  };
  hdr_len = 0;
}

abbrev part : ReadBuffer
part = record { bytes = codes "ab"; dsize = 5 }

abbrev in_body : HttpStream
in_body = record {
  parser = parser;
  state = reading_body;
  body_type = content;
  body_len = 5;
  body_tran = 0;
  buf = some part;
}

read_message-Conserves_example :
    Conserves
      (held in_body.buf ++ codes "cde")
      (read_message 8192 handler in_body (bytes (codes "cde")))
read_message-Conserves_example = read_message-Conserves 8192 handler in_body (codes "cde") (λ e. cc)

abbrev announced : HttpStream
announced = record in_body { state = reading_header; buf = none }

read_message-content_example :
    read_all 8192 handler
      (0 ∷ 9 ∷ 2 ∷ 0 ∷ 0 ∷ [])
      (record { stream = after_header announced; rest = codes "hello!"; out = [] })
    ≡ some (record { stream = after_content announced 5; rest = codes "!"; out = codes "hello" })
read_message-content_example =
    read_message-content 8192 handler (0 ∷ 9 ∷ 2 ∷ 0 ∷ 0 ∷ []) announced (codes "hello!") refl
      (omega arith) (omega arith) (omega arith)
