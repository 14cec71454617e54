-- ===== src/Http/Stream.antt =====
-- `http_stream` of core/http.h and core/http.cpp: reading a message from a connection, a header byte
-- by byte and a body in pieces. What `recv` gives is an argument of each call. What `onHeader` does
-- with a header is the connection's, and an argument too; `onBody` hands a buffer on, and the result
-- of a call lists such effects. An `assert` that fails is a result, `aborted`,
-- as in a debug build.
pub mod Sizes
pub mod Buffers
pub mod Conserve
pub mod Content
use https_proxy_server.Base.{
  all, ℕ, zero, suc, ◌+◌, ◌-◌, ◌*◌, ◌%◌, ◌^◌, Bool, true, false, not, ◌&&◌, ◌||◌, List, [], ◌∷◌,
  ◌++◌, Option, none, some, leb, ltb, ◌==◌, if◌then◌else◌, min, prepend, length, take, drop, codes,
  Bytes,
}
use https_proxy_server.Cstring.{to_lower, is_space, strtoul, ulong_size}
use https_proxy_server.Http.Parser.Types.{
  bytes_eq, HttpParser, HttpHeader, ParseResult, failed, finished, unfinished, request, response,
  MessageType, reset,
}
use https_proxy_server.Http.Parser.HeaderLine.{parse_header, parse_trailer}
use https_proxy_server.Http.Parser.BodyInfo.{
  BodyType, no_body, content, chunk_size, chunk_data, BodyInfo, get_body_info, http_bad_request,
  http_continue,
}

abbrev pub http_init_header_size : ℕ
http_init_header_size = 1024

abbrev pub http_max_chunk_size_len : ℕ
http_max_chunk_size_len = 18

abbrev pub http_chunk_size_len : ℕ
http_chunk_size_len = 10

abbrev pub http_each_body_size : ℕ
http_each_body_size = 65536

-- `buffer` of core/buffer.h as it is read into: the `dlen_` bytes that it holds, and `dsize_`.
pub record ReadBuffer : Type 0 where
  pub bytes : Bytes
  pub dsize : ℕ

-- `new (size) buffer(size)`
unfoldable pub new_buffer : ℕ → ReadBuffer
new_buffer size = record { bytes = []; dsize = if size == 0 then 1 else size }

abbrev pub dlen : ReadBuffer → ℕ
dlen buf = length buf.bytes

pub data ReadState : Type 0 where
  reading_header reading_body reading_trailer : ReadState

pub record HttpStream : Type 0 where
  pub parser : HttpParser
  pub state : ReadState
  pub body_type : BodyType
  pub body_len : ℕ
  pub body_tran : ℕ
  pub buf : Option ReadBuffer

-- `connection::recv`: a positive number of bytes, `OP_AGAIN`, `OP_CLOSE` or `OP_ERROR`.
pub data Received : Type 0 where
  bytes : Bytes → Received
  again closed broken : Received

pub data DataState : Type 0 where
  data_finish data_error data_unreadable conn_closed conn_error : DataState

-- What a call does to the connection: `send_response(HTTP_CONTINUE, …)`, a header's buffer taken by
-- `onHeader`, and a buffer handed on by `onBody`.
pub data Effect : Type 0 where
  sent_continue : Effect
  took_header body_part : ReadBuffer → Effect

-- What a call ends in: a result, with its effects in their order, an `http_exception`, or a failed
-- assertion or a read of memory that was never written.
pub data Outcome : Type 0 where
  returned : DataState → HttpStream → List Effect → Outcome
  thrown : ℕ → HttpStream → Outcome
  aborted : Outcome

-- `recv` gave no bytes.
abbrev pub not_received : Received → HttpStream → Outcome
not_received again stream = returned data_unreadable stream []
not_received closed stream = returned conn_closed stream []
not_received _ stream = returned conn_error stream []

abbrev pub crlf : Bytes
crlf = 13 ∷ 10 ∷ []

-- Are the last bytes of the text these?
abbrev pub ends_in : Bytes → Bytes → Bool
ends_in text end =
    leb (length end) (length text) && bytes_eq (drop (length text - length end) text) end

-- A buffer that is full is doubled.
unfoldable pub double : ReadBuffer → ReadBuffer
double buf = record buf { dsize = 2 * buf.dsize }

-- The text that `strcasestr` looks for, and what is in front of it and behind it.
abbrev pub starts_alike : Bytes → Bytes → Bool
starts_alike text [] = true
starts_alike [] (w ∷ word) = false
starts_alike (t ∷ text) (w ∷ word) = to_lower t == to_lower w && starts_alike text word

-- `strcasestr` and the `memmove` over what it found; `none` is the null pointer.
unfoldable pub remove_text : Bytes → Bytes → Option Bytes
remove_text word [] = none
remove_text word (t ∷ text) =
    if starts_alike (t ∷ text) word
    then some (drop (length word) (t ∷ text))
    else prepend t (remove_text word text)

abbrev pub expect_line : Bytes
expect_line = codes "Except: 100-Continue" ++ crlf

-- What `handle_special_request` and `connection::handle_uri` do with a request: the buffer is gone
-- afterwards, or an `http_exception` is thrown.
pub data HeaderAction : Type 0 where
  taken : HeaderAction
  refused : ℕ → HeaderAction

abbrev pub Handler : Type 0
Handler = HttpParser → ReadBuffer → HeaderAction

-- `onHeader`
unfoldable pub on_header : Handler → HttpParser → ReadBuffer → HeaderAction
on_header handle parser buf = elim parser.hdr.type [
  | request ↦ handle parser buf
  | response ↦ refused http_bad_request
]

-- Is there a body to read?
abbrev pub has_body : BodyType → ℕ → Bool
has_body content len = not (len == 0)
has_body chunk_size len = true
has_body _ len = false

-- The room for the first part of a body.
abbrev pub first_size : BodyType → ℕ → ℕ
first_size content len = min http_each_body_size len
first_size _ len = http_chunk_size_len

-- The stream once its header is taken.
unfoldable pub after_header : HttpStream → HttpStream
unfolding new_buffer
after_header stream =
    if has_body stream.body_type stream.body_len
    then record stream {
      state = reading_body;
      body_tran = 0;
      buf = some (new_buffer (first_size stream.body_type stream.body_len));
    }
    else record stream { buf = none }

abbrev pub deliver : HttpStream → ReadBuffer → List Effect → HeaderAction → Outcome
deliver stream buf effects taken =
    returned data_finish (after_header stream) (effects ++ took_header buf ∷ [])
deliver stream buf effects (refused code) = thrown code stream

-- `HTTP_CONTINUE==error`: the answer is sent and the header line is cut out of the buffer.
unfoldable pub deliver_header : Handler → HttpStream → ReadBuffer → ℕ → Outcome
unfolding remove_text on_header after_header
deliver_header handle stream buf error =
    if error == http_continue
    then elim (remove_text expect_line buf.bytes) [
      | none ↦ aborted
      | some rest ↦
          let cut = record buf { bytes = rest } in
          deliver (record stream { buf = some cut }) cut (sent_continue ∷ [])
            (on_header handle stream.parser cut)
    ]
    else deliver stream buf [] (on_header handle stream.parser buf)

-- The header is complete: it is parsed.
abbrev pub parsed_header : Handler → HttpStream → ReadBuffer → ParseResult × HttpParser → Outcome
parsed_header handle stream buf (finished, parser) =
    let info = get_body_info parser.hdr stream.body_type stream.body_len 0 in
    let stream' = record stream {
      parser = parser;
      body_type = info.type;
      body_len = info.len;
      buf = some buf;
    } in
    if info.ok
    then deliver_header handle stream' buf info.error
    else thrown http_bad_request stream'
parsed_header handle stream buf (failed, parser) =
    thrown http_bad_request (record stream { parser = parser; buf = some buf })
parsed_header handle stream buf (unfinished, parser) = aborted

-- The buffer of a header or a trailer that is not complete: it grows up to the limit.
abbrev pub keep_reading : ℕ → HttpStream → ReadBuffer → Outcome
keep_reading max_size stream buf =
    if ltb (dlen buf) max_size && dlen buf == buf.dsize
    then returned data_finish (record stream { buf = some (double buf) }) []
    else if leb max_size (dlen buf)
    then thrown http_bad_request (record stream { buf = some buf })
    else returned data_finish (record stream { buf = some buf }) []

abbrev pub or_new : Option ReadBuffer → ℕ → ReadBuffer
or_new none size = new_buffer size
or_new (some buf) size = buf

abbrev pub append_bytes : ReadBuffer → Bytes → ReadBuffer
append_bytes buf bs = record buf { bytes = buf.bytes ++ bs }

-- `read_header` with `onHeaderError`, which throws. `max_size` is `http_max_header_size`.
unfoldable pub read_header : ℕ → Handler → HttpStream → Received → Outcome
unfolding deliver_header double reset
read_header max_size handle stream (bytes bs) =
    let buf = append_bytes (or_new stream.buf http_init_header_size) bs in
    if ends_in buf.bytes (crlf ++ crlf)
    then parsed_header handle stream buf (parse_header buf.bytes (reset stream.parser))
    else keep_reading max_size stream buf
read_header max_size handle stream received =
    not_received received (record stream { buf = some (or_new stream.buf http_init_header_size) })

-- A part of a body is complete: `onBody`, and the buffer for what comes next.
unfoldable pub next_part : HttpStream → ReadBuffer → HttpStream
unfolding new_buffer
next_part stream buf =
    let tran = stream.body_tran + dlen buf in
    if ltb tran stream.body_len
    then record stream {
      body_tran = tran;
      buf = some (new_buffer (min (stream.body_len - tran) http_each_body_size));
    }
    else elim stream.body_type [
      | chunk_data ↦ record stream {
        body_tran = tran;
        body_type = chunk_size;
        buf = some (new_buffer http_chunk_size_len);
      }
      | _ ↦ record stream { body_tran = tran; state = reading_header; buf = none }
    ]

-- The part of a body that is full is handed on. `onBody` pushes it to the partner's queue before it
-- calls the partner's `async_send`; an `io_exception` of that call leaves `read_body` behind the push,
-- and closes the connection.
unfoldable pub read_part : HttpStream → ReadBuffer → Outcome
unfolding next_part
read_part stream buf =
    if dlen buf == buf.dsize
    then returned data_finish (next_part stream buf) (body_part buf ∷ [])
    else returned data_finish (record stream { buf = some buf }) []

-- The size of a chunk is known: the chunk with its CRLF is next, or the trailer.
unfoldable pub next_chunk : HttpStream → ℕ → HttpStream
unfolding new_buffer
next_chunk stream n =
    if n == 0
    then record stream {
      body_len = n;
      state = reading_trailer;
      buf = some (new_buffer http_init_header_size);
    }
    else let total = (n + 2) % ulong_size in
      record stream {
        body_len = total;
        body_type = chunk_data;
        body_tran = 0;
        buf = some (new_buffer (min total http_each_body_size));
      }

-- In a line of white space alone `strtoul` finds no end and reads on behind what was received.
unfoldable pub read_chunk_size : HttpStream → ReadBuffer → Outcome
unfolding next_chunk double is_space
read_chunk_size stream buf =
    if ltb 2 (dlen buf) && ends_in buf.bytes crlf
    then if all is_space buf.bytes then aborted else elim (strtoul buf.bytes 16) [
      | none ↦ thrown http_bad_request (record stream { buf = some buf })
      | some n ↦ returned data_finish (next_chunk stream n) (body_part buf ∷ [])
    ]
    else if ltb (dlen buf) http_max_chunk_size_len && dlen buf == buf.dsize
    then returned data_finish (record stream { buf = some (double buf) }) []
    else if leb http_max_chunk_size_len (dlen buf)
    then thrown http_bad_request (record stream { buf = some buf })
    else returned data_finish (record stream { buf = some buf }) []

-- `read_body` with `onBodyError`, which throws. The code reads through `buf_` without a test.
unfoldable pub read_body_in : BodyType → Option ReadBuffer → HttpStream → Bytes → Outcome
unfolding read_part read_chunk_size
read_body_in content (some buf) stream bs = read_part stream (append_bytes buf bs)
read_body_in chunk_data (some buf) stream bs = read_part stream (append_bytes buf bs)
read_body_in chunk_size (some buf) stream bs = read_chunk_size stream (append_bytes buf bs)
read_body_in _ _ stream bs = aborted

unfoldable pub read_body : HttpStream → Received → Outcome
unfolding read_body_in
read_body stream (bytes bs) = read_body_in stream.body_type stream.buf stream bs
read_body stream received = not_received received stream

-- `read_trailer` with `onTrailerError`, which throws.
abbrev pub parsed_trailer : HttpStream → ReadBuffer → ParseResult × HttpParser → Outcome
parsed_trailer stream buf (finished, parser) =
    returned data_finish (record stream { parser = parser; state = reading_header; buf = none })
      (body_part buf ∷ [])
parsed_trailer stream buf (failed, parser) =
    thrown http_bad_request (record stream { parser = parser; buf = some buf })
parsed_trailer stream buf (unfinished, parser) = aborted

unfoldable pub read_trailer_in : ℕ → Option ReadBuffer → HttpStream → Bytes → Outcome
unfolding double
read_trailer_in max_size none stream bs = aborted
read_trailer_in max_size (some old) stream bs =
    let buf = append_bytes old bs in
    if ends_in buf.bytes crlf
    then parsed_trailer stream buf (parse_trailer buf.bytes stream.parser)
    else keep_reading max_size stream buf

unfoldable pub read_trailer : ℕ → HttpStream → Received → Outcome
unfolding read_trailer_in
read_trailer max_size stream (bytes bs) = read_trailer_in max_size stream.buf stream bs
read_trailer max_size stream received = not_received received stream

-- `read_message`
abbrev read_message_in : ReadState → ℕ → Handler → HttpStream → Received → Outcome
read_message_in reading_header max_size handle stream received =
    read_header max_size handle stream received
read_message_in reading_body max_size handle stream received = read_body stream received
read_message_in reading_trailer max_size handle stream received =
    read_trailer max_size stream received

unfoldable pub read_message : ℕ → Handler → HttpStream → Received → Outcome
unfolding read_header read_body read_trailer
read_message max_size handle stream received =
    read_message_in stream.state max_size handle stream received

-- How many bytes the call asks `recv` for, at the end of the buffer.
abbrev asked_in : ReadState → BodyType → ReadBuffer → ℕ
asked_in reading_body content buf = buf.dsize - dlen buf
asked_in reading_body chunk_data buf = buf.dsize - dlen buf
asked_in _ _ buf = 1

unfoldable pub asked : HttpStream → ℕ
asked stream = asked_in stream.state stream.body_type (or_new stream.buf http_init_header_size)
