-- ===== src/Http/Stream/Conserve.antt =====
-- A body and its trailer pass through unchanged.
use https_proxy_server.Base.{
  all, ℕ, ◌&&◌, ◌≡◌, ◌≢◌, inl, inr, refl, arith, List, [], ◌∷◌, ◌++◌, Option, none, some, ltb, ◌==◌,
  Bytes, Bool-cases, Option-cases, append-nil,
}
use https_proxy_server.Cstring.{is_space, strtoul}
use https_proxy_server.Http.Parser.Types.{HttpParser, ParseResult, failed, finished, unfinished}
use https_proxy_server.Http.Parser.HeaderLine.{parse_trailer}
use https_proxy_server.Http.Parser.BodyInfo.{BodyType, content, chunk_size, chunk_data}
use https_proxy_server.Http.Stream.{
  ReadBuffer, new_buffer, dlen, ReadState, reading_header, reading_body, reading_trailer,
  HttpStream, bytes, Outcome, returned, thrown, aborted, Effect, body_part, Handler, keep_reading,
  append_bytes, ends_in, crlf, next_part, read_part, next_chunk, read_chunk_size, read_body_in,
  read_body, parsed_trailer, read_trailer_in, read_trailer, read_message_in, read_message, double,
}

-- The bytes that a stream holds, and those that a call has handed on as parts of a body.
abbrev pub held : Option ReadBuffer → Bytes
held none = []
held (some buf) = buf.bytes

abbrev pub handed : List Effect → Bytes
handed [] = []
handed (body_part buf ∷ effects) = buf.bytes ++ handed effects
handed (_ ∷ effects) = handed effects

-- What was there is handed on or still held, in order.
abbrev pub Conserves : Bytes → Outcome → Type 0
Conserves before (returned result stream effects) = handed effects ++ held stream.buf ≡ before
Conserves before (thrown code stream) = Unit {0}
Conserves before aborted = Unit {0}

next_part-held : (s : HttpStream) (buf : ReadBuffer) → held (next_part s buf).buf ≡ []
unfolding next_part new_buffer
next_part-held s buf = ground arith

next_chunk-held : (s : HttpStream) (n : ℕ) → held (next_chunk s n).buf ≡ []
unfolding next_chunk new_buffer
next_chunk-held s n = ground arith

read_part-Conserves : (s : HttpStream) (buf : ReadBuffer) → Conserves buf.bytes (read_part s buf)
unfolding read_part
read_part-Conserves s buf = elim (Bool-cases (dlen buf == buf.dsize)) [
  | inl full ↦ rw (full, next_part-held s buf, append-nil, append-nil)
  | inr more ↦ rw more
]

read_chunk_size-Conserves :
    (s : HttpStream) (buf : ReadBuffer) → Conserves buf.bytes (read_chunk_size s buf)
unfolding read_chunk_size double
read_chunk_size-Conserves s buf = elim (Bool-cases (ltb 2 (dlen buf) && ends_in buf.bytes crlf)) [
  | inl full ↦ rw full (elim (Bool-cases (all is_space buf.bytes)) [
    | inl blank ↦ rw blank tt
    | inr line ↦ rw line (elim (Option-cases (strtoul buf.bytes 16)) [
      | inl bad ↦ rw bad tt
      | inr (n, good) ↦ rw good (rw (next_chunk-held s n, append-nil, append-nil))
    ])
  ])
  | inr more ↦ rw more (ground arith)
]

read_body_in-Conserves :
    (t : BodyType) (o : Option ReadBuffer) (s : HttpStream) (bs : Bytes)
    → Conserves (held o ++ bs) (read_body_in t o s bs)
unfolding read_body_in
read_body_in-Conserves content (some buf) s bs = read_part-Conserves s (append_bytes buf bs)
read_body_in-Conserves chunk_data (some buf) s bs = read_part-Conserves s (append_bytes buf bs)
read_body_in-Conserves chunk_size (some buf) s bs =
    read_chunk_size-Conserves s (append_bytes buf bs)
read_body_in-Conserves _ _ s bs = tt

parsed_trailer-Conserves :
    (s : HttpStream) (buf : ReadBuffer) (r : ParseResult × HttpParser)
    → Conserves buf.bytes (parsed_trailer s buf r)
parsed_trailer-Conserves s buf (finished, parser) = rw (append-nil, append-nil)
parsed_trailer-Conserves s buf (failed, parser) = tt
parsed_trailer-Conserves s buf (unfinished, parser) = tt

keep_reading-Conserves :
    (max_size : ℕ) (s : HttpStream) (buf : ReadBuffer)
    → Conserves buf.bytes (keep_reading max_size s buf)
unfolding double
keep_reading-Conserves max_size s buf = ground arith

read_trailer_in-Conserves :
    (max_size : ℕ) (o : Option ReadBuffer) (s : HttpStream) (bs : Bytes)
    → Conserves (held o ++ bs) (read_trailer_in max_size o s bs)
unfolding read_trailer_in
read_trailer_in-Conserves max_size none s bs = tt
read_trailer_in-Conserves max_size (some old) s bs =
    let buf = append_bytes old bs in
    elim (Bool-cases (ends_in buf.bytes crlf)) [
      | inl full ↦ rw full (parsed_trailer-Conserves s buf (parse_trailer buf.bytes s.parser))
      | inr more ↦ rw more (keep_reading-Conserves max_size s buf)
    ]

by_state :
    (max_size : ℕ) (handle : Handler) (s : HttpStream) (bs : Bytes) (st : ReadState)
    → st ≢ reading_header
    → Conserves (held s.buf ++ bs) (read_message_in st max_size handle s (bytes bs))
unfolding read_body read_trailer
by_state max_size handle s bs reading_header n = absurd (n refl)
by_state max_size handle s bs reading_body n = read_body_in-Conserves s.body_type s.buf s bs
by_state max_size handle s bs reading_trailer n = read_trailer_in-Conserves max_size s.buf s bs

-- Behind a header, what a call hands on and what the stream holds after it are what it held before
-- and the bytes received, in this order: nothing of a body, its chunk sizes or its trailer is
-- lost, changed or doubled.
pub read_message-Conserves :
    (max_size : ℕ) (handle : Handler) (s : HttpStream) (bs : Bytes)
    → s.state ≢ reading_header
    → Conserves (held s.buf ++ bs) (read_message max_size handle s (bytes bs))
unfolding read_message
read_message-Conserves max_size handle s bs n = by_state max_size handle s bs s.state n
