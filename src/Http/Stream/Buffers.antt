-- ===== src/Http/Stream/Buffers.antt =====
-- The buffers of a stream are never overrun, and stay within fixed sizes.
use https_proxy_server.Base.{ℕ, ◌+◌, ◌≤◌, ◌<◌, arith, Option, none, some, length}
use https_proxy_server.Http.Parser.BodyInfo.{BodyType, content, chunk_size, chunk_data}
use https_proxy_server.Http.Stream.{
  ReadBuffer, new_buffer, dlen, ReadState, reading_header, reading_body, reading_trailer,
  HttpStream, Received, bytes, or_new, asked, asked_in, http_init_header_size,
}
use https_proxy_server.Http.Stream.Sizes.{FitsIn, Fits}

-- The bytes that `recv` gives are at least one and no more than were asked for.
abbrev pub Allowed : HttpStream → Received → Type 0
Allowed s (bytes bs) = (0 < length bs) × (length bs ≤ asked s)
Allowed s _ = Unit {0}

room_in :
    (max_size len tran : ℕ) (st : ReadState) (t : BodyType) (o : Option ReadBuffer)
    → FitsIn max_size st t len tran o
    → let buf = or_new o http_init_header_size in
      (0 < asked_in st t buf) × (dlen buf + asked_in st t buf ≤ buf.dsize)
unfolding new_buffer
room_in max_size len tran reading_header t none f = omega arith
room_in max_size len tran reading_header t (some buf) f = omega arith
room_in max_size len tran reading_trailer t (some buf) f = omega arith
room_in max_size len tran reading_body content (some buf) f = omega arith
room_in max_size len tran reading_body chunk_data (some buf) f = omega arith
room_in max_size len tran reading_body chunk_size (some buf) f = omega arith
room_in max_size len tran _ _ _ f = absurd f

-- What `recv` is asked for is at least a byte and has room in the buffer that it is read into.
pub asked-le_room :
    (max_size : ℕ) (s : HttpStream)
    → Fits max_size s
    → let buf = or_new s.buf http_init_header_size in
      (0 < asked s) × (dlen buf + asked s ≤ buf.dsize)
unfolding asked
asked-le_room max_size s f = room_in max_size s.body_len s.body_tran s.state s.body_type s.buf f
