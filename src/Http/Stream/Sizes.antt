-- ===== src/Http/Stream/Sizes.antt =====
-- The sizes that the buffers of a stream keep to, and what the next state of a stream keeps.
use https_proxy_server.Base.{
  ℕ, ◌+◌, ◌*◌, ◌≤◌, ◌<◌, ◌≡◌, ◌⊎◌, inl, inr, refl, arith, List, [], ◌∷◌, Option, none, some, ◌==◌,
  Bool-cases, Option-cases,
}
use https_proxy_server.Http.Parser.Types.{HttpParser, ParseResult, failed, finished, unfinished}
use https_proxy_server.Http.Parser.BodyInfo.{
  BodyType, no_body, content, chunk_size, chunk_data, get_body_info, http_continue,
}
use https_proxy_server.Http.Stream.{
  ReadBuffer, new_buffer, dlen, ReadState, reading_header, reading_body, reading_trailer,
  HttpStream, Outcome, returned, thrown, aborted, Effect, sent_continue, Handler, HeaderAction,
  taken, refused, after_header, deliver, deliver_header, parsed_header, keep_reading, next_part,
  next_chunk, http_init_header_size, http_each_body_size, http_chunk_size_len, double, remove_text,
  expect_line, on_header,
}

abbrev pub HasRoom : ReadBuffer → Type 0
HasRoom buf = dlen buf < buf.dsize

-- The largest buffer for a header or a trailer.
abbrev pub header_room : ℕ → ℕ
header_room max_size = http_init_header_size + 2 * max_size

-- The buffer of a stream has room for another byte and is no larger than the state allows; it is
-- there while a body or a trailer is read; and a part of a body lies within the body's length (a
-- chunk whose length wraps to 0 has a buffer of one byte).
abbrev pub FitsIn : ℕ → ReadState → BodyType → ℕ → ℕ → Option ReadBuffer → Type 0
FitsIn max_size reading_header type len tran none = Unit {0}
FitsIn max_size reading_header type len tran (some buf) =
    HasRoom buf × (buf.dsize ≤ header_room max_size)
FitsIn max_size reading_trailer type len tran none = ⊥
FitsIn max_size reading_trailer type len tran (some buf) =
    HasRoom buf × (buf.dsize ≤ header_room max_size)
FitsIn max_size reading_body content len tran (some buf) =
    HasRoom buf × (buf.dsize ≤ http_each_body_size) × (tran + buf.dsize ≤ len)
FitsIn max_size reading_body chunk_data len tran (some buf) =
    HasRoom buf × (buf.dsize ≤ http_each_body_size) × ((len ≡ 0) ⊎ (tran + buf.dsize ≤ len))
FitsIn max_size reading_body chunk_size len tran (some buf) =
    HasRoom buf × ((buf.dsize ≡ http_chunk_size_len) ⊎ (buf.dsize ≡ 2 * http_chunk_size_len))
FitsIn max_size reading_body type len tran buf = ⊥

abbrev pub Fits : ℕ → HttpStream → Type 0
Fits max_size s = FitsIn max_size s.state s.body_type s.body_len s.body_tran s.buf

abbrev pub AllFit : ℕ → Outcome → Type 0
AllFit max_size (returned result stream effects) = Fits max_size stream
AllFit max_size (thrown code stream) = Unit {0}
AllFit max_size aborted = Unit {0}

-- The growth of the buffer of a header or a trailer, in either state.
abbrev pub IsLineState : ReadState → Type 0
IsLineState reading_body = ⊥
IsLineState _ = Unit {0}

pub keep_reading-AllFit :
    (max_size : ℕ) (s : ReadState) (stream : HttpStream) (buf : ReadBuffer)
    → stream.state ≡ s
    → IsLineState s
    → dlen buf ≤ buf.dsize
    → 0 < dlen buf
    → buf.dsize ≤ header_room max_size
    → AllFit max_size (keep_reading max_size stream buf)
unfolding double
keep_reading-AllFit max_size reading_body stream buf e l h p k = absurd l
keep_reading-AllFit max_size reading_header stream buf e l h p k = ground arith
keep_reading-AllFit max_size reading_trailer stream buf e l h p k = ground arith

pub after_header-Fits :
    (max_size : ℕ) (stream : HttpStream)
    → stream.state ≡ reading_header
    → Fits max_size (after_header stream)
unfolding after_header new_buffer
after_header-Fits max_size stream e = by_type stream.body_type refl
  where
    by_type : (t : BodyType) → stream.body_type ≡ t → Fits max_size (after_header stream)
    by_type no_body t = ground arith
    by_type content t = ground arith
    by_type chunk_size t = ground arith
    by_type chunk_data t = ground arith

pub next_part-Fits :
    (max_size : ℕ) (stream : HttpStream) (buf : ReadBuffer)
    → stream.state ≡ reading_body
    → (stream.body_type ≡ content) ⊎ (stream.body_type ≡ chunk_data)
    → Fits max_size (next_part stream buf)
unfolding next_part new_buffer
next_part-Fits max_size stream buf e (inl t) = ground arith
next_part-Fits max_size stream buf e (inr t) = ground arith

pub next_chunk-Fits :
    (max_size n : ℕ) (stream : HttpStream)
    → stream.state ≡ reading_body
    → Fits max_size (next_chunk stream n)
unfolding next_chunk new_buffer
next_chunk-Fits max_size n stream e = ground arith

pub deliver-AllFit :
    (max_size : ℕ) (stream : HttpStream) (buf : ReadBuffer) (effects : List Effect)
    (action : HeaderAction)
    → stream.state ≡ reading_header
    → AllFit max_size (deliver stream buf effects action)
deliver-AllFit max_size stream buf effects taken e = after_header-Fits max_size stream e
deliver-AllFit max_size stream buf effects (refused code) e = tt

pub deliver_header-AllFit :
    (max_size : ℕ) (handle : Handler) (stream : HttpStream) (buf : ReadBuffer) (error : ℕ)
    → stream.state ≡ reading_header
    → AllFit max_size (deliver_header handle stream buf error)
unfolding deliver_header
deliver_header-AllFit max_size handle stream buf error e =
    elim (Bool-cases (error == http_continue)) [
      | inl c ↦ rw c (elim (Option-cases (remove_text expect_line buf.bytes)) [
        | inl r ↦ rw r tt
        | inr (rest, r) ↦
            let cut = record buf { bytes = rest } in
            rw r (
              deliver-AllFit max_size (record stream { buf = some cut }) cut (sent_continue ∷ [])
                (on_header handle stream.parser cut) e)
      ])
      | inr c ↦ rw c (deliver-AllFit max_size stream buf [] (on_header handle stream.parser buf) e)
    ]

pub parsed_header-AllFit :
    (max_size : ℕ) (handle : Handler) (stream : HttpStream) (buf : ReadBuffer)
    (r : ParseResult × HttpParser)
    → stream.state ≡ reading_header
    → AllFit max_size (parsed_header handle stream buf r)
parsed_header-AllFit max_size handle stream buf (failed, parser) e = tt
parsed_header-AllFit max_size handle stream buf (unfinished, parser) e = tt
parsed_header-AllFit max_size handle stream buf (finished, parser) e =
    let info = get_body_info parser.hdr stream.body_type stream.body_len 0 in
    let stream' = record stream {
      parser = parser;
      body_type = info.type;
      body_len = info.len;
      buf = some buf;
    } in
    elim (Bool-cases info.ok) [
      | inl good ↦ rw good (deliver_header-AllFit max_size handle stream' buf info.error e)
      | inr bad ↦ rw bad tt
    ]
