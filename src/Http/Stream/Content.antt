-- ===== src/Http/Stream/Content.antt =====
-- A body with a Content-Length is read to its end, and not beyond.
use https_proxy_server.Base.{
  ℕ, suc, ◌+◌, ◌-◌, ◌≤◌, ◌<◌, Bool, true, false, ◌≡◌, inl, inr, refl, ap, ◌∙◌, arith, List, [], ◌∷◌,
  ◌++◌, Option, none, some, ltb, if◌then◌else◌, min, length, take, drop, Bytes, Bool-cases,
  append-nil, append_assoc, length-append, length-take, length-drop, take-add, drop-add,
}
use https_proxy_server.Http.Parser.BodyInfo.{content}
use https_proxy_server.Http.Stream.{
  ReadBuffer, new_buffer, dlen, ReadState, reading_header, reading_body, HttpStream, bytes,
  data_finish, body_part, Outcome, returned, Effect, append_bytes, after_header, next_part,
  read_part, read_body_in, read_body, read_message, Handler, asked, http_each_body_size,
}
use https_proxy_server.Http.Stream.Conserve.{handed, held}

-- What has been read of an input: the stream, the rest of the input, and the bytes handed on.
pub record Progress : Type 0 where
  pub stream : HttpStream
  pub rest : Bytes
  pub out : Bytes

abbrev is_in_header : ReadState → Bool
is_in_header reading_header = true
is_in_header _ = false

-- What goes on after a call that took `n` bytes.
abbrev after_call : ℕ → Progress → Outcome → Option Progress
after_call n p (returned result stream effects) =
    some (record { stream = stream; rest = drop n p.rest; out = p.out ++ handed effects })
after_call n p _ = none

-- One call gets what it asks for of the input, but no more than `k + 1` bytes.
pub one_call : ℕ → Handler → ℕ → Progress → Option Progress
one_call max_size handle k p =
    let n = min (suc k) (asked p.stream) in
    after_call n p (read_message max_size handle p.stream (bytes (take n p.rest)))

-- Calls are made until the stream reads headers again; the list bounds the bytes of each.
pub read_all : ℕ → Handler → List ℕ → Progress → Option Progress
read_all max_size handle [] p = some p
read_all max_size handle (k ∷ ks) p =
    if is_in_header p.stream.state then some p else elim (one_call max_size handle k p) [
      | none ↦ none
      | some p' ↦ read_all max_size handle ks p'
    ]

-- A stream in the middle of a body of `len` bytes.
abbrev in_content : HttpStream → ℕ → ℕ → ReadBuffer → HttpStream
in_content q len tran buf = record q {
  state = reading_body;
  body_type = content;
  body_len = len;
  body_tran = tran;
  buf = some buf;
}

-- A stream that has read such a body.
abbrev pub after_content : HttpStream → ℕ → HttpStream
after_content q len = record q {
  state = reading_header;
  body_type = content;
  body_len = len;
  body_tran = len;
  buf = none;
}

part_more :
    (s : HttpStream) (buf : ReadBuffer)
    → dlen buf < buf.dsize
    → read_part s buf ≡ returned data_finish (record s { buf = some buf }) []
unfolding read_part
part_more s buf h = ground arith

part_full :
    (s : HttpStream) (buf : ReadBuffer)
    → dlen buf ≡ buf.dsize
    → read_part s buf ≡ returned data_finish (next_part s buf) (body_part buf ∷ [])
unfolding read_part
part_full s buf h = ground arith

next_more :
    (q : HttpStream) (len tran tran' : ℕ) (old buf : ReadBuffer)
    → tran + dlen buf ≡ tran'
    → tran' < len
    → next_part (in_content q len tran old) buf
      ≡ in_content q len tran'
          (record { bytes = []; dsize = min (len - tran') http_each_body_size })
unfolding next_part new_buffer
next_more q len tran tran' old buf e h = ground arith

next_end :
    (q : HttpStream) (len tran : ℕ) (old buf : ReadBuffer)
    → tran + dlen buf ≡ len
    → next_part (in_content q len tran old) buf ≡ after_content q len
unfolding next_part
next_end q len tran old buf e = ground arith

module _ (max_size : ℕ) (handle : Handler) where
  read_all_end :
      (ks : List ℕ) (p : Progress)
      → p.stream.state ≡ reading_header
      → read_all max_size handle ks p ≡ some p
  unfolding read_all
  read_all_end [] p e = refl
  read_all_end (k ∷ ks) p e = ground arith

  one_call-content :
      (q : HttpStream) (len tran k : ℕ) (buf : ReadBuffer) (input out : Bytes)
      → let n = min (suc k) (buf.dsize - dlen buf) in
        let p : Progress = record { stream = in_content q len tran buf; rest = input; out = out } in
        one_call max_size handle k p
        ≡ after_call n p (read_part p.stream (append_bytes buf (take n input)))
  unfolding one_call read_message read_body read_body_in asked
  one_call-content q len tran k buf input out = refl

  step-content :
      (q : HttpStream) (len tran k : ℕ) (ks : List ℕ) (buf : ReadBuffer) (input out : Bytes)
      (s' : HttpStream) (effects : List Effect)
      → let n = min (suc k) (buf.dsize - dlen buf) in
        read_part (in_content q len tran buf) (append_bytes buf (take n input))
          ≡ returned data_finish s' effects
        → read_all max_size handle
            (k ∷ ks)
            (record { stream = in_content q len tran buf; rest = input; out = out })
          ≡ read_all max_size handle ks
              (record { stream = s'; rest = drop n input; out = out ++ handed effects })
  unfolding read_all
  step-content q len tran k ks buf input out s' effects e =
      rw (read_all, one_call-content q len tran k buf input out, e)

  -- The calls from the middle of a body on: `left` bytes are still to come.
  abbrev Reads : List ℕ → HttpStream → ℕ → ℕ → ReadBuffer → Bytes → Bytes → ℕ → Type 0
  Reads ks q len tran buf input out left =
      read_all max_size handle ks
        (record { stream = in_content q len tran buf; rest = input; out = out })
      ≡ some (record {
        stream = after_content q len;
        rest = drop left input;
        out = out ++ (buf.bytes ++ take left input);
      })

  -- The bytes of two pieces, one taken now and one later.
  two_pieces :
      (n left : ℕ) (out held input : Bytes)
      → out ++ ((held ++ take n input) ++ take left (drop n input))
        ≡ out ++ (held ++ take (n + left) input)
  two_pieces n left out held input = ap (◌++◌ out) (
      append_assoc held (take n input) (take left (drop n input))
      ∙ ap (◌++◌ held) (take-add n left input))

  -- The result of the calls, from the rest of the input and the bytes handed on.
  abbrev done_with : HttpStream → ℕ → Bytes → Bytes → Option Progress
  done_with q len rest out = some (record { stream = after_content q len; rest = rest; out = out })

  done_with-eq :
      (q : HttpStream) (len : ℕ) {rest rest' out out' : Bytes}
      → rest ≡ rest'
      → out ≡ out'
      → done_with q len rest out ≡ done_with q len rest' out'
  done_with-eq q len e f = rw (e, f)

  out_more :
      (n left' left : ℕ) (out held input : Bytes)
      → n + left' ≡ left
      → (out ++ []) ++ ((held ++ take n input) ++ take left' (drop n input))
        ≡ out ++ (held ++ take left input)
  out_more n left' left out held input whole =
      ap (λ o. o ++ ((held ++ take n input) ++ take left' (drop n input))) (append-nil out)
      ∙ two_pieces n left' out held input
      ∙ ap (λ m. out ++ (held ++ take m input)) whole

  out_full :
      (n left' left : ℕ) (out held input : Bytes)
      → n + left' ≡ left
      → (out ++ ((held ++ take n input) ++ [])) ++ take left' (drop n input)
        ≡ out ++ (held ++ take left input)
  out_full n left' left out held input whole =
      ap (λ o. (out ++ o) ++ take left' (drop n input)) (append-nil (held ++ take n input))
      ∙ append_assoc out (held ++ take n input) (take left' (drop n input))
      ∙ two_pieces n left' out held input
      ∙ ap (λ m. out ++ (held ++ take m input)) whole

  read_content :
      (ks : List ℕ) (q : HttpStream) (len tran : ℕ) (buf : ReadBuffer) (input out : Bytes)
      (left : ℕ)
      → tran + dlen buf + left ≡ len
      → dlen buf < buf.dsize
      → tran + buf.dsize ≤ len
      → left ≤ length ks
      → left ≤ length input
      → Reads ks q len tran buf input out left
  read_content [] q len tran buf input out left e room fit k i = absurd (omega arith)
  read_content (k ∷ ks) q len tran buf input out left e room fit hk hi =
      let n = min (suc k) (buf.dsize - dlen buf) in
      let buf' = append_bytes buf (take n input) in
      let bound : (0 < n) × (n ≤ buf.dsize - dlen buf) = ground arith in
      let fits : n ≤ left = omega arith in
      let size : dlen buf' ≡ dlen buf + n =
        omega (arith, length-append buf.bytes (take n input), length-take n input) in
      let left' = left - n in
      let input' = drop n input in
      let whole : n + left' ≡ left = omega arith in
      let rest_is : length input' ≡ length input - n = length-drop n input in
      let rest_eq : drop left' input' ≡ drop left input =
        drop-add n left' input ∙ ap (λ m. drop m input) whole in
      elim (Bool-cases (ltb (dlen buf + n) buf.dsize)) [
        | inl more ↦
            let room' : dlen buf' < buf.dsize = ground arith in
            step-content q len tran k ks buf input out (in_content q len tran buf') []
              (part_more (in_content q len tran buf) buf' room')
            ∙ read_content ks q len tran buf' input' (out ++ []) left' (omega arith) room' fit
                (omega arith) (omega arith)
            ∙ done_with-eq q len rest_eq (out_more n left' left out buf.bytes input whole)
        | inr full ↦
            let is_full : dlen buf' ≡ buf.dsize = ground arith in
            let tran' = tran + buf.dsize in
            let sum : tran + dlen buf' ≡ tran' = omega arith in
            let bytes' = buf'.bytes ++ [] in
            elim (Bool-cases (ltb tran' len)) [
              | inl go ↦
                  let more : tran' < len = ground arith in
                  let next : ReadBuffer = record {
                    bytes = [];
                    dsize = min (len - tran') http_each_body_size;
                  } in
                  let next_size : (0 < next.dsize) × (next.dsize ≤ len - tran') = ground arith in
                  step-content q len tran k ks buf input out (in_content q len tran' next)
                    (body_part buf' ∷ [])
                    (part_full (in_content q len tran buf) buf' is_full
                      ∙ ap (λ s. returned data_finish s (body_part buf' ∷ []))
                          (next_more q len tran tran' buf buf' sum more))
                  ∙ read_content ks q len tran' next input' (out ++ bytes') left' (omega arith)
                      (omega arith) (omega arith) (omega arith) (omega arith)
                  ∙ done_with-eq q len rest_eq (out_full n left' left out buf.bytes input whole)
              | inr end ↦
                  let all_in : tran + dlen buf' ≡ len = ground arith in
                  let n_is : n ≡ left = omega arith in
                  step-content q len tran k ks buf input out (after_content q len)
                    (body_part buf' ∷ [])
                    (part_full (in_content q len tran buf) buf' is_full
                      ∙ ap (λ s. returned data_finish s (body_part buf' ∷ []))
                          (next_end q len tran buf buf' all_in))
                  ∙ read_all_end ks
                      (record { stream = after_content q len; rest = input'; out = out ++ bytes' })
                      refl
                  ∙ done_with-eq q len (ap (λ m. drop m input) n_is) (
                      ap (◌++◌ out) (append-nil (buf.bytes ++ take n input))
                      ∙ ap (λ m. out ++ (buf.bytes ++ take m input)) n_is)
            ]
      ]

  -- The stream at the start of a body.
  fresh :
      (s : HttpStream)
      → s.body_type ≡ content
      → 0 < s.body_len
      → after_header s
        ≡ in_content s s.body_len 0
            (record { bytes = []; dsize = min http_each_body_size s.body_len })
  unfolding after_header new_buffer
  fresh s t pos = rw t (ground arith)

  -- A stream whose header announces a body of `len` bytes reads exactly that body: if the input has
  -- that many bytes, then whatever sizes `recv` gives the pieces, after at most `len` calls it is
  -- reading headers again, has handed on the first `len` bytes of the input in their order, and the
  -- next byte is the first one behind them.
  pub read_message-content :
      (ks : List ℕ) (stream : HttpStream) (input : Bytes)
      → stream.body_type ≡ content
      → 0 < stream.body_len
      → stream.body_len ≤ length ks
      → stream.body_len ≤ length input
      → read_all max_size handle ks
          (record { stream = after_header stream; rest = input; out = [] })
        ≡ some (record {
          stream = after_content stream stream.body_len;
          rest = drop stream.body_len input;
          out = take stream.body_len input;
        })
  read_message-content ks stream input t pos hk hi =
      let first : ReadBuffer = record {
        bytes = [];
        dsize = min http_each_body_size stream.body_len;
      } in
      let size : (0 < first.dsize) × (first.dsize ≤ stream.body_len) = ground arith in
      ap (λ s. read_all max_size handle ks (record { stream = s; rest = input; out = [] }))
        (fresh stream t pos)
      ∙ read_content ks stream stream.body_len 0 first input [] stream.body_len (omega arith)
          (omega arith) (omega arith) hk hi
