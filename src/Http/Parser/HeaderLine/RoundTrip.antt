-- ===== src/Http/Parser/HeaderLine/RoundTrip.antt =====
-- The header-line parser reads header lines back.
use https_proxy_server.Base.{
  ℕ, ◌+◌, ◌-◌, Bool, true, false, not, ◌&&◌, ◌≡◌, refl, sym, ap, ◌∙◌, arith, [], ◌∷◌, ◌++◌, ◌==◌,
  suc, length, length-append, drop, drop-append, Bytes, take-append, add-zero, all, Option, none,
  some, drop-add, append-nil, append_assoc,
}
use https_proxy_server.Http.Parser.Types.{
  ParseResult, start, header_name, header_value, header_almost_done, finished, HeaderMap,
  HttpHeader, HttpParser, is_token, is_ctl, slice, insert,
}
use https_proxy_server.Http.Parser.HeaderLine.{header_line_loop}

-- `name: value\r\n` for each header, the empty line, and the bytes that follow it.
abbrev pub print_headers : HeaderMap → Bytes → Bytes
print_headers [] rest = 13 ∷ 10 ∷ rest
print_headers ((name, value) ∷ headers) rest =
    name ++ (b':' ∷ b' ' ∷ value ++ (13 ∷ 10 ∷ print_headers headers rest))

abbrev pub insert_all : HeaderMap → HeaderMap → HeaderMap
insert_all [] map = map
insert_all ((name, value) ∷ headers) map = insert_all headers (insert name value map)

abbrev pub is_value_byte : ℕ → Bool
is_value_byte c = not (is_ctl c)

-- A name is some token bytes, and a value holds no control byte.
abbrev pub is_header : Bytes × Bytes → Bool
is_header ([], value) = false
is_header (c ∷ name, value) = is_token c && (all is_token name && all is_value_byte value)

-- What a token byte is not.
is_token-plain :
    (c : ℕ)
    → is_token c ≡ true
    → ((c == b':') ≡ false) × ((c == b' ') ≡ false) × ((c == 9) ≡ false) × ((c == 13) ≡ false)
unfolding is_token
is_token-plain c h = ground arith

is_value_byte-plain : (c : ℕ) → is_value_byte c ≡ true → ((c == 13) ≡ false) × (is_ctl c ≡ false)
unfolding is_ctl
is_value_byte-plain c h = ground arith

module _ (text : Bytes) (q : HttpParser) where
  name_phase :
      (name rest v : Bytes) (n : ℕ)
      → all is_token name ≡ true
      → header_line_loop (name ++ rest) text (record q { state = header_name; off = n }) v
        ≡ header_line_loop rest text (record q { state = header_name; off = n + length name }) v
  unfolding header_line_loop
  name_phase [] rest v n h = rw add-zero
  name_phase (c ∷ name) rest v n h =
      ground (arith, is_token-plain c, name_phase name rest v (n + 1))

  value_phase :
      (value rest v : Bytes) (n : ℕ)
      → all is_value_byte value ≡ true
      → header_line_loop (value ++ rest) text (record q { state = header_value; off = n }) v
        ≡ header_line_loop rest text
            (record q { state = header_value; off = n + length value })
            (v ++ value)
  unfolding header_line_loop
  value_phase [] rest v n h = rw (add-zero, append-nil)
  value_phase (c ∷ value) rest v n h = ground (
    arith,
    is_value_byte-plain c,
    value_phase value rest (v ++ c ∷ []) (n + 1),
    append_assoc v (c ∷ []) value,
  )

-- The parser at the start of a header line, where `headers` are stored and the line before may
-- have a name from `beg` to `end` whose value is not stored yet.
abbrev pub at_line : HttpParser → ℕ → Option ℕ → ℕ → HeaderMap → HttpParser
at_line q n beg end headers = record q {
  state = start;
  off = n;
  name_beg = beg;
  name_end = end;
  hdr = record q.hdr { headers = headers };
}

abbrev pub stored : Bytes → Option ℕ → ℕ → Bytes → HeaderMap → HeaderMap
stored text none end value headers = headers
stored text (some beg) end value headers = insert (slice text beg end) value headers

abbrev pub fresh_value : Option ℕ → Bytes → Bytes
fresh_value none value = value
fresh_value (some beg) value = []

-- The parser in a name that starts at `n`.
abbrev in_name : HttpParser → ℕ → ℕ → HeaderMap → HttpParser
in_name q n end headers = record q {
  state = header_name;
  off = n + 1;
  name_beg = some n;
  name_end = end;
  hdr = record q.hdr { headers = headers };
}

name_start :
    (text rest : Bytes) (q : HttpParser) (n end : ℕ) (beg : Option ℕ) (headers : HeaderMap) (c : ℕ)
    (v : Bytes)
    → is_token c ≡ true
    → header_line_loop (c ∷ rest) text (at_line q n beg end headers) v
      ≡ header_line_loop rest text
          (in_name q n end (stored text beg end v headers))
          (fresh_value beg v)
unfolding header_line_loop
name_start text rest q n end none headers c v h = ground (arith, is_token-plain c)
name_start text rest q n end (some beg) headers c v h = ground (arith, is_token-plain c)

line_phase :
    (text rest : Bytes) (q : HttpParser) (n end : ℕ) (beg : Option ℕ) (headers : HeaderMap) (c : ℕ)
    (name value v : Bytes)
    → fresh_value beg v ≡ []
    → is_token c ≡ true
    → all is_token name ≡ true
    → all is_value_byte value ≡ true
    → header_line_loop
        (c ∷ name ++ (b':' ∷ b' ' ∷ value ++ (13 ∷ 10 ∷ rest)))
        text
        (at_line q n beg end headers)
        v
      ≡ header_line_loop rest text
          (at_line q
            (n + 1 + length name + 1 + 1 + length value + 1 + 1)
            (some n)
            (n + 1 + length name)
            (stored text beg end v headers))
          value
unfolding header_line_loop
line_phase text rest q n end beg headers c name value v f hc hn hv =
    let headers' = stored text beg end v headers in
    let q1 = in_name q n end headers' in
    let q2 = record q1 { name_end = n + 1 + length name } in
    name_start text (name ++ (b':' ∷ b' ' ∷ value ++ (13 ∷ 10 ∷ rest))) q n end beg headers c v hc
    ∙ name_phase text q1 name (b':' ∷ b' ' ∷ value ++ (13 ∷ 10 ∷ rest)) (fresh_value beg v) (n + 1)
        hn
    ∙ value_phase text q2 value (13 ∷ 10 ∷ rest) (fresh_value beg v) (n + 1 + length name + 1 + 1)
        hv
    ∙ rw f

-- The last header is stored at the end of the empty line.
end_phase :
    (text rest : Bytes) (q : HttpParser) (n end : ℕ) (beg : Option ℕ) (headers : HeaderMap)
    (v : Bytes)
    → header_line_loop (13 ∷ 10 ∷ rest) text (at_line q n beg end headers) v ≡ (
      finished,
      record q {
        state = header_almost_done;
        off = n + 1 + 1;
        name_beg = beg;
        name_end = end;
        hdr = record q.hdr { headers = stored text beg end v headers };
        hdr_len = n + 1 + 1;
      },
    )
unfolding header_line_loop
end_phase text rest q n end none headers v = refl
end_phase text rest q n end (some beg) headers v = refl

line_of : ℕ → Bytes → Bytes → Bytes
line_of c name value = c ∷ name ++ (b':' ∷ b' ' ∷ value ++ (13 ∷ 10 ∷ []))

line_of-append :
    (c : ℕ) (name value rest : Bytes)
    → c ∷ name ++ (b':' ∷ b' ' ∷ value ++ (13 ∷ 10 ∷ rest)) ≡ line_of c name value ++ rest
unfolding line_of
line_of-append c name value rest = simp append_assoc

length-line_of :
    (n c : ℕ) (name value : Bytes)
    → n + length (line_of c name value) ≡ n + 1 + length name + 1 + 1 + length value + 1 + 1
unfolding line_of
length-line_of n c name value = omega (
  arith,
  length-append (c ∷ name) (b':' ∷ b' ' ∷ value ++ (13 ∷ 10 ∷ [])),
  length-append value (13 ∷ 10 ∷ []),
)

module _ (text : Bytes) (n c : ℕ) (name value rest : Bytes)
    (here : drop n text ≡ c ∷ name ++ (b':' ∷ b' ' ∷ value ++ (13 ∷ 10 ∷ rest))) where
  name_slice : slice text n (n + 1 + length name) ≡ c ∷ name
  unfolding slice
  name_slice =
      let k : n + 1 + length name - n ≡ suc (length name) = omega arith in
      rw (k, here) (take-append (c ∷ name) (b':' ∷ b' ' ∷ value ++ (13 ∷ 10 ∷ rest)))

  next_line : drop (n + 1 + length name + 1 + 1 + length value + 1 + 1) text ≡ rest
  next_line =
      ap (λ k. drop k text) (sym (length-line_of n c name value))
      ∙ sym (drop-add n (length (line_of c name value)) text)
      ∙ rw (here, line_of-append c name value rest) (drop-append (line_of c name value) rest)

-- What is known of the parser when the empty line is read.
abbrev pub HeadersRead : HttpHeader → HeaderMap → ℕ → ParseResult × HttpParser → Type 0
HeadersRead hdr headers total r =
    (parser : HttpParser) × (r ≡ (finished, parser))
    × (parser.hdr ≡ record hdr { headers = headers })
    × (parser.hdr_len ≡ total)
    × (parser.off ≡ total)
    × (parser.state ≡ header_almost_done)

pub headers_phase :
    (lines : HeaderMap) (rest text : Bytes) (q : HttpParser) (n end : ℕ) (beg : Option ℕ)
    (headers : HeaderMap) (v : Bytes)
    → fresh_value beg v ≡ []
    → all is_header lines ≡ true
    → drop n text ≡ print_headers lines rest
    → HeadersRead q.hdr
        (insert_all lines (stored text beg end v headers))
        (n + length (print_headers lines []))
        (header_line_loop (print_headers lines rest) text (at_line q n beg end headers) v)
headers_phase [] rest text q n end beg headers v f h here =
    (_, end_phase text rest q n end beg headers v, refl, omega arith, omega arith, refl)
headers_phase (([], value) ∷ lines) rest text q n end beg headers v f h here = cc
headers_phase ((c ∷ name, value) ∷ lines) rest text q n end beg headers v f h here =
    let next = print_headers lines rest in
    let n' = n + 1 + length name + 1 + 1 + length value + 1 + 1 in
    let ok : (is_token c ≡ true)
        × (all is_token name ≡ true)
        × (all is_value_byte value ≡ true)
        × (all is_header lines ≡ true) =
      ground arith in
    let (parser, e, hdr, hl, off, st) =
      headers_phase lines rest text q n' (n + 1 + length name) (some n)
        (stored text beg end v headers) value refl ok.3 (next_line text n c name value next here) in
    (
      parser,
      line_phase text next q n end beg headers c name value v f ok.0 ok.1 ok.2 ∙ e,
      hdr ∙ rw (name_slice text n c name value next here),
      omega (arith, hl, printed),
      omega (arith, off, printed),
      st,
    )
  where
    printed :
        n + length (print_headers ((c ∷ name, value) ∷ lines) [])
        ≡ n + 1 + length name + 1 + 1 + length value + 1 + 1 + length (print_headers lines [])
    printed = omega (
      arith,
      ap length (line_of-append c name value (print_headers lines [])),
      length-append (line_of c name value) (print_headers lines []),
      length-line_of n c name value,
    )
