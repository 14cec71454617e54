-- ===== src/Uri/RoundTrip.antt =====
-- Decoding undoes encoding, for every text of bytes.
use https_proxy_server.Base.{
  ℕ, ◌<◌, ◌/◌, ◌%◌, Bool, true, false, ◌≡◌, ◌≢◌, inl, inr, refl, ap, arith, [], ◌∷◌, ◌++◌, length,
  Bytes, if◌then◌else◌, ◌==◌, ◌&&◌, ◌||◌, not, ==→eq, Bool-cases, passes_from, table_lem, ◌∙◌,
}
use https_proxy_server.Uri.Spec.{decode_text, EndsClean, decode_uri-decode_text}
use https_proxy_server.Uri.{
  DecodePlus, null, positive, is_unreserved, hex_digit, encode_byte, encode_uri, is_xdigit,
  digit_value, is_escape, escape_value, decode_byte, decode_uri,
}

-- Every byte of a text is below 256.
abbrev pub AreBytes : Bytes → Type 0
AreBytes [] = Unit {0}
AreBytes (c ∷ cs) = (c < 256) × AreBytes cs

-- `space_as_plus` and `decode_plus` belong together: a plus stands for a space exactly if
-- `decode_plus` is positive.
abbrev pub Agree : Bool → DecodePlus → Type 0
Agree true plus = plus ≡ positive
Agree false plus = plus ≡ null

hex_table : passes_from 0 16 (λ d. is_xdigit (hex_digit d) && digit_value (hex_digit d) == d) ≡ true
unfolding passes_from is_xdigit hex_digit digit_value
hex_table = refl

hex_digit_lem :
    (d : ℕ) → d < 16 → (is_xdigit (hex_digit d) ≡ true) × (digit_value (hex_digit d) ≡ d)
hex_digit_lem d h =
    let t =
      table_lem 16 (λ d. is_xdigit (hex_digit d) && digit_value (hex_digit d) == d) d hex_table h in
    ground arith

unreserved_table :
    passes_from 0 256
      (λ c. not (is_unreserved c) || not (c == b'%' || c == b'+' || c == b'?' || c == b' '))
    ≡ true
unfolding passes_from is_unreserved
unreserved_table = refl

is_unreserved-plain :
    (c : ℕ) → c < 256 → is_unreserved c ≡ true → (c ≢ b'%') × (c ≢ b'+') × (c ≢ b'?') × (c ≢ b' ')
is_unreserved-plain c h u =
    let t =
      table_lem 256
        (λ c. not (is_unreserved c) || not (c == b'%' || c == b'+' || c == b'?' || c == b' ')) c
        unreserved_table h in
    ground arith

-- A byte that starts no escape and is not changed is decoded to itself.
decode_text_plain :
    (c : ℕ) (rest : Bytes) (plus : DecodePlus)
    → c ≢ b'%'
    → c ≢ b'+'
    → c ≢ b'?'
    → decode_text (c ∷ rest) plus ≡ c ∷ decode_text rest plus
unfolding decode_byte is_escape
decode_text_plain c [] plus a b d = ground arith
decode_text_plain c (x ∷ []) plus a b d = ground arith
decode_text_plain c (x ∷ y ∷ rest) plus a b d = ground arith

decode_text_plus :
    (rest : Bytes) (plus : DecodePlus)
    → plus ≡ positive
    → decode_text (b'+' ∷ rest) plus ≡ b' ' ∷ decode_text rest plus
unfolding decode_byte is_escape
decode_text_plus [] plus a = ground arith
decode_text_plus (x ∷ []) plus a = ground arith
decode_text_plus (x ∷ y ∷ rest) plus a = ground arith

decode_text_escape :
    (c : ℕ) (rest : Bytes) (plus : DecodePlus)
    → c < 256
    → decode_text (b'%' ∷ hex_digit (c / 16) ∷ hex_digit (c % 16) ∷ rest) plus
      ≡ c ∷ decode_text rest plus
unfolding decode_byte is_escape escape_value
decode_text_escape c rest plus h = ground (arith, hex_digit_lem (c / 16), hex_digit_lem (c % 16))

decode_text_blank :
    (c : ℕ) (space_as_plus : Bool) (rest : Bytes) (plus : DecodePlus)
    → c < 256
    → c ≡ b' '
    → Agree space_as_plus plus
    → decode_text
        ((if space_as_plus then b'+' ∷ [] else b'%' ∷ hex_digit (c / 16) ∷ hex_digit (c % 16) ∷ [])
          ++ rest)
        plus
      ≡ c ∷ decode_text rest plus
decode_text_blank c true rest plus h e a = rw e (decode_text_plus rest plus a)
decode_text_blank c false rest plus h e a = decode_text_escape c rest plus h

decode_text-encode_byte :
    (c : ℕ) (space_as_plus : Bool) (rest : Bytes) (plus : DecodePlus)
    → c < 256
    → Agree space_as_plus plus
    → decode_text (encode_byte c space_as_plus ++ rest) plus ≡ c ∷ decode_text rest plus
unfolding encode_byte
decode_text-encode_byte c s rest plus h a = elim (Bool-cases (is_unreserved c)) [
  | inl u ↦ rw u (let p = is_unreserved-plain c h u in decode_text_plain c rest plus p.0 p.1 p.2)
  | inr r ↦ rw r (elim (Bool-cases (c == b' ')) [
    | inl blank ↦ rw blank (decode_text_blank c s rest plus h (==→eq c b' ' blank) a)
    | inr other ↦ rw other (decode_text_escape c rest plus h)
  ])
]

decode_text-encode_uri :
    (text : Bytes) (space_as_plus : Bool) (plus : DecodePlus)
    → AreBytes text
    → Agree space_as_plus plus
    → decode_text (encode_uri text space_as_plus) plus ≡ text
unfolding encode_uri
decode_text-encode_uri [] s plus h a = refl
decode_text-encode_uri (c ∷ text) s plus h a =
    decode_text-encode_byte c s (encode_uri text s) plus h.0 a
    ∙ ap (◌∷◌ c) (decode_text-encode_uri text s plus h.1 a)

-- An encoded text leaves no escape open, since a digit is no percent sign.
hex_digit-ne : (d : ℕ) → d < 16 → hex_digit d ≢ b'%'
unfolding hex_digit
hex_digit-ne d h = ground arith

EndsClean-plain :
    (c : ℕ) (text rest : Bytes) → c ≢ b'%' → EndsClean text rest → EndsClean (c ∷ text) rest
unfolding is_escape
EndsClean-plain c [] rest n h = ground arith
EndsClean-plain c (x ∷ []) rest n h = (ground arith, h)
EndsClean-plain c (x ∷ y ∷ text) rest n h = h

EndsClean-escape :
    (x y : ℕ) (text rest : Bytes)
    → x ≢ b'%'
    → y ≢ b'%'
    → EndsClean text rest
    → EndsClean (b'%' ∷ x ∷ y ∷ text) rest
EndsClean-escape x y text rest p q h =
    EndsClean-plain x (y ∷ text) rest p (EndsClean-plain y text rest q h)

EndsClean-encode_uri :
    (text rest : Bytes) (s : Bool) → AreBytes text → EndsClean (encode_uri text s) rest
unfolding encode_uri encode_byte
EndsClean-encode_uri [] rest s h = tt
EndsClean-encode_uri (c ∷ text) rest s h =
    let ih = EndsClean-encode_uri text rest s h.1 in
    let code = encode_uri text s in
    elim (Bool-cases (is_unreserved c)) [
      | inl u ↦ rw u (EndsClean-plain c code rest (is_unreserved-plain c h.0 u).0 ih)
      | inr r ↦ rw r (elim (Bool-cases (c == b' ' && s)) [
        | inl blank ↦ rw blank (EndsClean-plain b'+' code rest (λ e. omega arith) ih)
        | inr other ↦ rw other (
            EndsClean-escape (hex_digit (c / 16)) (hex_digit (c % 16)) code rest
              (hex_digit-ne (c / 16) (omega arith)) (hex_digit-ne (c % 16) (omega arith)) ih)
      ])
    ]

-- Decoding the encoding of any text of bytes gives the text back, whatever lies in memory behind
-- it, where a space is written as a plus and `decode_plus` is positive, or neither is so and
-- `decode_plus` is 0.
pub decode_uri-encode_uri :
    (text rest : Bytes) (space_as_plus : Bool) (plus : DecodePlus)
    → AreBytes text
    → Agree space_as_plus plus
    → decode_uri
        (encode_uri text space_as_plus ++ rest)
        (length (encode_uri text space_as_plus))
        plus
      ≡ text
decode_uri-encode_uri text rest s plus h a =
    decode_uri-decode_text (encode_uri text s) rest plus (EndsClean-encode_uri text rest s h)
    ∙ decode_text-encode_uri text s plus h a
