-- ===== src/Uri/Spec.antt =====
-- What decoding means for a text on its own, by recursion on the text: an escape is taken where
-- the percent sign and both its digits are there.
use https_proxy_server.Base.{
  ℕ, zero, suc, ◌≤◌, false, ◌≡◌, refl, arith, [], ◌∷◌, ◌++◌, length, get_or, Bytes, if◌then◌else◌,
  suc-sub_one, suc-sub_three, inl, inr, ◌⊎◌, ◌==◌,
}
use https_proxy_server.Uri.{
  DecodePlus, is_escape, escape_value, decode_byte, decode_loop, decode_uri,
}

abbrev pub decode_text : Bytes → DecodePlus → Bytes
decode_text [] plus = []
decode_text (c ∷ []) plus = let d = decode_byte (c ∷ []) plus in d.byte ∷ []
decode_text (c ∷ x ∷ []) plus =
    let d = decode_byte (c ∷ x ∷ []) plus in d.byte ∷ decode_text (x ∷ []) d.plus
decode_text (c ∷ x ∷ y ∷ text) plus =
    let d = decode_byte (c ∷ x ∷ y ∷ []) plus in
    let over = decode_text (x ∷ y ∷ text) d.plus in
    let on = decode_text text d.plus in if d.used == 3 then d.byte ∷ on else d.byte ∷ over

-- The bytes behind the text complete no escape that the text leaves open at its end.
abbrev pub EndsClean : Bytes → Bytes → Type 0
EndsClean [] rest = Unit {0}
EndsClean (c ∷ []) rest = is_escape (c ∷ rest) ≡ false
EndsClean (c ∷ x ∷ []) rest = (is_escape (c ∷ x ∷ rest) ≡ false) × (is_escape (x ∷ rest) ≡ false)
EndsClean (c ∷ x ∷ y ∷ text) rest = EndsClean (x ∷ y ∷ text) rest

pub EndsClean-tail : (c : ℕ) (text rest : Bytes) → EndsClean (c ∷ text) rest → EndsClean text rest
EndsClean-tail c [] rest h = tt
EndsClean-tail c (x ∷ []) rest h = h.1
EndsClean-tail c (x ∷ y ∷ text) rest h = h

-- A round looks at three bytes, and past the first only for an escape.
pub decode_byte_plain :
    (u v : Bytes) (plus : DecodePlus)
    → get_or u 0 0 ≡ get_or v 0 0
    → is_escape u ≡ false
    → is_escape v ≡ false
    → decode_byte u plus ≡ decode_byte v plus
unfolding decode_byte
decode_byte_plain u v plus c hu hv = ground arith

pub decode_byte-used_one :
    (u : Bytes) (plus : DecodePlus) → is_escape u ≡ false → (decode_byte u plus).used ≡ 1
unfolding decode_byte
decode_byte-used_one u plus h = ground arith

pub decode_byte_front :
    (c x y : ℕ) (rest : Bytes) (plus : DecodePlus)
    → decode_byte (c ∷ x ∷ y ∷ rest) plus ≡ decode_byte (c ∷ x ∷ y ∷ []) plus
unfolding decode_byte is_escape escape_value
decode_byte_front c x y rest plus = refl

pub used_cases :
    (u : Bytes) (plus : DecodePlus)
    → ((decode_byte u plus).used ≡ 1) ⊎ ((decode_byte u plus).used ≡ 3)
unfolding decode_byte
used_cases u plus = ground arith

pub is_escape_alone : (c : ℕ) → is_escape (c ∷ []) ≡ false
unfolding is_escape
is_escape_alone c = ground arith

pub is_escape_pair : (c x : ℕ) → is_escape (c ∷ x ∷ []) ≡ false
unfolding is_escape
is_escape_pair c x = ground arith

decode_loop_end : (fuel : ℕ) (uri : Bytes) (plus : DecodePlus) → decode_loop fuel uri 0 plus ≡ []
unfolding decode_loop
decode_loop_end zero uri plus = refl
decode_loop_end (suc fuel) uri plus = refl

pub decode_loop-decode_text :
    (fuel : ℕ) (text rest : Bytes) (plus : DecodePlus)
    → length text ≤ fuel
    → EndsClean text rest
    → decode_loop fuel (text ++ rest) (length text) plus ≡ decode_text text plus
unfolding decode_loop
decode_loop-decode_text zero [] rest plus h e = refl
decode_loop-decode_text zero (c ∷ text) rest plus h e = absurd (omega arith)
decode_loop-decode_text (suc fuel) [] rest plus h e = refl
decode_loop-decode_text (suc fuel) (c ∷ []) rest plus h e = rw (
  decode_byte_plain (c ∷ rest) (c ∷ []) plus refl e (is_escape_alone c),
  decode_byte-used_one (c ∷ []) plus (is_escape_alone c),
  decode_loop_end fuel,
)
decode_loop-decode_text (suc fuel) (c ∷ x ∷ []) rest plus h e =
    let d = decode_byte (c ∷ x ∷ []) plus in
    rw (
      decode_byte_plain (c ∷ x ∷ rest) (c ∷ x ∷ []) plus refl e.0 (is_escape_pair c x),
      decode_byte-used_one (c ∷ x ∷ []) plus (is_escape_pair c x),
      decode_loop-decode_text fuel (x ∷ []) rest d.plus (omega arith) e.1,
    )
decode_loop-decode_text (suc fuel) (c ∷ x ∷ y ∷ text) rest plus h e =
    let d = decode_byte (c ∷ x ∷ y ∷ []) plus in
    rw (decode_byte_front c x y (text ++ rest) plus) (elim (used_cases (c ∷ x ∷ y ∷ []) plus) [
      | inl one ↦
          rw (one, suc-sub_one)
            (rw (decode_loop-decode_text fuel (x ∷ y ∷ text) rest d.plus (omega arith) e))
      | inr three ↦
          rw (three, suc-sub_three)
            (rw (
              decode_loop-decode_text fuel text rest d.plus (omega arith)
                (EndsClean-tail y text rest (EndsClean-tail x (y ∷ text) rest e))))
    ])

-- Decoding `len` bytes of memory is decoding the text they are, whatever lies behind it, as long
-- as that completes no escape.
pub decode_uri-decode_text :
    (text rest : Bytes) (plus : DecodePlus)
    → EndsClean text rest
    → decode_uri (text ++ rest) (length text) plus ≡ decode_text text plus
unfolding decode_uri
decode_uri-decode_text text rest plus e =
    decode_loop-decode_text (length text) text rest plus (omega arith) e
