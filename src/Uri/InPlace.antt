-- ===== src/Uri/InPlace.antt =====
-- The in-place decoder against the one that appends to a string.
use https_proxy_server.Base.{
  ℕ, zero, suc, ◌-◌, ◌≤◌, ◌<◌, true, false, ◌≡◌, ◌⊎◌, inl, inr, refl, sym, ap, arith, [], ◌∷◌, ◌++◌,
  length, drop, Bytes, ltb, ◌∙◌, none, some, take-append, suc-sub_three,
}
use https_proxy_server.Uri.Spec.{
  decode_text, EndsClean, decode_byte_plain, decode_byte-used_one, decode_byte_front, used_cases,
  is_escape_alone, is_escape_pair, decode_uri-decode_text,
}
use https_proxy_server.Uri.{
  DecodePlus, negative, positive, is_escape, is_xdigit, decode_byte, decode_uri, decode_loop,
  close_gap, decode_in_place_loop, decode_in_place,
}

-- What `memmove` leaves behind the text: the two last bytes of the escape and the text.
abbrev stale : ℕ → ℕ → Bytes → Bytes
stale a b text = drop (length text) (a ∷ b ∷ text)

stale-append :
    (a b : ℕ) (text rest : Bytes)
    → drop (length text) (a ∷ b ∷ text ++ rest) ≡ stale a b text ++ rest
stale-append a b [] rest = refl
stale-append a b (x ∷ text) rest = stale-append b x text rest

suc-sub_two : (n : ℕ) → suc (suc (suc n)) - 2 ≡ suc n
suc-sub_two n = omega arith

suc-suc-sub_two : (n : ℕ) → suc (suc n) - 2 ≡ n
suc-suc-sub_two n = omega arith

suc-suc-ltb_two : (n : ℕ) → ltb (suc (suc n)) 2 ≡ false
suc-suc-ltb_two n = ground arith

close_gap-append :
    (c a b : ℕ) (text rest : Bytes)
    → close_gap (c ∷ a ∷ b ∷ text ++ rest) (suc (suc (suc (length text))))
      ≡ text ++ (stale a b text ++ rest)
unfolding close_gap
close_gap-append c a b text rest =
    rw (suc-sub_three, suc-sub_two, take-append text rest, stale-append a b text rest)

is_escape_same : (x y : ℕ) (rest : Bytes) → is_escape (x ∷ y ∷ x ∷ rest) ≡ false
unfolding is_escape is_xdigit
is_escape_same x y rest = ground arith

EndsClean-stale : (a b : ℕ) (text rest : Bytes) → EndsClean text (stale a b text ++ rest)
EndsClean-stale a b [] rest = tt
EndsClean-stale a b (x ∷ []) rest = is_escape_same x b rest
EndsClean-stale a b (x ∷ y ∷ []) rest = (is_escape_same x y (y ∷ rest), is_escape_same y x rest)
EndsClean-stale a b (x ∷ y ∷ z ∷ text) rest = EndsClean-stale b x (y ∷ z ∷ text) rest

decode_in_place_loop-decode_text :
    (fuel : ℕ) (text rest : Bytes) (plus : DecodePlus)
    → length text ≤ fuel
    → EndsClean text rest
    → decode_in_place_loop fuel (text ++ rest) (length text) plus ≡ some (decode_text text plus)
unfolding decode_in_place_loop
decode_in_place_loop-decode_text zero [] rest plus h e = refl
decode_in_place_loop-decode_text zero (c ∷ text) rest plus h e = absurd (omega arith)
decode_in_place_loop-decode_text (suc fuel) [] rest plus h e = refl
decode_in_place_loop-decode_text (suc fuel) (c ∷ []) rest plus h e =
    let d = decode_byte (c ∷ []) plus in
    rw (
      decode_byte_plain (c ∷ rest) (c ∷ []) plus refl e (is_escape_alone c),
      decode_byte-used_one (c ∷ []) plus (is_escape_alone c),
      decode_in_place_loop-decode_text fuel [] rest d.plus (omega arith) tt,
    )
decode_in_place_loop-decode_text (suc fuel) (c ∷ x ∷ []) rest plus h e =
    let d = decode_byte (c ∷ x ∷ []) plus in
    rw (
      decode_byte_plain (c ∷ x ∷ rest) (c ∷ x ∷ []) plus refl e.0 (is_escape_pair c x),
      decode_byte-used_one (c ∷ x ∷ []) plus (is_escape_pair c x),
      decode_in_place_loop-decode_text fuel (x ∷ []) rest d.plus (omega arith) e.1,
    )
decode_in_place_loop-decode_text (suc fuel) (c ∷ x ∷ y ∷ text) rest plus h e =
    let d = decode_byte (c ∷ x ∷ y ∷ []) plus in
    rw (decode_byte_front c x y (text ++ rest) plus) (elim (used_cases (c ∷ x ∷ y ∷ []) plus) [
      | inl one ↦
          rw one
            (rw (decode_in_place_loop-decode_text fuel (x ∷ y ∷ text) rest d.plus (omega arith) e))
      | inr three ↦
          rw (three, close_gap-append c x y text rest)
            (rw (
              suc-suc-ltb_two (length text),
              suc-suc-sub_two (length text),
              decode_in_place_loop-decode_text fuel text (stale x y text ++ rest) d.plus
                  (omega arith) (EndsClean-stale x y text rest),
            ))
    ])

-- A text that leaves no escape open at its end is decoded in place to what the other decoder
-- appends to its string, with no `memmove` of a wrapped length.
pub decode_in_place-eq-decode_uri :
    (text rest : Bytes) (plus : DecodePlus)
    → EndsClean text rest
    → decode_in_place (text ++ rest) (length text) plus
      ≡ some (decode_uri (text ++ rest) (length text) plus)
unfolding decode_in_place
decode_in_place-eq-decode_uri text rest plus e =
    decode_in_place_loop-decode_text (length text) text rest plus (omega arith) e
    ∙ ap some (sym (decode_uri-decode_text text rest plus e))

-- Where bytes of memory behind the text complete an escape that the text ends in, the length given
-- to `memmove` wraps around below zero.
pub decode_in_place_open_escape :
    (x y len : ℕ) (rest : Bytes) (plus : DecodePlus)
    → is_xdigit x ≡ true
    → is_xdigit y ≡ true
    → 0 < len
    → len < 3
    → decode_in_place (b'%' ∷ x ∷ y ∷ rest) len plus ≡ none
unfolding decode_in_place decode_in_place_loop decode_byte is_escape
decode_in_place_open_escape x y zero rest plus hx hy h k = absurd (omega arith)
decode_in_place_open_escape x y (suc zero) rest plus hx hy h k = ground arith
decode_in_place_open_escape x y (suc (suc zero)) rest plus hx hy h k = ground arith
decode_in_place_open_escape x y (suc (suc (suc n))) rest plus hx hy h k = absurd (omega arith)

decode_byte_negative :
    (uri : Bytes)
    → ((decode_byte uri negative).byte ≡ (decode_byte uri positive).byte)
      × ((decode_byte uri negative).used ≡ (decode_byte uri positive).used)
      × (((decode_byte uri negative).plus ≡ negative)
          ⊎ ((decode_byte uri negative).plus ≡ positive))
      × ((decode_byte uri positive).plus ≡ positive)
unfolding decode_byte
decode_byte_negative uri = ground arith

decode_loop_negative :
    (fuel : ℕ) (uri : Bytes) (len : ℕ)
    → decode_loop fuel uri len negative ≡ decode_loop fuel uri len positive
unfolding decode_loop
decode_loop_negative zero uri len = refl
decode_loop_negative (suc fuel) uri zero = refl
decode_loop_negative (suc fuel) uri (suc n) =
    let d = decode_byte uri positive in
    ground (
      arith,
      decode_byte_negative uri,
      decode_loop_negative fuel (drop d.used uri) (suc n - d.used),
    )

-- A negative `decode_plus` decodes a plus at once, not only behind a question mark: it decodes as
-- a positive one does.
pub decode_uri_negative :
    (uri : Bytes) (len : ℕ) → decode_uri uri len negative ≡ decode_uri uri len positive
unfolding decode_uri
decode_uri_negative uri len = decode_loop_negative len uri len
