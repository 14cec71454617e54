-- ===== src/IniFile/Values.antt =====
-- A value that is set is read back, and no other one is changed.
use https_proxy_server.Base.{
  Bool, true, false, ◌&&◌, Option, some, [], ◌∷◌, if◌then◌else◌, ◌≡◌, inl, inr, refl, sym, ap, ◌∙◌,
  Bytes, Bool-cases,
}
use https_proxy_server.Http.Parser.Types.{bytes_eq, find}
use https_proxy_server.Http.Parser.HeaderMap.{bytes_eq_iff}
use https_proxy_server.IniFile.{
  trim, KeyValue, Sections, find_section, set_key, set_in, set_value_string, find_in, or_default,
  get_value_string,
}

bytes_eq-of : (a b : Bytes) → bytes_eq a b ≡ true → a ≡ b
bytes_eq-of a b e = (bytes_eq_iff a b).0 e

bytes_eq_left : (a b c : Bytes) → bytes_eq a b ≡ true → bytes_eq a c ≡ bytes_eq b c
bytes_eq_left a b c e = ap (λ k. bytes_eq k c) (bytes_eq-of a b e)

differ : (a b c : Bytes) → bytes_eq a b ≡ false → bytes_eq a c ≡ true → bytes_eq b c ≡ false
differ a b c e f = elim (Bool-cases (bytes_eq b c)) [
  | inl g ↦
      let same : a ≡ b = bytes_eq-of a c f ∙ sym (bytes_eq-of b c g) in
      absurd (let z = sym ((bytes_eq_iff a b).1 same) ∙ e in cc)
  | inr g ↦ g
]

if_swap :
    {A : Type 0} (x y : Bool) (a b c : A)
    → (x ≡ true → y ≡ false)
    → (if x then a else (if y then b else c)) ≡ (if y then b else (if x then a else c))
if_swap true true a b c h = absurd (let z = h refl in cc)
if_swap true false a b c h = refl
if_swap false y a b c h = refl

find-set_key :
    (name value k : Bytes) (kv : KeyValue)
    → find k (set_key name value kv) ≡ (if bytes_eq name k then some value else find k kv)
unfolding find set_key
find-set_key name value k [] = refl
find-set_key name value k ((key, old) ∷ kv) = elim (Bool-cases (bytes_eq key name)) [
  | inl e ↦
      let same = bytes_eq_left key name k e in
      rw (e, same) (elim (Bool-cases (bytes_eq name k)) [ inl f ↦ rw f | inr f ↦ rw f ])
  | inr e ↦
      rw (e, find-set_key name value k kv)
        (if_swap (bytes_eq key k) (bytes_eq name k) (some old) (some value) (find k kv)
          (differ key name k e))
]

-- The value at a section and a key.
abbrev pub value_at : Bytes → Bytes → Sections → Option Bytes
value_at section key datas = find_in (find_section section datas) key

value_at-set_in :
    (section name value s k : Bytes) (datas : Sections)
    → value_at s k (set_in section name value datas)
      ≡ (if bytes_eq section s && bytes_eq name k then some value else value_at s k datas)
unfolding set_in find_section find
value_at-set_in section name value s k [] = elim (Bool-cases (bytes_eq section s)) [
  | inl e ↦ rw e
  | inr e ↦ rw e
]
value_at-set_in section name value s k ((key, kv) ∷ datas) =
    elim (Bool-cases (bytes_eq key section)) [
      | inl e ↦
          let same = bytes_eq_left key section s e in
          rw (set_in, e, same)
            (elim (Bool-cases (bytes_eq section s)) [
              | inl f ↦ rw f (find-set_key name value k kv)
              | inr f ↦ rw f
            ])
      | inr e ↦
          rw (set_in, e)
            (elim (Bool-cases (bytes_eq key s)) [
              | inl f ↦ rw (f, differ key section s e f)
              | inr f ↦ rw (f, value_at-set_in section name value s k datas)
            ])
    ]

-- What `set_value_string` puts in is what `get_value_string` of the same section and key gives, up
-- to spaces around all of them, and every other section and key gives what it gave before.
pub get_value_string-set_value_string :
    (section key val s k d : Bytes) (datas : Sections)
    → get_value_string s k d (set_value_string section key val datas) ≡ (
        if bytes_eq (trim section) (trim s) && bytes_eq (trim key) (trim k)
        then (true, trim val)
        else get_value_string s k d datas)
unfolding get_value_string set_value_string
get_value_string-set_value_string section key val s k d datas =
    let there = bytes_eq (trim section) (trim s) && bytes_eq (trim key) (trim k) in
    ap (λ o. or_default o (trim d))
      (value_at-set_in (trim section) (trim key) (trim val) (trim s) (trim k) datas)
    ∙ elim (Bool-cases there) [ inl e ↦ rw e | inr e ↦ rw e ]
