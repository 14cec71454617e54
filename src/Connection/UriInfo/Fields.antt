-- ===== src/Connection/UriInfo/Fields.antt =====
-- What `get_uri_info` finds is the first value of its name, whole.
use https_proxy_server.Base.{
  ℕ, zero, suc, ◌+◌, ◌-◌, ◌≤◌, ◌<◌, true, ◌≡◌, ◌≢◌, ◌⊎◌, inl, inr, refl, sym, ap, subst, ◌∙◌, arith,
  Option, none, some, [], ◌∷◌, ◌==◌, length, take, take_all, drop, get_elem?, all, not, Bytes,
  Bool-cases, Option-cases, ==→eq, length-drop,
}
use https_proxy_server.Http.Stream.{starts_alike}
use https_proxy_server.Http.Parser.FirstLine.{http_post}
use https_proxy_server.Connection.UriInfo.Ints.{IsInt, atoi-IsInt}
use https_proxy_server.Connection.UriInfo.{
  offset_by, strcasestr, strchr, atoi, sc_match1, sc_match2, sc_match3, sc_match4, UriInfo, server,
  client, end_or, field_after, server_info, client_info, get_uri_info,
}

-- The word stands at the offset, in whatever case.
abbrev pub StandsAt : Bytes → Bytes → ℕ → Type 0
StandsAt word text i = starts_alike (drop i text) word ≡ true

-- The first place where the word stands, or none at all.
abbrev pub IsFirst : Bytes → Bytes → Option ℕ → Type 0
IsFirst word text none = (j : ℕ) → ¬ StandsAt word text j
IsFirst word text (some i) = StandsAt word text i × ((j : ℕ) → j < i → ¬ StandsAt word text j)

starts_alike-nil : (word : Bytes) (j : ℕ) → word ≢ [] → ¬ StandsAt word [] j
starts_alike-nil [] j n e = n refl
starts_alike-nil (w ∷ word) zero n e = cc
starts_alike-nil (w ∷ word) (suc j) n e = cc

plus_cases : (o : Option ℕ) → (offset_by 1 o ≡ none) ⊎ ((i : ℕ) × (o ≡ some i))
plus_cases none = inl refl
plus_cases (some i) = inr (i, refl)

IsFirst-offset_by :
    (word : Bytes) (t : ℕ) (text : Bytes) (o : Option ℕ)
    → ¬ StandsAt word (t ∷ text) 0
    → IsFirst word text o
    → IsFirst word (t ∷ text) (offset_by 1 o)
IsFirst-offset_by word t text none n f = nowhere
  where
    nowhere : (j : ℕ) → ¬ StandsAt word (t ∷ text) j
    nowhere zero = n
    nowhere (suc j) = f j
IsFirst-offset_by word t text (some i) n (s, f) = (there i s, before)
  where
    there : (i : ℕ) → StandsAt word text i → StandsAt word (t ∷ text) (1 + i)
    there i s = rw (one_plus i) s
      where
        one_plus : (i : ℕ) → 1 + i ≡ suc i
        one_plus i = omega arith

    before : (j : ℕ) → j < 1 + i → ¬ StandsAt word (t ∷ text) j
    before zero l = n
    before (suc j) l = f j (omega arith)

strcasestr-IsFirst : (text word : Bytes) → word ≢ [] → IsFirst word text (strcasestr text word)
unfolding strcasestr
strcasestr-IsFirst [] word n = λ j. starts_alike-nil word j n
strcasestr-IsFirst (t ∷ text) word n = elim (Bool-cases (starts_alike (t ∷ text) word)) [
  | inl e ↦ rw e (e, λ j l. absurd (omega arith))
  | inr e ↦ rw e (
      IsFirst-offset_by word t text _ (λ s. let z = sym e ∙ s in cc)
        (strcasestr-IsFirst text word n))
]

starts_alike-length :
    (text word : Bytes) → starts_alike text word ≡ true → length word ≤ length text
starts_alike-length text [] e = omega arith
starts_alike-length [] (w ∷ word) e = cc
starts_alike-length (t ∷ text) (w ∷ word) e =
    let h = starts_alike-length text word (ground arith) in omega arith

-- The value runs from `b` to `e`: it holds no `&`, and ends at one or with the text.
pub record IsValue (text : Bytes) (b e : ℕ) : Type 0 where
  pub order : b ≤ e
  pub within : e ≤ length text
  pub plain : all (λ c. not (c == b'&')) (take (e - b) (drop b text)) ≡ true
  pub stop : (e ≡ length text) ⊎ (get_elem? text e ≡ some b'&')

strchr-some :
    (text : Bytes) (c i : ℕ)
    → strchr text c ≡ some i
    → (i < length text)
      × (all (λ x. not (x == c)) (take i text) ≡ true)
      × (get_elem? text i ≡ some c)
unfolding strchr
strchr-some [] c i e = cc
strchr-some (t ∷ text) c i e = elim (Bool-cases (t == c)) [
  | inl h ↦
      let z : some 0 ≡ some i = rw h at e in
      let i_is : 0 ≡ i = cc in rw (sym i_is) (omega arith, refl, ap some (==→eq t c h))
  | inr h ↦ elim (Option-cases (strchr text c)) [
    | inl n ↦ absurd (let z = rw (h, n) at e in cc)
    | inr (k, n) ↦
        let z : some (1 + k) ≡ some i = rw (h, n) at e in
        let i_is : 1 + k ≡ i = cc in
        let one : 1 + k ≡ suc k = omega arith in
        let (l, a, g) = strchr-some text c k n in rw (sym i_is, one) (omega arith, rw (h, a), g)
  ]
]

strchr-none : (text : Bytes) (c : ℕ) → strchr text c ≡ none → all (λ x. not (x == c)) text ≡ true
unfolding strchr
strchr-none [] c e = refl
strchr-none (t ∷ text) c e = elim (Bool-cases (t == c)) [
  | inl h ↦ absurd (let z = rw h at e in cc)
  | inr h ↦ elim (Option-cases (strchr text c)) [
    | inl n ↦ rw (h, strchr-none text c n)
    | inr (k, n) ↦ absurd (let z = rw (h, n) at e in cc)
  ]
]

get_elem?-drop : (text : Bytes) (b i : ℕ) → get_elem? (drop b text) i ≡ get_elem? text (b + i)
get_elem?-drop text zero i = ap (get_elem? text) (omega arith)
get_elem?-drop [] (suc b) i = refl
get_elem?-drop (t ∷ text) (suc b) i =
    get_elem?-drop text b i ∙ sym (ap (get_elem? (t ∷ text)) suc_plus)
  where
    suc_plus : suc b + i ≡ suc (b + i)
    suc_plus = omega arith

IsValue-end :
    (text : Bytes) (b : ℕ)
    → b ≤ length text
    → IsValue text b (end_or (length text) (offset_by b (strchr (drop b text) b'&')))
IsValue-end text b h = elim (Option-cases (strchr (drop b text) b'&')) [
  | inl n ↦
      let len = length-drop b text in
      let whole : take (length text - b) (drop b text) ≡ drop b text =
        ap (λ k. take k (drop b text)) (sym len) ∙ take_all (drop b text) in
      rw n (record {
        order = h;
        within = omega arith;
        plain = ap (all (λ c. not (c == b'&'))) whole ∙ strchr-none (drop b text) b'&' n;
        stop = inl refl;
      })
  | inr (i, n) ↦
      let (l, a, g) = strchr-some (drop b text) b'&' i n in
      let len = length-drop b text in
      let i_is : b + i - b ≡ i = omega arith in
      rw n (record {
        order = omega arith;
        within = omega arith;
        plain = ap (λ k. all (λ c. not (c == b'&')) (take k (drop b text))) i_is ∙ a;
        stop = inr (sym (get_elem?-drop text b i) ∙ g);
      })
]

-- A value that was found stands behind the first place of its name; one that was not found has its
-- name nowhere.
abbrev pub IsField : Bytes → Bytes → Option (ℕ × ℕ) → Type 0
IsField word text none = IsFirst word text none
IsField word text (some (b, e)) =
    (i : ℕ) × (b ≡ i + length word) × IsFirst word text (some i) × IsValue text b e

field_after-IsField : (word text : Bytes) → word ≢ [] → IsField word text (field_after word text)
unfolding field_after
field_after-IsField word text n =
    let first = strcasestr-IsFirst text word n in
    elim (Option-cases (strcasestr text word)) [
      | inl m ↦
          let is : field_after word text ≡ none = rw (field_after, m) in
          subst (IsField word text) (sym is) (subst (IsFirst word text) m first)
      | inr (i, m) ↦
          let f : IsFirst word text (some i) = subst (IsFirst word text) m first in
          let fits : i + length word ≤ length text = omega (
            arith,
            starts_alike-length (drop i text) word f.0,
            length-drop i text,
            some_length word n,
          ) in
          let beg = i + length word in
          let is : field_after word text
              ≡ some (beg, end_or (length text) (offset_by beg (strchr (drop beg text) b'&'))) =
            rw (field_after, m) in
          subst (IsField word text) (sym is) (i, refl, f, IsValue-end text beg fits)
    ]
  where
    some_length : (word : Bytes) → word ≢ [] → 0 < length word
    some_length [] n = absurd (n refl)
    some_length (w ∷ word) n = omega arith

-- What the result says of the target: a client's request, or a server's answer to a POST that names
-- the device and the connection.
abbrev pub IsUriInfo : ℕ → Bytes → UriInfo → Type 0
IsUriInfo verb uri (client dev callback) =
    ((verb ≢ http_post) ⊎ IsFirst sc_match1 uri none)
    × IsField sc_match3 uri dev
    × IsField sc_match4 uri callback
IsUriInfo verb uri (server beg none) =
    (verb ≡ http_post)
    × ((i : ℕ) × (beg ≡ i + length sc_match1) × IsFirst sc_match1 uri (some i))
    × IsFirst sc_match2 (drop beg uri) none
IsUriInfo verb uri (server beg (some (end, sock))) =
    (verb ≡ http_post)
    × ((i : ℕ) × (beg ≡ i + length sc_match1) × IsFirst sc_match1 uri (some i))
    × ((k : ℕ) × (end ≡ beg + k) × IsFirst sc_match2 (drop beg uri) (some k))
    × (sock ≡ atoi (drop (end + length sc_match2) uri))
    × IsInt sock

client_info-IsUriInfo :
    (verb : ℕ) (uri : Bytes)
    → (verb ≢ http_post) ⊎ IsFirst sc_match1 uri none
    → IsUriInfo verb uri (client_info uri)
unfolding client_info
client_info-IsUriInfo verb uri h =
    (h, field_after-IsField sc_match3 uri (λ e. cc), field_after-IsField sc_match4 uri (λ e. cc))

server_info-IsUriInfo :
    (verb i : ℕ) (uri : Bytes)
    → verb ≡ http_post
    → IsFirst sc_match1 uri (some i)
    → IsUriInfo verb uri (server_info (i + length sc_match1) uri)
unfolding server_info
server_info-IsUriInfo verb i uri v f =
    let beg = i + length sc_match1 in
    let first = strcasestr-IsFirst (drop beg uri) sc_match2 (λ e. cc) in
    elim (Option-cases (strcasestr (drop beg uri) sc_match2)) [
      | inl m ↦
          let is : server_info beg uri ≡ server beg none = rw (server_info, m) in
          subst (IsUriInfo verb uri) (sym is)
            (v, (i, refl, f), subst (IsFirst sc_match2 (drop beg uri)) m first)
      | inr (k, m) ↦
          let is : server_info beg uri
              ≡ server beg (some (beg + k, atoi (drop (beg + k + length sc_match2) uri))) =
            rw (server_info, m) in
          subst (IsUriInfo verb uri) (sym is) (
            v,
            (i, refl, f),
            (k, refl, subst (IsFirst sc_match2 (drop beg uri)) m first),
            refl,
            atoi-IsInt (drop (beg + k + length sc_match2) uri),
          )
    ]

-- `get_uri_info` takes a request for a server's answer exactly if it is a POST with the text of one;
-- then the device id stands between that text and the first `&ConnectID=` behind it, whose number,
-- as an `int` of 32 bits, is the socket. Any other request is a client's: its device id and its callback are the values of
-- the first `DeviceID=` and `callback=`, up to the next `&` or the end, and are missing only where
-- these names stand nowhere. The case of letters in the names is ignored.
pub get_uri_info-IsUriInfo : (verb : ℕ) (uri : Bytes) → IsUriInfo verb uri (get_uri_info verb uri)
unfolding get_uri_info
get_uri_info-IsUriInfo verb uri =
    let first = strcasestr-IsFirst uri sc_match1 (λ e. cc) in
    elim (Option-cases (strcasestr uri sc_match1)) [
      | inl m ↦
          let is : get_uri_info verb uri ≡ client_info uri = rw (get_uri_info, m) in
          subst (IsUriInfo verb uri) (sym is)
            (client_info-IsUriInfo verb uri (inr (subst (IsFirst sc_match1 uri) m first)))
      | inr (i, m) ↦ elim (Bool-cases (verb == http_post)) [
        | inl v ↦
            let is : get_uri_info verb uri ≡ server_info (i + length sc_match1) uri =
              rw (get_uri_info, m, v) in
            subst (IsUriInfo verb uri) (sym is) (
              server_info-IsUriInfo verb i uri (==→eq verb http_post v)
                (subst (IsFirst sc_match1 uri) m first))
        | inr v ↦
            let is : get_uri_info verb uri ≡ client_info uri = rw (get_uri_info, m, v) in
            subst (IsUriInfo verb uri) (sym is) (
              client_info-IsUriInfo verb uri
                (inl (λ e. let z = sym (ap (λ k. k == http_post) e) ∙ v in cc)))
      ]
    ]
