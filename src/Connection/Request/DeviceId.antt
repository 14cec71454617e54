-- ===== src/Connection/Request/DeviceId.antt =====
-- The device id that a request names.
use https_proxy_server.Base.{
  ℕ, ◌-◌, ◌/◌, ◌%◌, Bool, true, false, ◌&&◌, ◌≡◌, refl, sym, ap, ◌∙◌, arith, Option, none, some, [],
  ◌∷◌, ◌++◌, ◌==◌, length, drop, Bytes, Bool-cases, inl, inr,
}
use https_proxy_server.Cstring.{until_nul}
use https_proxy_server.Uri.{
  null, is_unreserved, hex_digit, encode_byte, encode_uri, is_escape, decode_in_place,
}
use https_proxy_server.Uri.Spec.{EndsClean}
use https_proxy_server.Uri.RoundTrip.{AreBytes, decode_uri-encode_uri}
use https_proxy_server.Uri.InPlace.{decode_in_place-eq-decode_uri}
use https_proxy_server.Http.Parser.Types.{slice}
use https_proxy_server.Connection.UriInfo.{server, client, ℤ, get_uri_info}
use https_proxy_server.Connection.Request.{
  ask_server, server_ready, is_bad_length, client_request, server_answer, callback_in, with_info,
  handle_uri,
}

-- A byte that starts no escape may stand in front.
EndsClean-plain :
    (c : ℕ) (text rest : Bytes)
    → (c == b'%') ≡ false
    → EndsClean text rest
    → EndsClean (c ∷ text) rest
unfolding is_escape
EndsClean-plain c [] rest h e = rw h
EndsClean-plain c (x ∷ []) rest h e = (rw h, e)
EndsClean-plain c (x ∷ y ∷ text) rest h e = e

EndsClean-escape :
    (x y : ℕ) (text rest : Bytes)
    → (x == b'%') ≡ false
    → (y == b'%') ≡ false
    → EndsClean text rest
    → EndsClean (b'%' ∷ x ∷ y ∷ text) rest
EndsClean-escape x y text rest hx hy e =
    EndsClean-plain x (y ∷ text) rest hx (EndsClean-plain y text rest hy e)

hex_digit-plain : (d : ℕ) → (hex_digit d == b'%') ≡ false
unfolding hex_digit
hex_digit-plain d = ground arith

percent_reserved : is_unreserved b'%' ≡ false
unfolding is_unreserved
percent_reserved = refl

unreserved_plain : (c : ℕ) → is_unreserved c ≡ true → (c == b'%') ≡ false
unreserved_plain c u = elim (Bool-cases (c == b'%')) [
  | inr e ↦ e
  | inl e ↦
      let q : c ≡ b'%' = ground arith in let z = sym u ∙ ap is_unreserved q ∙ percent_reserved in cc
]

-- What the encoder writes leaves no escape open.
EndsClean-encode_uri : (text : Bytes) (s : Bool) (rest : Bytes) → EndsClean (encode_uri text s) rest
unfolding encode_uri
EndsClean-encode_uri [] s rest = tt
EndsClean-encode_uri (c ∷ text) s rest =
    let ih = EndsClean-encode_uri text s rest in
    elim (Bool-cases (is_unreserved c)) [
      | inl u ↦
          rw (encode_uri, encode_byte, u)
            (EndsClean-plain c (encode_uri text s) rest (unreserved_plain c u) ih)
      | inr u ↦ elim (Bool-cases (c == b' ' && s)) [
        | inl p ↦
            rw (encode_uri, encode_byte, u, p)
              (EndsClean-plain b'+' (encode_uri text s) rest refl ih)
        | inr p ↦
            rw (encode_uri, encode_byte, u, p)
              (EndsClean-escape (hex_digit (c / 16)) (hex_digit (c % 16)) (encode_uri text s) rest
                (hex_digit-plain (c / 16)) (hex_digit-plain (c % 16)) ih)
      ]
    ]

-- The in-place decoder undoes the encoder, whatever stands behind.
decode_in_place-encode_uri :
    (id rest : Bytes)
    → AreBytes id
    → decode_in_place (encode_uri id false ++ rest) (length (encode_uri id false)) null ≡ some id
decode_in_place-encode_uri id rest h =
    decode_in_place-eq-decode_uri (encode_uri id false) rest null
      (EndsClean-encode_uri id false rest)
    ∙ ap some (decode_uri-encode_uri id rest false null h refl)

-- The length of an encoded device id fits.
abbrev pub FitsId : Bytes → Type 0
FitsId id = is_bad_length (length (encode_uri id false)) ≡ false

pub client_request-encode_uri :
    (junk id : Bytes)
    → AreBytes id
    → FitsId id
    → client_request junk none (encode_uri id false) ≡ ask_server (until_nul id) false
unfolding client_request
client_request-encode_uri junk id h f = rw (client_request, f, decode_in_place-encode_uri id junk h)

pub server_answer-encode_uri :
    (id rest : Bytes) (sock : ℤ)
    → AreBytes id
    → FitsId id
    → server_answer none (encode_uri id false ++ rest) (length (encode_uri id false)) sock
      ≡ server_ready id sock
unfolding server_answer
server_answer-encode_uri id rest sock h f =
    rw (server_answer, f, decode_in_place-encode_uri id rest h)

-- The request of a client without a partner that names a device by its encoded id, of at most 128
-- bytes, looks for that device, whatever the array of the device id held: of the id, the bytes in
-- front of its first NUL.
pub handle_uri-ask_server :
    (junk : Bytes) (verb : ℕ) (uri id : Bytes) (beg end : ℕ) (callback : Option (ℕ × ℕ))
    → get_uri_info verb uri ≡ client (some (beg, end)) callback
    → slice uri beg end ≡ encode_uri id false
    → AreBytes id
    → FitsId id
    → handle_uri junk none verb uri ≡ (callback_in uri callback, ask_server (until_nul id) false)
unfolding handle_uri
handle_uri-ask_server junk verb uri id beg end callback info text h f =
    ap (with_info junk none uri) info
    ∙ ap (λ t. (callback_in uri callback, client_request junk none t)) text
    ∙ ap (λ a. (callback_in uri callback, a)) (client_request-encode_uri junk id h f)

-- The answer of a server without a partner, whose device id is encoded in at most 128 bytes of the
-- target, makes its connection the idle one of that device, and the socket it names is looked for.
pub handle_uri-server_ready :
    (junk : Bytes) (verb : ℕ) (uri id rest : Bytes) (beg end : ℕ) (sock : ℤ)
    → get_uri_info verb uri ≡ server beg (some (end, sock))
    → drop beg uri ≡ encode_uri id false ++ rest
    → end - beg ≡ length (encode_uri id false)
    → AreBytes id
    → FitsId id
    → handle_uri junk none verb uri ≡ (none, server_ready id sock)
unfolding handle_uri
handle_uri-server_ready junk verb uri id rest beg end sock info text len h f =
    ap (with_info junk none uri) info
    ∙ ap (λ t. (none, server_answer none t (end - beg) sock)) text
    ∙ ap (λ n. (none, server_answer none (encode_uri id false ++ rest) n sock)) len
    ∙ ap (λ a. (none, a)) (server_answer-encode_uri id rest sock h f)
