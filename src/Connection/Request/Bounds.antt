-- ===== src/Connection/Request/Bounds.antt =====
-- The device id that a request names fits the arrays it is copied to.
use https_proxy_server.Base.{
  ℕ, zero, suc, ◌-◌, ◌≤◌, Bool, true, false, ◌||◌, ◌≡◌, refl, sym, ap, ◌∙◌, arith, Option, none,
  some, [], ◌∷◌, ◌++◌, ◌==◌, ltb, length, drop, prepend, Bytes, Bool-cases, Option-cases, inl, inr,
}
use https_proxy_server.Cstring.{until_nul, same_text}
use https_proxy_server.Uri.{
  DecodePlus, null, decode_byte, close_gap, decode_in_place_loop, decode_in_place,
}
use https_proxy_server.Http.Parser.Types.{slice}
use https_proxy_server.Connection.UriInfo.{UriInfo, server, client, ℤ, get_uri_info}
use https_proxy_server.Connection.Request.{
  dev_id_max_len, UriAction, Partner, is_busy, ask_server, server_ready, is_bad_length,
  client_request, server_answer, with_info, handle_uri,
}

length-prepend :
    (n c : ℕ) (o : Option Bytes)
    → ((d : Bytes) → o ≡ some d → length d ≤ n)
    → (d : Bytes) → prepend c o ≡ some d
    → length d ≤ suc n
length-prepend n c none f d e = cc
length-prepend n c (some t) f d e =
    let k = f t refl in
    let q : c ∷ t ≡ d = cc in let l : suc (length t) ≡ length d = ap length q in omega arith

-- Decoding in place makes no text longer.
length-decode_in_place_loop :
    (fuel : ℕ) (uri : Bytes) (len : ℕ) (plus : DecodePlus) (d : Bytes)
    → decode_in_place_loop fuel uri len plus ≡ some d
    → length d ≤ len
unfolding decode_in_place_loop
length-decode_in_place_loop zero uri len plus d e =
    let q : [] ≡ d = cc in let l : 0 ≡ length d = ap length q in omega arith
length-decode_in_place_loop (suc fuel) uri zero plus d e =
    let q : [] ≡ d = cc in let l : 0 ≡ length d = ap length q in omega arith
length-decode_in_place_loop (suc fuel) uri (suc n) plus d e =
    let b = decode_byte uri plus in
    let over = length-decode_in_place_loop fuel (drop 1 uri) n b.plus in
    let on = length-decode_in_place_loop fuel (close_gap uri (suc n)) (n - 2) b.plus in
    elim (Bool-cases (b.used == 3)) [
      | inr u ↦ length-prepend n b.byte _ over d (sym (rw (decode_in_place_loop, u)) ∙ e)
      | inl u ↦ elim (Bool-cases (ltb n 2)) [
        | inl t ↦
            let z : decode_in_place_loop (suc fuel) uri (suc n) plus ≡ none =
              rw (decode_in_place_loop, u, t) in
            let w = sym z ∙ e in cc
        | inr t ↦
            let shorter : (t : Bytes)
                → decode_in_place_loop fuel (close_gap uri (suc n)) (n - 2) b.plus ≡ some t
                → length t ≤ n =
              λ t q. let k = on t q in omega arith in
            length-prepend n b.byte _ shorter d (sym (rw (decode_in_place_loop, u, t)) ∙ e)
      ]
    ]

length-until_nul : (text : Bytes) → length (until_nul text) ≤ length text
unfolding until_nul
length-until_nul [] = omega arith
length-until_nul (c ∷ text) = let ih = length-until_nul text in ground arith

-- A device id that is looked for, or that a connection takes, fits its array.
abbrev pub IsBounded : UriAction → Type 0
IsBounded (ask_server dev_id closes_partner) = length dev_id ≤ dev_id_max_len
IsBounded (server_ready dev_id sock) = length dev_id ≤ dev_id_max_len
IsBounded _ = Unit {0}

bad_length_bound : (n : ℕ) → is_bad_length n ≡ false → n ≤ dev_id_max_len
bad_length_bound n e = ground arith

client_request-IsBounded :
    (junk : Bytes) (partner : Option Partner) (text : Bytes)
    → IsBounded (client_request junk partner text)
unfolding client_request decode_in_place
client_request-IsBounded junk partner text = elim (Bool-cases (is_bad_length (length text))) [
  | inl b ↦ rw (client_request, b) tt
  | inr b ↦ elim (Option-cases (decode_in_place (text ++ junk) (length text) null)) [
    | inl m ↦ rw (client_request, b, m) tt
    | inr (d, m) ↦
        let short =
          length-decode_in_place_loop (length text) (text ++ junk) (length text) null d m in
        let plain = length-until_nul d in
        let fits : length (until_nul d) ≤ dev_id_max_len =
          let k = bad_length_bound (length text) b in omega arith in
        by_partner d m b fits partner
  ]
]
  where
    by_partner :
        (d : Bytes)
        → decode_in_place (text ++ junk) (length text) null ≡ some d
        → is_bad_length (length text) ≡ false
        → length (until_nul d) ≤ dev_id_max_len
        → (p : Option Partner) → IsBounded (client_request junk p text)
    by_partner d m b fits none = rw (client_request, b, m) fits
    by_partner d m b fits (some own) =
        elim (Bool-cases (same_text (until_nul own.dev_id) (until_nul d))) [
          | inl s ↦ rw (client_request, b, m, s) tt
          | inr s ↦ elim (Bool-cases (is_busy own.type)) [
            | inl t ↦ rw (client_request, b, m, s, t) fits
            | inr t ↦ rw (client_request, b, m, s, t) tt
          ]
        ]

server_answer-IsBounded :
    (partner : Option Partner) (uri : Bytes) (len : ℕ) (sock : ℤ)
    → IsBounded (server_answer partner uri len sock)
unfolding server_answer decode_in_place
server_answer-IsBounded (some own) uri len sock = rw (server_answer, or_true (is_bad_length len)) tt
  where
    or_true : (b : Bool) → (b || true) ≡ true
    or_true true = refl
    or_true false = refl
server_answer-IsBounded none uri len sock = elim (Bool-cases (is_bad_length len)) [
  | inl b ↦ rw (server_answer, b) tt
  | inr b ↦ elim (Option-cases (decode_in_place uri len null)) [
    | inl m ↦ rw (server_answer, b, m) tt
    | inr (d, m) ↦
        let short = length-decode_in_place_loop len uri len null d m in
        let k = bad_length_bound len b in rw (server_answer, b, m) (omega arith)
  ]
]

-- Whatever the request, and whatever the array of the device id held, the device id that
-- `handle_uri` looks for, or that it gives to a server's connection, has at most the 128 bytes that
-- the messages of the proxy have room for.
pub handle_uri-IsBounded :
    (junk : Bytes) (partner : Option Partner) (verb : ℕ) (uri : Bytes)
    → IsBounded (handle_uri junk partner verb uri).1
unfolding handle_uri
handle_uri-IsBounded junk partner verb uri = by_info (get_uri_info verb uri)
  where
    by_info : (info : UriInfo) → IsBounded (with_info junk partner uri info).1
    by_info (client none callback) = tt
    by_info (client (some (beg, end)) callback) =
        client_request-IsBounded junk partner (slice uri beg end)
    by_info (server beg none) = tt
    by_info (server beg (some (end, sock))) =
        server_answer-IsBounded partner (drop beg uri) (end - beg) sock
