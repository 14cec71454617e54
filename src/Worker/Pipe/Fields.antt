-- ===== src/Worker/Pipe/Fields.antt =====
-- The fields of a message are read back.
use https_proxy_server.Base.{
  ℕ, zero, suc, ◌-◌, ◌*◌, ◌/◌, ◌<◌, Bool, true, false, not, ◌≡◌, refl, sym, ap, ◌∙◌, arith, [], ◌∷◌,
  ◌++◌, ◌==◌, length, take, drop, get_or, Bytes, all, take-append, drop-append, length-append,
  get_or-append, append_assoc,
}
use https_proxy_server.Worker.Pipe.{
  bytes_of, number_of, inet6_addrstrlen, Job, add_sock, match_sock, exit_worker, of_bool,
  add_message, match_message, read_add, read_match, add_size, match_size_of,
}
use https_proxy_server.Cstring.{until_nul}

-- `256 ^ w`
abbrev pub limit : ℕ → ℕ
limit zero = 1
limit (suc w) = 256 * limit w

number_of-bytes_of : (w n : ℕ) → n < limit w → number_of (bytes_of w n) ≡ n
unfolding number_of bytes_of
number_of-bytes_of zero n h = omega arith
number_of-bytes_of (suc w) n h = omega (arith, number_of-bytes_of w (n / 256) (omega arith))

length-bytes_of : (w n : ℕ) → length (bytes_of w n) ≡ w
unfolding bytes_of
length-bytes_of zero n = refl
length-bytes_of (suc w) n = ap suc (length-bytes_of w (n / 256))

until_nul-text :
    (ip junk : Bytes) → all (λ c. not (c == 0)) ip ≡ true → until_nul (ip ++ 0 ∷ junk) ≡ ip
unfolding until_nul
until_nul-text [] junk h = refl
until_nul-text (c ∷ ip) junk h = let ih = until_nul-text ip junk in ground arith

-- The part of a message that starts behind some bytes, and the bytes in front of it.
part : (a b c : Bytes) (n m : ℕ) → length a ≡ n → length b ≡ m → take m (drop n (a ++ (b ++ c))) ≡ b
part a b c n m e f =
    ap (λ k. take m (drop k (a ++ (b ++ c)))) (sym e)
    ∙ ap (take m) (drop-append a (b ++ c))
    ∙ ap (λ k. take k (b ++ c)) (sym f)
    ∙ take-append b c

last_byte : (a : Bytes) (b n : ℕ) → length a ≡ n → get_or (a ++ b ∷ []) n 0 ≡ b
last_byte a b n e = ap (λ k. get_or (a ++ b ∷ []) k 0) (sym e) ∙ get_or-append a [] b 0

of_bool_lem : (b : Bool) → not (of_bool b == 0) ≡ b
of_bool_lem true = refl
of_bool_lem false = refl

-- The address is a C string that fits its array, the pointer is not null, and the numbers fit their
-- fields.
abbrev pub IsJob : Job → Type 0
IsJob (add_sock sock ip port ssl) =
    (sock < limit 4)
    × (all (λ c. not (c == 0)) ip ≡ true)
    × (length ip < inet6_addrstrlen)
    × (port < limit 2)
IsJob (match_sock src_conn dst_sock flag) =
    (0 < src_conn) × (src_conn < limit 8) × (dst_sock < limit 4)
IsJob exit_worker = ⊥

pub read_match-match_message :
    (src_conn dst_sock : ℕ) (flag : Bool)
    → IsJob (match_sock src_conn dst_sock flag)
    → read_match (match_message src_conn dst_sock flag) ≡ match_sock src_conn dst_sock flag
unfolding read_match match_message
read_match-match_message src_conn dst_sock flag (p, h, k) =
    let a = bytes_of 8 src_conn in
    let b = bytes_of 4 dst_sock in
    let c = of_bool flag ∷ [] in
    let la = length-bytes_of 8 src_conn in
    let lb = length-bytes_of 4 dst_sock in
    let conn : number_of (take 8 (a ++ (b ++ c))) ≡ src_conn =
      ap (λ n. number_of (take n (a ++ (b ++ c)))) (sym la)
      ∙ ap number_of (take-append a (b ++ c))
      ∙ number_of-bytes_of 8 src_conn h in
    let dst : number_of (take 4 (drop 8 (a ++ (b ++ c)))) ≡ dst_sock =
      ap number_of (part a b c 8 4 la lb) ∙ number_of-bytes_of 4 dst_sock k in
    let both : length (a ++ b) ≡ 12 = omega (arith, length-append a b) in
    let byte : get_or (a ++ (b ++ c)) 12 0 ≡ of_bool flag =
      ap (λ t. get_or t 12 0) (sym (append_assoc a b c))
      ∙ last_byte (a ++ b) (of_bool flag) 12 both in
    ap
      (λ n.
        match_sock n (number_of (take 4 (drop 8 (a ++ (b ++ c)))))
          (not (get_or (a ++ (b ++ c)) 12 0 == 0)))
      conn
    ∙ ap (λ n. match_sock src_conn n (not (get_or (a ++ (b ++ c)) 12 0 == 0))) dst
    ∙ ap (λ b. match_sock src_conn dst_sock (not (b == 0))) byte
    ∙ ap (match_sock src_conn dst_sock) (of_bool_lem flag)

pub length-match_message :
    (src_conn dst_sock : ℕ) (flag : Bool)
    → length (match_message src_conn dst_sock flag) ≡ match_size_of
unfolding match_message
length-match_message src_conn dst_sock flag =
    let a = bytes_of 8 src_conn in
    let b = bytes_of 4 dst_sock in
    omega (
      arith,
      length-append a (b ++ of_bool flag ∷ []),
      length-append b (of_bool flag ∷ []),
      length-bytes_of 8 src_conn,
      length-bytes_of 4 dst_sock,
    )

-- The same of a message with an address.
module _ (junk : Bytes) (sock : ℕ) (ip : Bytes) (port : ℕ) (ssl : Bool)
    (j : IsJob (add_sock sock ip port ssl))
    (full : length junk ≡ inet6_addrstrlen - 1 - length ip) where
  abbrev sock_bytes : Bytes
  sock_bytes = bytes_of 4 sock

  abbrev ip_bytes : Bytes
  ip_bytes = ip ++ 0 ∷ junk

  abbrev port_bytes : Bytes
  port_bytes = bytes_of 2 port

  abbrev tail : Bytes
  tail = of_bool ssl ∷ []

  ip_length : length ip_bytes ≡ inet6_addrstrlen
  ip_length = let k = j.2 in omega (arith, length-append ip (0 ∷ junk))

  pub length-add_message : length (add_message junk sock ip port ssl) ≡ add_size
  unfolding add_message
  length-add_message = omega (
    arith,
    length-append sock_bytes (ip_bytes ++ (port_bytes ++ tail)),
    length-append ip_bytes (port_bytes ++ tail),
    length-append port_bytes tail,
    length-bytes_of 4 sock,
    length-bytes_of 2 port,
    ip_length,
  )

  pub read_add-add_message :
      read_add (add_message junk sock ip port ssl) ≡ add_sock sock ip port ssl
  unfolding read_add add_message
  read_add-add_message =
      let whole = sock_bytes ++ (ip_bytes ++ (port_bytes ++ tail)) in
      let front = sock_bytes ++ ip_bytes in
      let (h, plain, short, k) = j in
      let la = length-bytes_of 4 sock in
      let lp = length-bytes_of 2 port in
      let front_length : length front ≡ 50 =
        omega (arith, length-append sock_bytes ip_bytes, ip_length) in
      let rest_length : length (front ++ port_bytes) ≡ 52 =
        omega (arith, length-append front port_bytes) in
      let front_is : whole ≡ front ++ (port_bytes ++ tail) =
        sym (append_assoc sock_bytes ip_bytes (port_bytes ++ tail)) in
      let rest_is : whole ≡ (front ++ port_bytes) ++ tail =
        front_is ∙ sym (append_assoc front port_bytes tail) in
      let sock_is : number_of (take 4 whole) ≡ sock =
        ap (λ n. number_of (take n whole)) (sym la)
        ∙ ap number_of (take-append sock_bytes (ip_bytes ++ (port_bytes ++ tail)))
        ∙ number_of-bytes_of 4 sock h in
      let ip_is : until_nul (take inet6_addrstrlen (drop 4 whole)) ≡ ip =
        ap until_nul (part sock_bytes ip_bytes (port_bytes ++ tail) 4 inet6_addrstrlen la ip_length)
        ∙ until_nul-text ip junk plain in
      let port_is : number_of (take 2 (drop 50 whole)) ≡ port =
        ap (λ t. number_of (take 2 (drop 50 t))) front_is
        ∙ ap number_of (part front port_bytes tail 50 2 front_length lp)
        ∙ number_of-bytes_of 2 port k in
      let ssl_is : not (get_or whole 52 0 == 0) ≡ ssl =
        ap (λ t. not (get_or t 52 0 == 0)) rest_is
        ∙ ap (λ b. not (b == 0)) (last_byte (front ++ port_bytes) (of_bool ssl) 52 rest_length)
        ∙ of_bool_lem ssl in
      four sock_is ip_is port_is ssl_is
    where
      four :
          {s s' p p' : ℕ} {i i' : Bytes} {b b' : Bool}
          → s ≡ s'
          → i ≡ i'
          → p ≡ p'
          → b ≡ b'
          → add_sock s i p b ≡ add_sock s' i' p' b'
      four e f g h = rw (e, f, g, h)
