-- ===== src/Http/Response/Answers.antt =====
-- Where the answers fit the array that they are printed to, and what they then are.
use https_proxy_server.Base.{
  ℕ, ◌<◌, ◌≤◌, Bool, true, false, ◌≡◌, refl, sym, ap, ◌∙◌, arith, none, some, List, [], ◌∷◌, ◌++◌,
  ltb, length, Bytes, codes, length-append, append_assoc, if◌then◌else◌, all, not, ◌==◌, ◌&&◌,
}
use mathlib.Core.List.{Permᴰ, Perm}
use mathlib.Core.Logic.{∥∥₁_elim}
use mathlib.Core.Bool.{Bool-set}
use https_proxy_server.Cstring.{until_nul, decimal}
use https_proxy_server.Http.Status.{StatusLine, null, fault, text, http_get_status_line}
use https_proxy_server.Http.Parser.Types.{HeaderMap, insert}
use https_proxy_server.Http.Response.{
  SendMode, send_close, is_closed_after, is_sent_at_once, Response,
}
use https_proxy_server.Http.Response.Pages.{
  json_error, error_map, answer, send_error, quoted, http_ok,
}
use https_proxy_server.Http.Response.Filled.{
  whole_response, response_text, status_words, send_response_lem,
}
use https_proxy_server.Http.Response.Pieces.{IsPlain, ArePlain, decimal-IsPlain}

are_plain : HeaderMap → Bool
are_plain headers =
    all (λ (h : Bytes × Bytes). all (λ c. not (c == 0)) h.0 && all (λ c. not (c == 0)) h.1) headers

are_plain_of : (headers : HeaderMap) → ArePlain headers → are_plain headers ≡ true
unfolding are_plain
are_plain_of [] h = refl
are_plain_of ((name, value) ∷ headers) (a, b, h) = rw (a, b) (are_plain_of headers h)

are_plain_sound : (headers : HeaderMap) → are_plain headers ≡ true → ArePlain headers
unfolding are_plain
are_plain_sound [] h = tt
are_plain_sound ((name, value) ∷ headers) h =
    let rest = are_plain_sound headers in (ground arith, ground arith, rest (ground arith))

all-Permᴰ {ℓ} : {A : Type ℓ} (test : A → Bool) {a b : List A} → Permᴰ a b → all test a ≡ all test b
all-Permᴰ test Permᴰ.nil = refl
all-Permᴰ test (Permᴰ.cons e p) = let ih = all-Permᴰ test p in rw (e, ih)
all-Permᴰ test (Permᴰ.swap {a} {b} {a'} {b'} {l} e f) =
    rw (e, f) (swapped (test b') (test a') (all test l))
  where
    swapped : (x y z : Bool) → (x && (y && z)) ≡ (y && (x && z))
    swapped true true z = refl
    swapped true false z = refl
    swapped false true z = refl
    swapped false false z = refl
all-Permᴰ test (Permᴰ.trans p q) = all-Permᴰ test p ∙ all-Permᴰ test q

ArePlain-Perm : (a b : HeaderMap) → Perm a b → ArePlain a → ArePlain b
unfolding are_plain
ArePlain-Perm a b p h = are_plain_sound b (
    sym (∥∥₁_elim p (Bool-set (are_plain a) (are_plain b)) (λ d. all-Permᴰ _ d)) ∙ are_plain_of a h)

-- A whole response that is sent, and after which the connection is closed.
abbrev pub last_response : ℕ → ℕ → Bytes → HeaderMap → Bytes → Response
last_response major minor words headers body =
    whole_response (response_text major words minor headers body) true true

-- The headers of an answer with an error.
abbrev pub error_headers : Bytes → Bytes → Bytes → HeaderMap
error_headers server_name type body =
    (codes "Access-Control-Allow-Origin", codes "*")
    ∷ (codes "Content-Type", type)
    ∷ (codes "Server", server_name)
    ∷ (codes "Connection", codes "close")
    ∷ (codes "Content-Length", decimal (length body))
    ∷ []

abbrev pub error_type : Bool → Bytes
error_type browser = if browser then codes "application/json" else codes "text/html"

-- The JSON as it reads.
abbrev pub json_text : Bytes → Bytes → ℕ → Bytes → Bytes
json_text server_name callback status line =
    until_nul callback
    ++ (codes "({\"code\":"
        ++ (decimal status
            ++ (codes ",\"message\":\""
                ++ (line ++ (codes "\",\"server\":\"" ++ (server_name ++ codes "\"})"))))))

-- The page as it reads.
abbrev pub page_text : Bytes → Bytes
page_text line =
    codes "<HTML><HEAD>\n<TITLE>"
    ++ (line
        ++ (codes "</TITLE>\n</HEAD><BODY>\n<H1>" ++ (line ++ codes "</H1>\n</BODY></HTML>\n")))

abbrev error_body : Bytes → Bool → Bytes → ℕ → Bytes → Bytes
error_body server_name browser callback status line =
    if browser then json_text server_name callback status line else page_text line

json_error-json_text :
    (server_name callback : Bytes) (status : ℕ) (line : Bytes)
    → json_error server_name callback status line ≡ json_text server_name callback status line
json_error-json_text server_name callback status line =
    ap
      (λ t.
        until_nul callback
        ++ (codes "({\"code\":" ++ (decimal status ++ (codes ",\"message\":\"" ++ t))))
      (append_assoc line (b'"' ∷ []) (codes ",\"server\":" ++ (quoted server_name ++ codes "})"))
        ∙ ap (λ t. line ++ (codes "\",\"server\":\"" ++ t))
            (append_assoc server_name (b'"' ∷ []) (codes "})")))

ok_words : status_words http_ok ≡ codes "200 OK"
unfolding http_get_status_line
ok_words = refl

module _ (server_name : Bytes) (order : HeaderMap → HeaderMap) (major minor : ℕ)
    (close : Bool) where
  answer-overflows :
      (status : ℕ) (body : Bytes) (headers : HeaderMap) (flag : SendMode)
      → 1024 ≤ length body
      → answer server_name order major minor close status body headers flag ≡ none
  unfolding answer
  answer-overflows status body headers flag h =
      let t : ltb (length body) 1024 ≡ false = ground arith in rw t

  answer-IsAnswered :
      (permutes : (headers : HeaderMap) → Perm headers (order headers))
      → major < 128
      → minor < 128
      → (status : ℕ) (words body : Bytes) (headers : HeaderMap) (flag : SendMode)
      → status_words status ≡ words
      → length body < 1024
      → let all_headers = insert (codes "Content-Length") (decimal (length body)) headers in
        ArePlain all_headers
        → answer server_name order major minor close status body headers flag
          ≡ some (
              whole_response
                (response_text major words minor (order all_headers) body)
                (is_closed_after flag close)
                (is_sent_at_once flag))
  unfolding answer
  answer-IsAnswered permutes hi lo status words body headers flag w short plain =
      let t : ltb (length body) 1024 ≡ true = ground arith in
      let hs = insert (codes "Content-Length") (decimal (length body)) headers in
      rw t (
        send_response_lem major minor close status (some (order hs)) (some body) flag hi lo
          (ArePlain-Perm hs (order hs) (permutes hs) plain)
        ∙ ap
            (λ l. some (
              whole_response (response_text major l minor (order hs) body)
                (is_closed_after flag close) (is_sent_at_once flag)))
            w)

  -- What `send_error` answers for a status that has a line, where the page or the JSON that is
  -- printed has fewer than 1024 bytes, in whatever order the hash map gives its headers: a browser
  -- gets status 200 and JSON with the callback's name, the status, its line and the server's name, any
  -- other client the status itself and a page with its line; the headers are the five of an error, of which Content-Length is the
  -- length of the body; the bytes are the response as HTTP has it; and the connection is to be closed
  -- once they are written. The version's numbers are below 128 and the server's name has no NUL.
  pub send_error-IsAnswered :
      (permutes : (headers : HeaderMap) → Perm headers (order headers))
      → IsPlain server_name
      → major < 128
      → minor < 128
      → (browser : Bool) (callback : Bytes) (status : ℕ) (line : Bytes)
      → http_get_status_line status ≡ text line
      → let body = error_body server_name browser callback status line in
        length body < 1024
        → (hs : HeaderMap) × Perm (error_headers server_name (error_type browser) body) hs
          × (send_error server_name order major minor close browser callback status
              ≡ some (last_response major minor (if browser then codes "200 OK" else line) hs body))
  unfolding send_error insert
  send_error-IsAnswered permutes plain hi lo true callback status line e short =
      let body = error_body server_name true callback status line in
      let hs = error_headers server_name (error_type true) body in
      let digits = decimal-IsPlain (length body) in
      (
        order hs,
        permutes hs,
        rw (send_error, e, json_error-json_text server_name callback status line)
            (answer-IsAnswered permutes hi lo http_ok (codes "200 OK") body
              (error_map server_name (error_type true)) send_close ok_words short
              (refl, refl, (refl, refl, (refl, plain, (refl, refl, (refl, digits, tt)))))),
      )
  send_error-IsAnswered permutes plain hi lo false callback status line e short =
      let body = error_body server_name false callback status line in
      let hs = error_headers server_name (error_type false) body in
      let words : status_words status ≡ line = rw e in
      let digits = decimal-IsPlain (length body) in
      (
        order hs,
        permutes hs,
        rw (send_error, e)
            (answer-IsAnswered permutes hi lo status line body
              (error_map server_name (error_type false)) send_close words short
              (refl, refl, (refl, refl, (refl, plain, (refl, refl, (refl, digits, tt)))))),
      )

  length-json_error :
      (callback : Bytes) (status : ℕ) (line : Bytes)
      → length (until_nul callback) ≤ length (json_error server_name callback status line)
  length-json_error callback status line =
      let l = length-append (until_nul callback) in omega (arith, l _)

  -- A browser's callback of 1024 bytes or more makes `send_error` write past the end of its array,
  -- or fail its assertion, for every status.
  pub send_error-overflows :
      (callback : Bytes) (status : ℕ)
      → 1024 ≤ length (until_nul callback)
      → send_error server_name order major minor close true callback status ≡ none
  unfolding send_error
  send_error-overflows callback status h = by_line (http_get_status_line status) refl
    where
      by_line :
          (words : StatusLine)
          → http_get_status_line status ≡ words
          → send_error server_name order major minor close true callback status ≡ none
      by_line null e = rw (send_error, e)
      by_line fault e = rw (send_error, e)
      by_line (text line) e =
          let l = length-json_error callback status line in
          rw (send_error, e)
            (answer-overflows http_ok (json_error server_name callback status line)
              (error_map server_name (error_type true)) send_close (omega arith))
