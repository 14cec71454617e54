-- ===== src/Tests/Response.antt =====
-- Responses at concrete statuses and headers.
use https_proxy_server.Base.{
  ℕ, zero, suc, ◌<◌, ◌≤◌, ◌≡◌, refl, arith, [], ◌∷◌, some, none, true, false, length, Bytes, codes,
}
use mathlib.Core.List.{Perm}
use mathlib.Core.List.Perm
use https_proxy_server.Cstring.{until_nul, decimal}
use https_proxy_server.Http.Parser.Types.{HeaderMap}
use https_proxy_server.Http.Status.{text, http_get_status_line}
use https_proxy_server.Http.Response.{send_keepalive, send_response}
use https_proxy_server.Http.Response.Pages.{send_error}
use https_proxy_server.Http.Response.Filled.{
  IsMarked, response_text, status_words, send_response-IsFilled,
}
use https_proxy_server.Http.Response.{Response}
use https_proxy_server.Http.Response.Signed.{send_response-short}
use https_proxy_server.Http.Response.Answers.{
  json_text, last_response, error_headers, error_type, send_error-IsAnswered, send_error-overflows,
}

abbrev headers : HeaderMap
headers = (codes "Server", codes "proxy") ∷ (codes "Content-Length", codes "2") ∷ []

send_response-IsFilled_example :
    (r : Response) × (send_response 1 1 true 200 (some headers) (some (codes "{}")) send_keepalive
      ≡ some r)
    × (r.data_ ≡ response_text 1 (status_words 200) 1 headers (codes "{}"))
    × (r.data_len ≡ length r.data_)
    × IsMarked send_keepalive true r
send_response-IsFilled_example =
    send_response-IsFilled 1 1 true 200 (some headers) (some (codes "{}")) send_keepalive
      (omega arith) (omega arith) (refl, refl, (refl, refl, tt))

abbrev callback : Bytes
callback = codes "show"

abbrev line : Bytes
line = codes "404 Not Found"

is_line : http_get_status_line 404 ≡ text line
unfolding http_get_status_line
is_line = refl

abbrev server : Bytes
server = codes "proxy"

abbrev in_order : HeaderMap → HeaderMap
in_order hs = hs

abbrev body : Bytes
body = json_text server callback 404 line

short : length body < 1024
unfolding until_nul decimal
short = omega arith

send_error-IsAnswered_example :
    (hs : HeaderMap) × Perm (error_headers server (error_type true) body) hs
    × (send_error server in_order 1 1 false true callback 404
        ≡ some (last_response 1 1 (codes "200 OK") hs body))
send_error-IsAnswered_example =
    send_error-IsAnswered server in_order 1 1 false (λ hs. Perm.refl hs) refl (omega arith)
      (omega arith) true callback 404 line is_line short

abbrev copies : ℕ → Bytes
copies zero = []
copies (suc n) = b'a' ∷ copies n

long : 1024 ≤ length (until_nul (copies 1024))
unfolding until_nul
long = omega arith

send_error-overflows_example : send_error server in_order 1 1 false true (copies 1024) 404 ≡ none
send_error-overflows_example = send_error-overflows server in_order 1 1 false (copies 1024) 404 long

send_response-short_example :
    (r : Response) × (send_response 1 200 true 200 (some headers) (some (codes "{}")) send_keepalive
      ≡ some r)
    × (length r.data_ < r.data_len)
send_response-short_example =
    send_response-short 1 200 true 200 (some headers) (some (codes "{}")) send_keepalive
      (omega arith) (omega arith) (omega arith) (refl, refl, (refl, refl, tt))
