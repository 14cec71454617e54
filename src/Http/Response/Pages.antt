-- ===== src/Http/Response/Pages.antt =====
-- `send_error`, `send_ok` and `send_crossdomain` of core/http.cpp.
use https_proxy_server.Base.{
  ℕ, Bool, Option, none, some, List, [], ◌∷◌, ◌++◌, ltb, if◌then◌else◌, length, Bytes, codes,
}
use https_proxy_server.Cstring.{until_nul, decimal}
use https_proxy_server.Http.Status.{null, fault, text, http_get_status_line}
use https_proxy_server.Http.Parser.Types.{HeaderMap, insert}
use https_proxy_server.Http.Response.{SendMode, send_close, send_keepalive, Response, send_response}

abbrev pub joined : List Bytes → Bytes
joined [] = []
joined (part ∷ parts) = part ++ joined parts

abbrev pub quoted : Bytes → Bytes
quoted part = b'"' ∷ (part ++ b'"' ∷ [])

abbrev pub html : Bytes → Bytes
html line =
    let end = 10 ∷ [] in
    joined (
      codes "<HTML><HEAD>"
      ∷ end
      ∷ codes "<TITLE>"
      ∷ line
      ∷ codes "</TITLE>"
      ∷ end
      ∷ codes "</HEAD><BODY>"
      ∷ end
      ∷ codes "<H1>"
      ∷ line
      ∷ codes "</H1>"
      ∷ end
      ∷ codes "</BODY></HTML>"
      ∷ end
      ∷ [])

abbrev pub http_ok : ℕ
http_ok = 200

-- A map into which the headers of the list are inserted, the last one first.
abbrev pub inserted : HeaderMap → HeaderMap
inserted [] = []
inserted ((name, value) ∷ headers) = insert name value (inserted headers)

-- The JSON that a browser gets.
abbrev pub json_error : Bytes → Bytes → ℕ → Bytes → Bytes
json_error server_name callback status line = joined (
    until_nul callback
    ∷ codes "({"
    ∷ quoted (codes "code")
    ∷ codes ":"
    ∷ decimal status
    ∷ codes ","
    ∷ quoted (codes "message")
    ∷ codes ":"
    ∷ quoted line
    ∷ codes ","
    ∷ quoted (codes "server")
    ∷ codes ":"
    ∷ quoted server_name
    ∷ codes "})"
    ∷ [])

-- The headers of an error, and those of `send_ok`, before Content-Length.
abbrev pub error_map : Bytes → Bytes → HeaderMap
error_map server_name type = inserted (
    (codes "Connection", codes "close")
    ∷ (codes "Server", server_name)
    ∷ (codes "Content-Type", type)
    ∷ (codes "Access-Control-Allow-Origin", codes "*")
    ∷ [])

abbrev pub ok_map : Bytes → Bytes → HeaderMap
ok_map server_name type =
    inserted ((codes "Server", server_name) ∷ (codes "Content-Type", type) ∷ [])

module _ (server_name : Bytes) (order : HeaderMap → HeaderMap) (major minor : ℕ)
    (close : Bool) where
  -- The answer with what `snprintf` has made in `buf`: `ret` counts the bytes it would have needed,
  -- and `buf[ret]` is set, which is past the end of `buf` from 1024 on.
  unfoldable pub answer : ℕ → Bytes → HeaderMap → SendMode → Option Response
  unfolding send_response insert
  answer status body headers flag =
      if ltb (length body) 1024
      then send_response major minor close status
          (some (order (insert (codes "Content-Length") (decimal (length body)) headers)))
          (some body) flag
      else none

  -- `send_error`: `browser` is MASK_BIT_BROWSER.
  unfoldable pub send_error : Bool → Bytes → ℕ → Option Response
  unfolding answer insert
  send_error browser callback status = elim (http_get_status_line status) [
    | null ↦ none
    | fault ↦ none
    | text line ↦
        if browser
        then answer http_ok (json_error server_name callback status line)
            (error_map server_name (codes "application/json")) send_close
        else answer status (html line) (error_map server_name (codes "text/html")) send_close
  ]

  -- `send_ok`
  unfoldable pub send_ok : Bool → SendMode → Option Response
  unfolding answer insert
  send_ok is_html flag = elim (http_get_status_line http_ok) [
    | null ↦ none
    | fault ↦ none
    | text line ↦
        if is_html
        then answer http_ok (html line) (ok_map server_name (codes "text/html")) flag
        else answer http_ok (codes "{}") (ok_map server_name (codes "application/json")) flag
  ]

  -- `send_crossdomain`, with the bytes of the file that was read at the start.
  unfoldable pub send_crossdomain : Bytes → Option Response
  unfolding send_response insert
  send_crossdomain cross_domain_data =
      send_response major minor close http_ok
        (some (
          order (
            inserted (
              (codes "Content-Length", decimal (length cross_domain_data))
              ∷ (codes "Server", server_name)
              ∷ (codes "Content-Type", codes "text/xml")
              ∷ []))))
        (some cross_domain_data) send_keepalive
