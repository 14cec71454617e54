-- ===== src/Http/Status.antt =====
-- `http_get_status_line` of core/http.cpp, with its two tables. A status is a natural number here;
-- a negative one fails every test, as the numbers below 100 do.
pub mod Lines
use https_proxy_server.Base.{
  ℕ, ◌+◌, ◌-◌, Bool, true, false, ◌&&◌, List, [], ◌∷◌, none, some, ltb, leb, if◌then◌else◌,
  get_elem?, Bytes, codes,
}

abbrev pub http_normal_status_lines : List Bytes
http_normal_status_lines =
    codes "100 Continue"
    ∷ codes "101 Switch Protocol"
    ∷ codes "200 OK"
    ∷ codes "201 Created"
    ∷ codes "202 Accepted"
    ∷ []
    ∷ codes "204 No Content"
    ∷ []
    ∷ codes "206 Partial Content"
    ∷ codes "301 Moved Permanently"
    ∷ codes "302 Moved Temporarily"
    ∷ codes "303 See Other"
    ∷ codes "304 Not Modified"
    ∷ []
    ∷ []
    ∷ codes "307 Temporary Redirect"
    ∷ codes "400 Bad Request"
    ∷ codes "401 Unauthorized"
    ∷ codes "402 Payment Required"
    ∷ codes "403 Forbidden"
    ∷ codes "404 Not Found"
    ∷ codes "405 Not Allowed"
    ∷ codes "406 Not Acceptable"
    ∷ []
    ∷ codes "408 Request Time-out"
    ∷ codes "409 Conflict"
    ∷ codes "410 Gone"
    ∷ codes "411 Length Required"
    ∷ codes "412 Precondition Failed"
    ∷ codes "413 Request Entity Too Large"
    ∷ []
    ∷ codes "415 Unsupported Media Type"
    ∷ codes "416 Requested Range Not Satisfiable"
    ∷ codes "417 Expectation Failed"
    ∷ codes "500 Internal Server Error"
    ∷ codes "501 Method Not Implemented"
    ∷ codes "502 Bad Gateway"
    ∷ codes "503 Service Temporarily Unavailable"
    ∷ codes "504 Gateway Time-out"
    ∷ []
    ∷ []
    ∷ codes "507 Insufficient Storage"
    ∷ []

abbrev pub http_extended_status_line : List Bytes
http_extended_status_line =
    codes "550 Other Connection Timeout"
    ∷ codes "551 Proxy Server Internal Error"
    ∷ codes "552 Null Connection"
    ∷ codes "553 Invalid Connection"
    ∷ codes "554 Matched Connection"
    ∷ codes "555 Conflict Connection"
    ∷ codes "556 Device ID difference"
    ∷ codes "557 Invalid match"
    ∷ []

-- `fault` is a read past the end of a table.
pub data StatusLine : Type 0 where
  null fault : StatusLine
  text : Bytes → StatusLine

unfoldable pub line_at : List Bytes → ℕ → StatusLine
line_at lines i = elim (get_elem? lines i) [ none ↦ fault | some line ↦ text line ]

-- `HTTP_OFF_2XX` and so on, written as the macros compute them.
abbrev off_2xx : ℕ
off_2xx = 102 - 100

abbrev off_3xx : ℕ
off_3xx = 207 - 200 + off_2xx

abbrev off_4xx : ℕ
off_4xx = 308 - 301 + off_3xx

abbrev off_5xx : ℕ
off_5xx = 418 - 400 + off_4xx

unfoldable pub http_get_status_line : ℕ → StatusLine
unfolding line_at
http_get_status_line status =
    let in_range = λ (lo hi : ℕ). leb lo status && ltb status hi in
    if in_range 100 102
    then line_at http_normal_status_lines (status - 100)
    else if in_range 200 207
    then line_at http_normal_status_lines (status - 200 + off_2xx)
    else if in_range 301 308
    then line_at http_normal_status_lines (status - 301 + off_3xx)
    else if in_range 400 418
    then line_at http_normal_status_lines (status - 400 + off_4xx)
    else if in_range 500 508
    then line_at http_normal_status_lines (status - 500 + off_5xx)
    else if in_range 550 558
    then line_at http_extended_status_line (status - 550)
    else null
