-- ===== src/Connection/Request.antt =====
-- What is done with a request: `handle_special_request` and `onHeader` of core/http.cpp, and
-- `connection::handle_uri` of core/connection.cpp. The target has no NUL, so that `strncpy` copies the
-- bytes of the device id; the rest of the array it goes to, `junk`, is not initialised.
pub mod DeviceId
pub mod Bounds
use https_proxy_server.Base.{
  ℕ, ◌-◌, Bool, true, false, ◌&&◌, ◌||◌, Option, none, some, List, [], ◌∷◌, ◌++◌, ◌==◌, ltb,
  if◌then◌else◌, length, drop, Bytes, codes,
}
use https_proxy_server.Cstring.{until_nul, same_text}
use https_proxy_server.Uri.{null, decode_in_place}
use https_proxy_server.Http.Parser.Types.{MessageType, request, response, bytes_eq, slice}
use https_proxy_server.Http.Parser.FirstLine.{http_get}
use https_proxy_server.Connection.Output.{ConnectionType, busy_server}
use https_proxy_server.Connection.Pairs.{is_set}
use https_proxy_server.Connection.UriInfo.{UriInfo, server, client, ℤ, strcasestr, get_uri_info}

abbrev pub dev_id_max_len : ℕ
dev_id_max_len = 128

pub data SpecialRequest : Type 0 where
  crossdomain system_info ordinary : SpecialRequest

-- `handle_special_request`: what it sends, or that it leaves the request alone.
unfoldable pub handle_special_request : ℕ → Bytes → SpecialRequest
unfolding strcasestr
handle_special_request verb uri =
    if verb == http_get
    then if is_set (strcasestr uri (codes "crossdomain.xml"))
      then crossdomain
      else if bytes_eq uri (codes "/")
      then system_info
      else ordinary
    else ordinary

-- What `handle_uri` does: an `http_exception` for a bad request; a write past the end of the device
-- id; the request is passed on to the partner, or it is kept, the partner is closed if there is one,
-- and `match_server` looks for the device; the assertion fails that the partner is a server's busy
-- connection; or the connection becomes the idle one of a server, and `match_client` looks for the
-- socket (`make_ready` of Partner/Ready.antt).
pub data UriAction : Type 0 where
  bad_request : UriAction
  overrun : UriAction
  pass_on : UriAction
  abort : UriAction
  ask_server : (dev_id : Bytes) (closes_partner : Bool) → UriAction
  server_ready : (dev_id : Bytes) (sock : ℤ) → UriAction

abbrev pub is_bad_length : ℕ → Bool
is_bad_length len = len == 0 || ltb dev_id_max_len len

-- `dev_id_` of a connection that has a partner, and the partner's `type_`.
pub record Partner : Type 0 where
  pub dev_id : Bytes
  pub type : ConnectionType

abbrev pub is_busy : ConnectionType → Bool
is_busy busy_server = true
is_busy _ = false

-- A client's request, of which `text` is the device id as it is written. `partner` is the device id
-- of the connection, and the type of its partner, if it has one.
unfoldable pub client_request : Bytes → Option Partner → Bytes → UriAction
unfolding decode_in_place same_text until_nul
client_request junk partner text =
    let len = length text in
    if is_bad_length len then bad_request else elim (decode_in_place (text ++ junk) len null) [
      | none ↦ overrun
      | some d ↦
          let dev_id = until_nul d in
          elim partner [
            | none ↦ ask_server dev_id false
            | some own ↦
                if same_text (until_nul own.dev_id) dev_id
                then pass_on
                else if is_busy own.type
                then ask_server dev_id true
                else abort
          ]
    ]

-- A server's answer, whose device id of `len` bytes is decoded where it stands.
unfoldable pub server_answer : Option Partner → Bytes → ℕ → ℤ → UriAction
unfolding decode_in_place
server_answer partner uri len sock =
    if is_bad_length len || elim partner [ none ↦ false | some own ↦ true ]
    then bad_request
    else elim (decode_in_place uri len null) [ none ↦ overrun | some d ↦ server_ready d sock ]

abbrev pub callback_in : Bytes → Option (ℕ × ℕ) → Option Bytes
callback_in uri none = none
callback_in uri (some (beg, end)) = some (slice uri beg end)

-- The callback that sets `callback_` and MASK_BIT_BROWSER, or `none` where the bit is cleared, and
-- what is done.
abbrev pub with_info : Bytes → Option Partner → Bytes → UriInfo → Option Bytes × UriAction
with_info junk partner uri (client none callback) = (callback_in uri callback, bad_request)
with_info junk partner uri (client (some (beg, end)) callback) =
    (callback_in uri callback, client_request junk partner (slice uri beg end))
with_info junk partner uri (server beg none) = (none, bad_request)
with_info junk partner uri (server beg (some (end, sock))) =
    (none, server_answer partner (drop beg uri) (end - beg) sock)

unfoldable pub handle_uri : Bytes → Option Partner → ℕ → Bytes → Option Bytes × UriAction
unfolding client_request server_answer get_uri_info slice
handle_uri junk partner verb uri = with_info junk partner uri (get_uri_info verb uri)

-- `onHeader`: only a request is served.
pub data HeaderAnswer : Type 0 where
  sent : SpecialRequest → HeaderAnswer
  handled : Option Bytes × UriAction → HeaderAnswer
  rejected : HeaderAnswer

abbrev pub unless_special : SpecialRequest → Option Bytes × UriAction → HeaderAnswer
unless_special ordinary action = handled action
unless_special special action = sent special

unfoldable pub answer_header : MessageType → Bytes → Option Partner → ℕ → Bytes → HeaderAnswer
unfolding handle_special_request handle_uri
answer_header request junk partner verb uri =
    unless_special (handle_special_request verb uri) (handle_uri junk partner verb uri)
answer_header response junk partner verb uri = rejected
