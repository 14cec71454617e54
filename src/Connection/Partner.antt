-- ===== src/Connection/Partner.antt =====
-- The choice of a connection's partner in core/connection.cpp: `match_client`, `match_server` and
-- `match(sock,is_client)`, over the tables of connections (Tables.antt). What they decide is a value,
-- and `perform` carries out a match on the store of connections (Pairs.antt). That `notify_match_conn`
-- reaches the other worker is an argument.
pub mod Chosen
pub mod HandedOver
pub mod Ready
use https_proxy_server.Base.{
  ℕ, Bool, true, false, not, ◌||◌, Option, none, some, ◌==◌, if◌then◌else◌, Bytes,
}
use https_proxy_server.Cstring.{until_nul, same_text}
use https_proxy_server.Connection.Output.{LoopEnd}
use https_proxy_server.Connection.Pairs.{Connection, Store, Matching, is_set, match}
use https_proxy_server.Connection.Tables.{
  Infos, ClientTable, ServerTable, get_client, get_server, get_idle,
}
use https_proxy_server.Connection.UriInfo.{ℤ, pos, negsuc}

abbrev pub http_proxy_server_internal_error : ℕ
http_proxy_server_internal_error = 551

abbrev pub http_null_connection : ℕ
http_null_connection = 552

abbrev pub http_invalid_connection : ℕ
http_invalid_connection = 553

abbrev pub http_matched_connection : ℕ
http_matched_connection = 554

abbrev pub http_conflict_connection : ℕ
http_conflict_connection = 555

abbrev pub http_device_id_different : ℕ
http_device_id_different = 556

-- What is done: `match(conn,is_client)` with a connection, or the connection is detached and its
-- worker-to-be gets a message with a socket, or `request_new_server`, or an `http_exception`, before
-- or after the connection was detached, or an assertion fails.
pub data Choice : Type 0 where
  take_it : (conn : ℕ) (is_client : Bool) → Choice
  hand_over : (host : ℕ) (sock : ℤ) (flag : Bool) → Choice
  new_server : Choice
  refuse : (detached : Bool) (code : ℕ) → Choice
  abort : Choice

-- `0 == strcasecmp` of two device ids.
unfoldable pub same_device : Infos → ℕ → ℕ → Bool
unfolding same_text until_nul
same_device infos a c = same_text (until_nul (infos c).dev_id) (until_nul (infos a).dev_id)

-- `client_conn_table::get` for an `int`.
unfoldable pub find_client : ClientTable → ℤ → Option ℕ
unfolding get_client
find_client clients (pos sock) = get_client clients sock
find_client clients (negsuc n) = none

-- `assert(host && host_)`, and what comes behind it. `attach` sets `cb_tail_` with `host_`, so that
-- `assert(cb_tail_)` fails only where this does.
abbrev pub with_hosts : Option ℕ → Option ℕ → (ℕ → ℕ → Choice) → Choice
with_hosts (some own) (some host) f = f own host
with_hosts own host f = abort

-- `host == host_` of two pointers.
abbrev pub same_host : Option ℕ → Option ℕ → Bool
same_host none none = true
same_host (some own) (some host) = own == host
same_host own host = false

-- `match_client(sock)` of the connection at `a`.
unfoldable pub match_client : Bool → ClientTable → Infos → ℕ → ℤ → Choice
unfolding find_client same_device
match_client notified clients infos a sock = elim (find_client clients sock) [
  | none ↦ refuse false http_null_connection
  | some c ↦
      if c == a
      then refuse false http_conflict_connection
      else with_hosts (infos a).host (infos c).host (λ own host.
        if is_set (infos a).other
        then abort
        else if not (own == host)
        then if notified
          then hand_over host sock true
          else refuse true http_proxy_server_internal_error
        else if is_set (infos c).other
        then refuse false http_matched_connection
        else if same_device infos a c
        then take_it c true
        else refuse false http_device_id_different)
]

unfoldable pub set_device : ℕ → Bytes → Infos → Infos
set_device a dev_id infos k = if k == a then record (infos k) { dev_id = dev_id } else infos k

-- `if(dev_id) dev_id_.assign(dev_id)`
abbrev pub assign_device : ℕ → Option Bytes → Infos → Infos
assign_device a none infos = infos
assign_device a (some dev_id) infos = set_device a dev_id infos

abbrev pub choose_idle : Bool → ℕ → Option ℕ × Infos → Choice × Infos
choose_idle notified a (none, infos) = (new_server, infos)
choose_idle notified a (some c, infos) = (
  with_hosts (infos a).host (infos c).host (λ own host.
      if not (own == host)
      then if notified
        then hand_over host (pos (infos c).sock) false
        else refuse true http_proxy_server_internal_error
      else take_it c false),
  infos,
)

-- `match_server(dev_id,reuse_server)`
unfoldable pub match_server : Bool → Bool → ServerTable → Infos → ℕ → Option Bytes → Choice × Infos
unfolding get_idle set_device
match_server notified reuse_server servers infos a dev_id =
    let named = assign_device a dev_id infos in
    if not reuse_server
    then (new_server, named)
    else choose_idle notified a (get_idle servers (named a).dev_id named)

-- What `attach` changes of what the tables read: `host_`.
unfoldable pub attach_to : ℕ → ℕ → Infos → Infos
attach_to a host infos k = if k == a then record (infos k) { host = some host } else infos k

-- `server_conn_table::get` for an `int`.
unfoldable pub find_server : ServerTable → Bytes → ℤ → Infos → Option ℕ
unfolding get_server
find_server servers dev_id (pos sock) infos = get_server servers dev_id sock infos
find_server servers dev_id (negsuc n) infos = none

-- `match(sock,true)` and `match(sock,false)`, which run in the worker that got the message.
unfoldable pub match_sock_client : ClientTable → Infos → ℕ → ℤ → Choice
unfolding find_client same_device
match_sock_client clients infos a sock = elim (find_client clients sock) [
  | none ↦ refuse false http_null_connection
  | some c ↦
      if not (same_host (infos c).host (infos a).host)
      then refuse false http_invalid_connection
      else if is_set (infos c).other
      then refuse false http_matched_connection
      else if not (same_device infos a c)
      then refuse false http_device_id_different
      else take_it c true
]

unfoldable pub match_sock_server : ServerTable → Infos → ℕ → ℤ → Choice
unfolding find_server until_nul
match_sock_server servers infos a sock =
    elim (find_server servers (until_nul (infos a).dev_id) sock infos) [
      | none ↦ new_server
      | some c ↦
          if not (same_host (infos c).host (infos a).host) || is_set (infos c).other
          then new_server
          else take_it c false
    ]

-- `match(sock,is_client)` starts with `assert(-1!=sock)`.
abbrev pub is_minus_one : ℤ → Bool
is_minus_one (pos n) = false
is_minus_one (negsuc n) = n == 0

unfoldable pub match_sock : Bool → ClientTable → ServerTable → Infos → ℕ → ℤ → Choice
unfolding match_sock_client match_sock_server
match_sock is_client clients servers infos a sock =
    if is_minus_one sock
    then abort
    else if is_client
    then match_sock_client clients infos a sock
    else match_sock_server servers infos a sock

-- A match that was chosen is made; nothing else changes the two connections' partners.
abbrev pub with_both :
    Option Connection → Option Connection → (Connection → Connection → Matching) → Option Matching
with_both (some self) (some conn) f = some (f self conn)
with_both self conn f = none

unfoldable pub perform : LoopEnd → ℕ → Store → Choice → Option Matching
unfolding match
perform ended a store (take_it c is_client) =
    with_both (store a) (store c) (λ self conn. match is_client ended a self c conn store)
perform ended a store choice = none
