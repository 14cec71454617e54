-- ===== src/Connection/Tables.antt =====
-- `client_conn_table` and `server_conn_table` of core/connection.h and core/connection.cpp: the
-- living connections by their socket, and those of servers by their device id. A connection is an
-- address, and what the tables read of it is given for each address. `lock_` makes each operation
-- one step; `get_idle` takes a connection by an atomic compare-and-swap of its type.
pub mod Clients
pub mod Idle
use https_proxy_server.Base.{
  ℕ, suc, Bool, true, false, ◌&&◌, Option, none, some, List, [], ◌∷◌, ◌==◌, if◌then◌else◌, Bytes,
}
use https_proxy_server.Http.Parser.Types.{bytes_eq}
use https_proxy_server.Connection.Output.{ConnectionType, busy_server}
use https_proxy_server.Connection.Pairs.{is_idle, is_set}

-- `sock_`, `dev_id_`, `type_`, `host_` and `other_` of a connection. `host_` is null from the
-- constructor, which adds the connection to the table of clients, until `attach`.
pub record Info : Type 0 where
  pub sock : ℕ
  pub dev_id : Bytes
  pub type : ConnectionType
  pub host : Option ℕ
  pub other : Option ℕ

abbrev pub Infos : Type 0
Infos = ℕ → Info

abbrev pub ClientTable : Type 0
ClientTable = List (ℕ × ℕ)

-- `client_conn_table::get`
unfoldable pub get_client : ClientTable → ℕ → Option ℕ
get_client [] sock = none
get_client ((key, a) ∷ table) sock = if key == sock then some a else get_client table sock

-- `client_conn_table::add`; `none` is the assertion that fails for a socket that is there.
unfoldable pub add_client : ℕ → ℕ → ClientTable → Option ClientTable
unfolding get_client
add_client sock a table = if is_set (get_client table sock) then none else some ((sock, a) ∷ table)

-- `client_conn_table::remove`: the result, and the table.
abbrev pub keep : ℕ × ℕ → Bool × ClientTable → Bool × ClientTable
keep entry (found, table) = (found, entry ∷ table)

unfoldable pub remove_client : ℕ → ClientTable → Bool × ClientTable
remove_client sock [] = (false, [])
remove_client sock ((key, a) ∷ table) =
    if key == sock then (true, table) else keep (key, a) (remove_client sock table)

-- `match_size`
unfoldable pub match_size : ClientTable → Infos → ℕ
match_size [] infos = 0
match_size ((key, a) ∷ table) infos =
    if is_set (infos a).other then suc (match_size table infos) else match_size table infos

abbrev pub ServerTable : Type 0
ServerTable = List (Bytes × ℕ)

-- `server_conn_table::add`
unfoldable pub add_server : ℕ → Infos → ServerTable → ServerTable
add_server a infos table = ((infos a).dev_id, a) ∷ table

abbrev pub keep_server : Bytes × ℕ → Bool × ServerTable → Bool × ServerTable
keep_server entry (found, table) = (found, entry ∷ table)

-- `server_conn_table::remove`
unfoldable pub remove_server : ℕ → Infos → ServerTable → Bool × ServerTable
remove_server a infos [] = (false, [])
remove_server a infos ((id, x) ∷ table) =
    if bytes_eq id (infos a).dev_id && x == a
    then (true, table)
    else keep_server (id, x) (remove_server a infos table)

-- `server_conn_table::get(dev_id,sock)`
unfoldable pub get_server : ServerTable → Bytes → ℕ → Infos → Option ℕ
get_server [] dev_id sock infos = none
get_server ((id, x) ∷ table) dev_id sock infos =
    if bytes_eq id dev_id && (infos x).sock == sock
    then some x
    else get_server table dev_id sock infos

-- The compare-and-swap of `type_` once it has succeeded.
unfoldable pub set_busy : ℕ → Infos → Infos
set_busy a infos k = if k == a then record (infos k) { type = busy_server } else infos k

-- `server_conn_table::get_idle`
unfoldable pub get_idle : ServerTable → Bytes → Infos → Option ℕ × Infos
unfolding set_busy
get_idle [] dev_id infos = (none, infos)
get_idle ((id, x) ∷ table) dev_id infos =
    if bytes_eq id dev_id && is_idle (infos x).type
    then (some x, set_busy x infos)
    else get_idle table dev_id infos
