-- ===== src/Connection/Partner/Ready.antt =====
-- The end of `handle_uri` of core/connection.cpp for a server's answer: the connection moves from the
-- table of clients to that of servers, becomes idle, and looks for the socket it was named.
use https_proxy_server.Base.{ℕ, Bool, true, false, Option, none, some, ◌==◌, if◌then◌else◌, Bytes}
use https_proxy_server.Connection.Output.{idle_server}
use https_proxy_server.Connection.Tables.{
  Infos, ClientTable, ServerTable, remove_client, add_server,
}
use https_proxy_server.Connection.UriInfo.{ℤ}
use https_proxy_server.Connection.Partner.{Choice, set_device, match_client}

unfoldable pub set_idle : ℕ → Infos → Infos
set_idle a infos k = if k == a then record (infos k) { type = idle_server } else infos k

-- The tables, what they read, and the choice of `match_client`.
pub record Ready : Type 0 where
  pub clients : ClientTable
  pub servers : ServerTable
  pub infos : Infos
  pub choice : Choice

-- `assert(ret)` of the removal from the table of clients, and what comes behind it.
abbrev pub once_removed : Bool × ClientTable → (ClientTable → Ready) → Option Ready
once_removed (true, clients) f = some (f clients)
once_removed (false, clients) f = none

-- What `server_ready` of Request.antt stands for, for the connection at `a`.
unfoldable pub make_ready : Bool → ClientTable → ServerTable → Infos → ℕ → Bytes → ℤ → Option Ready
unfolding set_device set_idle remove_client add_server match_client
make_ready notified clients servers infos a dev_id sock =
    let named = set_device a dev_id infos in
    let ready = set_idle a named in
    once_removed (remove_client (named a).sock clients) (λ rest. record {
      clients = rest;
      servers = add_server a named servers;
      infos = ready;
      choice = match_client notified rest ready a sock;
    })
