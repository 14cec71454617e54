-- ===== src/Connection/Pairs.antt =====
-- `connection::match` and `connection::close` of core/connection.cpp: which two connections are
-- joined by their `other_` pointers. The store gives the connection that lives at each address; a
-- deleted one is not there. `async_send` is met by how its loop ends (Output.antt), and leads to the
-- flags that `after_send` gives.
pub mod Links
pub mod Close
pub mod Match
use https_proxy_server.Base.{
  ℕ, Bool, true, false, not, ◌&&◌, ◌||◌, Option, none, some, ◌==◌, if◌then◌else◌,
}
use https_proxy_server.Connection.Output.{
  ConnectionType, client, idle_server, busy_server, LoopEnd, drained, AfterSend, after_send,
}

-- The members of `connection` that decide on its partner: `other_`, `type_`, the flags
-- `MASK_BIT_CLOSE`, `MASK_BIT_ENABLE_RD` and `MASK_BIT_TIMEOUT`, `hstream_.is_data_break()` and
-- `out_queue_.empty()`.
pub record Connection : Type 0 where
  pub other : Option ℕ
  pub type : ConnectionType
  pub close_flag : Bool
  pub enable_read : Bool
  pub timeout : Bool
  pub data_break : Bool
  pub out_empty : Bool

abbrev pub Store : Type 0
Store = ℕ → Option Connection

unfoldable pub set_at : ℕ → Option Connection → Store → Store
set_at a c store k = if k == a then c else store k

abbrev pub is_client : Connection → Bool
is_client c = elim c.type [ client ↦ true | _ ↦ false ]

abbrev pub is_idle : ConnectionType → Bool
is_idle idle_server = true
is_idle _ = false

-- A server's connection that is let go: it may be read again, and is idle if all is written.
abbrev pub let_go : Connection → Connection
let_go c = record c {
  other = none;
  enable_read = true;
  type = if c.out_empty then idle_server else c.type;
}

-- The partner is to be closed once all is written.
abbrev pub close_later : Connection → Connection
close_later c = record c { close_flag = true; other = none }

abbrev pub is_drained : LoopEnd → Bool
is_drained drained = true
is_drained _ = false

-- What `close` makes of the partner on SELF_RD_ERROR (`rd`) and SELF_WR_ERROR; `none` is deleted.
unfoldable pub release : Bool → Bool → Connection → Connection → Option Connection
release rd reuse_server self other =
    if is_client self
    then if not self.data_break
      then if reuse_server
        then some (let_go other)
        else if rd
        then some (close_later other)
        else none
      else none
    else if rd
    then some (close_later other)
    else none

-- `other_->async_send()`, and `other_->close()` if it throws.
unfoldable pub flush : Bool → LoopEnd → Option Connection → Option Connection
unfolding after_send
flush rd ended none = none
flush rd ended (some c) =
    let after = after_send ended c.close_flag false c.type in
    if rd
    then if after.thrown
      then none
      else some (record c {
        close_flag = after.close_flag;
        type = after.type;
        out_empty = is_drained ended;
      })
    else some c

-- SELF_RD_ERROR and SELF_WR_ERROR, OTHER_WR_ERROR, IDLE_TIMEOUT. The fifth flag of core/exception.h,
-- OTHER_RD_ERROR, is given to `close` nowhere, and is the failed assertion of its `default`.
pub data CloseReason : Type 0 where
  self_error : Bool → CloseReason
  other_wr_error idle_timeout : CloseReason

-- The partner that `close` follows the pointer to; `none` is a pointer to a deleted connection.
abbrev pub with_partner : Option Connection → (Connection → Option Store) → Option Store
with_partner none f = none
with_partner (some c) f = f c

-- `close(flag,reuse_server)` of the connection `self` at `a`. `none` is a failed assertion, or the
-- use of a deleted connection.
unfoldable pub close_in :
    CloseReason → Option ℕ → Bool → LoopEnd → ℕ → Connection → Store → Option Store
unfolding set_at release flush
close_in (self_error rd) none reuse_server ended a self store = some (set_at a none store)
close_in (self_error rd) (some b) reuse_server ended a self store =
    with_partner (store b)
      (λ c. some (set_at a none (set_at b (flush rd ended (release rd reuse_server self c)) store)))
close_in other_wr_error none reuse_server ended a self store = none
close_in other_wr_error (some b) reuse_server ended a self store = with_partner (store b) (λ c.
    if not reuse_server || is_client self
    then some (set_at a none (set_at b none store))
    else some (set_at a (some (let_go self)) (set_at b none store)))
close_in idle_timeout none reuse_server ended a self store = some (set_at a none store)
close_in idle_timeout (some b) reuse_server ended a self store =
    if is_client self
    then some store
    else with_partner (store b)
        (λ c. some (set_at a none (set_at b (some (record c { other = none })) store)))

unfoldable pub close : CloseReason → Bool → LoopEnd → ℕ → Connection → Store → Option Store
unfolding close_in
close reason reuse_server ended a self store =
    close_in reason self.other reuse_server ended a self store

abbrev pub http_invalid_match : ℕ
http_invalid_match = 557

-- What `match` ends in: the two are joined, an `http_exception`, an `io_exception` of `async_send`,
-- or a failed assertion.
pub data Matching : Type 0 where
  joined : Store → Matching
  refused : ℕ → Store → Matching
  write_failed : Store → Matching
  aborted : Matching

abbrev pub is_set : Option ℕ → Bool
is_set none = false
is_set (some b) = true

-- `match(conn,true)`: the server's connection `self` at `a` takes the client's `conn` at `b`, and
-- writes to its own socket.
unfoldable pub match_as_client : LoopEnd → ℕ → Connection → ℕ → Connection → Store → Matching
unfolding set_at after_send
match_as_client ended a self b conn store =
    let conn' = record conn { timeout = false } in
    let after = after_send ended self.close_flag false self.type in
    let self' = record self {
      close_flag = after.close_flag;
      type = after.type;
      out_empty = is_drained ended;
    } in
    if not conn.timeout
    then refused http_invalid_match store
    else if after.thrown
    then write_failed (set_at a (some self') (set_at b (some conn') store))
    else if is_idle after.type
    then joined (
        set_at a (some (record self' { type = busy_server; other = some b }))
          (set_at b (some (record conn' { other = some a })) store))
    else aborted

-- `match(conn,false)`: the client's connection `self` takes the server's `conn`, which writes.
unfoldable pub match_as_server : LoopEnd → ℕ → Connection → ℕ → Connection → Store → Matching
unfolding set_at after_send
match_as_server ended a self b conn store =
    let after = after_send ended conn.close_flag false conn.type in
    let conn' = record conn {
      close_flag = after.close_flag;
      type = after.type;
      out_empty = is_drained ended;
    } in
    if after.thrown
    then write_failed (set_at b (some conn') store)
    else joined (
        set_at a (some (record self { other = some b }))
          (set_at b (some (record conn' { type = busy_server; other = some a })) store))

-- `match(connection*,bool)`
unfoldable pub match : Bool → LoopEnd → ℕ → Connection → ℕ → Connection → Store → Matching
unfolding match_as_client match_as_server
match is_client ended a self b conn store =
    if is_set conn.other || is_set self.other
    then aborted
    else if is_client
    then match_as_client ended a self b conn store
    else match_as_server ended a self b conn store
