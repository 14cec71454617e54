-- ===== src/Worker/Pipe.antt =====
-- The pipe that other threads hand work to a worker through: `notify_add_conn`, `notify_match_conn`
-- and `notify_exit` write messages, `handle_notify` reads them with `state_machine`. What is done
-- with a message (a connection is made, attached or matched, with every exception caught) is in the
-- list of jobs. The structs are packed, an `int` has four bytes and a pointer eight.
pub mod Fields
pub mod Messages
pub mod Framing
use https_proxy_server.Base.{
  ℕ, zero, suc, ◌+◌, ◌-◌, ◌*◌, ◌/◌, ◌%◌, Bool, true, false, not, ◌&&◌, Option, none, some, List, [],
  ◌∷◌, ◌++◌, ◌==◌, if◌then◌else◌, min, length, take, drop, get_or, Bytes,
}
use https_proxy_server.Cstring.{until_nul}

-- A number in `w` bytes, the lowest one first.
unfoldable pub bytes_of : ℕ → ℕ → Bytes
bytes_of zero n = []
bytes_of (suc w) n = n % 256 ∷ bytes_of w (n / 256)

unfoldable pub number_of : Bytes → ℕ
number_of [] = 0
number_of (c ∷ text) = c + 256 * number_of text

-- `INET6_ADDRSTRLEN`
abbrev pub inet6_addrstrlen : ℕ
inet6_addrstrlen = 46

-- A message that is read: `pipe_msg_add_conn`, `pipe_msg_match_conn` or `EXIT_WORKER`.
pub data Job : Type 0 where
  add_sock : (sock : ℕ) (ip : Bytes) (port : ℕ) (ssl : Bool) → Job
  match_sock : (src_conn dst_sock : ℕ) (flag : Bool) → Job
  exit_worker : Job

abbrev pub exit_type : ℕ
exit_type = 0

abbrev pub add_type : ℕ
add_type = 1

abbrev pub match_type : ℕ
match_type = 2

-- `sizeof` of the two structs.
abbrev pub add_size : ℕ
add_size = 4 + inet6_addrstrlen + 2 + 1

abbrev pub match_size_of : ℕ
match_size_of = 8 + 4 + 1

abbrev pub of_bool : Bool → ℕ
of_bool false = 0
of_bool true = 1

-- The structs as `notify_add_conn` and `notify_match_conn` fill them in. `strcpy` leaves what the
-- stack held behind the address, `junk`.
unfoldable pub add_message : Bytes → ℕ → Bytes → ℕ → Bool → Bytes
unfolding bytes_of
add_message junk sock ip port ssl =
    bytes_of 4 sock ++ ((ip ++ 0 ∷ junk) ++ (bytes_of 2 port ++ of_bool ssl ∷ []))

unfoldable pub match_message : ℕ → ℕ → Bool → Bytes
unfolding bytes_of
match_message src_conn dst_sock flag =
    bytes_of 8 src_conn ++ (bytes_of 4 dst_sock ++ of_bool flag ∷ [])

-- What `notify_add_conn`, `notify_match_conn` and `notify_exit` write to the pipe.
unfoldable pub written : (Bytes → Bytes) → Job → Bytes
unfolding add_message match_message
written junk (add_sock sock ip port ssl) = add_type ∷ add_message (junk ip) sock ip port ssl
written junk (match_sock src_conn dst_sock flag) = match_type ∷ match_message src_conn dst_sock flag
written junk exit_worker = exit_type ∷ []

-- The fields that are read from `pipe_buf_`.
unfoldable pub read_add : Bytes → Job
unfolding number_of until_nul
read_add buf =
    add_sock (number_of (take 4 buf)) (until_nul (take inet6_addrstrlen (drop 4 buf)))
      (number_of (take 2 (drop 50 buf))) (not (get_or buf 52 0 == 0))

unfoldable pub read_match : Bytes → Job
unfolding number_of
read_match buf =
    match_sock (number_of (take 8 buf)) (number_of (take 4 (drop 8 buf)))
      (not (get_or buf 12 0 == 0))

pub data PipeStep : Type 0 where
  prepare add_conn match_conn : PipeStep

-- `s_`, the first `pipe_tran_` bytes of `pipe_buf_`, and `pipe_size_`.
pub record PipeState : Type 0 where
  pub step : PipeStep
  pub buf : Bytes
  pub size : ℕ

abbrev pub pipe_start : PipeState
pipe_start = record { step = prepare; buf = []; size = 1 }

-- The three cases of `state_machine`; `none` is a failed assertion.
abbrev pub prepared : ℕ → PipeState → Option (PipeState × List Job)
prepared type s =
    if type == add_type
    then some (record { step = add_conn; buf = []; size = add_size }, [])
    else if type == match_type
    then some (record { step = match_conn; buf = []; size = match_size_of }, [])
    else if type == exit_type
    then some (s, exit_worker ∷ [])
    else none

abbrev pub completed : (Bytes → Job) → PipeState → PipeState × List Job
completed read s = if length s.buf == s.size then (pipe_start, read s.buf ∷ []) else (s, [])

-- `assert(conn)`: the connection of a message is not null.
abbrev pub has_conn : Job → Bool
has_conn (match_sock src_conn dst_sock flag) = not (src_conn == 0)
has_conn _ = true

abbrev pub in_step : PipeStep → PipeState → Option (PipeState × List Job)
in_step prepare s = prepared (get_or s.buf 0 0) s
in_step add_conn s = some (completed read_add s)
in_step match_conn s =
    if length s.buf == s.size && not (has_conn (read_match s.buf))
    then none
    else some (completed read_match s)

unfoldable pub state_machine : PipeState → Option (PipeState × List Job)
unfolding read_add read_match
state_machine s = in_step s.step s

-- `handle_notify`: the list bounds the bytes that each `read` gives. A `read` with nothing in the
-- pipe, or with no room, ends the loop.
unfoldable pub handle_notify :
    List ℕ → PipeState → Bytes → List Job → Option (PipeState × Bytes × List Job)
unfolding state_machine
handle_notify [] s pipe jobs = some (s, pipe, jobs)
handle_notify (k ∷ ks) s pipe jobs =
    let n = min (suc k) (s.size - length s.buf) in
    elim (take n pipe) [
      | [] ↦ some (s, pipe, jobs)
      | c ∷ got ↦ elim (state_machine (record s { buf = s.buf ++ c ∷ got })) [
        | none ↦ none
        | some (s', more) ↦ handle_notify ks s' (drop n pipe) (jobs ++ more)
      ]
    ]
