-- ===== src/Worker/Pipe/Messages.antt =====
-- The kinds of messages: how many bytes each has, and what its last byte makes of it.
use https_proxy_server.Base.{
  ℕ, ◌-◌, ◌<◌, true, false, ◌≡◌, refl, arith, some, List, [], ◌∷◌, ◌++◌, ◌==◌, length, Bytes,
}
use https_proxy_server.Worker.Pipe.{
  Job, add_sock, match_sock, exit_worker, inet6_addrstrlen, add_type, match_type, add_size,
  match_size_of, add_message, match_message, written, read_add, read_match, PipeStep, prepare,
  add_conn, match_conn, PipeState, pipe_start, has_conn, state_machine,
}
use https_proxy_server.Worker.Pipe.Fields.{
  IsJob, read_match-match_message, length-match_message, read_add-add_message, length-add_message,
}

-- What `notify` calls have written one after another.
abbrev pub written_all : (Bytes → Bytes) → List Job → Bytes
written_all junk [] = []
written_all junk (job ∷ jobs) = written junk job ++ written_all junk jobs

abbrev pub AreJobs : List Job → Type 0
AreJobs [] = Unit {0}
AreJobs (job ∷ jobs) = IsJob job × AreJobs jobs

-- The stack holds as many bytes behind an address as the array has.
abbrev pub IsJunk : (Bytes → Bytes) → Type 0
IsJunk junk = (ip : Bytes) → length (junk ip) ≡ inet6_addrstrlen - 1 - length ip

-- The state in the middle of a message of some kind, and the job that the whole message is.
abbrev pub in_message : PipeStep → ℕ → Bytes → PipeState
in_message step size buf = record { step = step; buf = buf; size = size }

-- A kind of message: what its last byte makes of it, and that no other byte does anything.
pub record IsKind (step : PipeStep) (size : ℕ) (read : Bytes → Job) : Type 0 where
  pub last :
      (buf : Bytes)
      → length buf ≡ size
      → has_conn (read buf) ≡ true
      → state_machine (in_message step size buf) ≡ some (pipe_start, read buf ∷ [])
  pub before :
      (buf : Bytes)
      → length buf < size
      → state_machine (in_message step size buf) ≡ some (in_message step size buf, [])

add-IsKind : IsKind add_conn add_size read_add
unfolding state_machine
add-IsKind = record {
  last = λ buf e c. let t : (length buf == add_size) ≡ true = ground arith in rw t;
  before = λ buf h. let t : (length buf == add_size) ≡ false = ground arith in rw t;
}

match-IsKind : IsKind match_conn match_size_of read_match
unfolding state_machine
match-IsKind = record {
  last = λ buf e c. let t : (length buf == match_size_of) ≡ true = ground arith in rw (t, c);
  before = λ buf h. let t : (length buf == match_size_of) ≡ false = ground arith in rw t;
}

-- A job's kind, and that the message behind its type is read as the job.
pub record IsMessage (junk : Bytes → Bytes) (job : Job) (type : ℕ) (step : PipeStep) (size : ℕ)
    (read : Bytes → Job) (body : Bytes) : Type 0 where
  pub kind : IsKind step size read
  pub written_is : written junk job ≡ type ∷ body
  pub read_is : read body ≡ job
  pub conn_is : has_conn job ≡ true
  pub body_length : length body ≡ size
  pub some_size : 0 < size
  pub begun :
      state_machine (record { step = prepare; buf = type ∷ []; size = 1 })
      ≡ some (in_message step size [], [])

pub written-IsMessage :
    (junk : Bytes → Bytes) (job : Job)
    → IsJunk junk
    → IsJob job
    → (type : ℕ) × (step : PipeStep) × (size : ℕ) × (read : Bytes → Job) × (body : Bytes)
      × IsMessage junk job type step size read body
unfolding written state_machine
written-IsMessage junk (add_sock sock ip port ssl) u j = (
  add_type,
  add_conn,
  add_size,
  read_add,
  add_message (junk ip) sock ip port ssl,
  record {
    kind = add-IsKind;
    written_is = refl;
    read_is = read_add-add_message (junk ip) sock ip port ssl j (u ip);
    conn_is = refl;
    body_length = length-add_message (junk ip) sock ip port ssl j (u ip);
    some_size = omega arith;
    begun = refl;
  },
)
written-IsMessage junk (match_sock src_conn dst_sock flag) u j = (
  match_type,
  match_conn,
  match_size_of,
  read_match,
  match_message src_conn dst_sock flag,
  record {
    kind = match-IsKind;
    written_is = refl;
    read_is = read_match-match_message src_conn dst_sock flag j;
    conn_is = ground arith;
    body_length = length-match_message src_conn dst_sock flag;
    some_size = omega arith;
    begun = refl;
  },
)
written-IsMessage junk exit_worker u j = absurd j
