-- ===== src/Worker/Pipe/Framing.antt =====
-- However the pipe cuts the messages up, each is handled once, whole and in its order.
use https_proxy_server.Base.{
  ℕ, zero, suc, ◌+◌, ◌-◌, ◌<◌, ◌≤◌, ◌≡◌, inl, inr, refl, sym, ap, ◌∙◌, arith, Option, none, some,
  List, [], ◌∷◌, ◌++◌, ◌==◌, min, length, take, drop, Bytes, take-nil, take-append_within,
  drop-append_within, ==→eq, append-nil, append_assoc, length-append, length-take, length-drop,
  take-drop, take_all, Bool-cases,
}
use https_proxy_server.Worker.Pipe.{
  Job, written, PipeStep, prepare, PipeState, pipe_start, has_conn, state_machine, handle_notify,
}
use https_proxy_server.Worker.Pipe.Messages.{
  written_all, AreJobs, IsJunk, in_message, IsMessage, written-IsMessage,
}

-- A `read` that gives some bytes.
handle_notify-step :
    (k : ℕ) (ks : List ℕ) (s s' : PipeState) (pipe : Bytes) (jobs more : List Job)
    → let n = min (suc k) (s.size - length s.buf) in
      0 < n
      → n ≤ length pipe
      → state_machine (record s { buf = s.buf ++ take n pipe }) ≡ some (s', more)
      → handle_notify (k ∷ ks) s pipe jobs ≡ handle_notify ks s' (drop n pipe) (jobs ++ more)
unfolding handle_notify
handle_notify-step k ks s s' [] jobs more h l e = absurd (omega arith)
handle_notify-step k ks s s' (c ∷ pipe) jobs more h l e =
    by_count (min (suc k) (s.size - length s.buf)) h e
  where
    by_count :
        (n : ℕ)
        → 0 < n
        → state_machine (record s { buf = s.buf ++ take n (c ∷ pipe) }) ≡ some (s', more)
        → (elim (take n (c ∷ pipe)) as (λ t. Option (PipeState × Bytes × List Job)) [
          | [] ↦ some (s, c ∷ pipe, jobs)
          | d ∷ got ↦
              elim (state_machine (record s { buf = s.buf ++ d ∷ got }))
                as (λ t. Option (PipeState × Bytes × List Job)) [
                  | none ↦ none
                  | some (s', more) ↦ handle_notify ks s' (drop n (c ∷ pipe)) (jobs ++ more)
                ]
        ])
          ≡ handle_notify ks s' (drop n (c ∷ pipe)) (jobs ++ more)
    by_count zero h e = absurd (omega arith)
    by_count (suc n) h e = rw e

handle_notify-empty :
    (ks : List ℕ) (s : PipeState) (jobs : List Job)
    → handle_notify ks s [] jobs ≡ some (s, [], jobs)
unfolding handle_notify
handle_notify-empty [] s jobs = refl
handle_notify-empty (k ∷ ks) s jobs =
    rw (handle_notify, take-nil (min (suc k) (s.size - length s.buf)))

module _ (junk : Bytes → Bytes) (u : IsJunk junk) where
  -- The reads from the start of a message on.
  abbrev FromStart : List ℕ → Type 0
  FromStart ks =
      (js out : List Job)
      → AreJobs js
      → length (written_all junk js) ≤ length ks
      → handle_notify ks pipe_start (written_all junk js) out ≡ some (pipe_start, [], out ++ js)

  -- The reads from the middle of a message on, of which `rest` is still to come.
  abbrev FromMiddle : List ℕ → Type 0
  FromMiddle ks =
      (job : Job) (js out : List Job) (type : ℕ) (step : PipeStep) (size : ℕ) (read : Bytes → Job)
      (body buf rest : Bytes)
      → IsMessage junk job type step size read body
      → buf ++ rest ≡ body
      → 0 < length rest
      → AreJobs js
      → length (rest ++ written_all junk js) ≤ length ks
      → handle_notify ks (in_message step size buf) (rest ++ written_all junk js) out
        ≡ some (pipe_start, [], out ++ (job ∷ js))

  start_step : (k : ℕ) (ks : List ℕ) → FromMiddle ks → FromStart (k ∷ ks)
  start_step k ks mid [] out a h =
      handle_notify-empty (k ∷ ks) pipe_start out
      ∙ ap (λ o. some (pipe_start, [], o)) (sym (append-nil out))
  start_step k ks mid (job ∷ js) out (j, a) h =
      let (type, step, size, read, body, m) = written-IsMessage junk job u j in
      let rest = written_all junk js in
      let pipe_is : written junk job ++ rest ≡ type ∷ (body ++ rest) =
        ap (λ b. b ++ rest) m.written_is in
      let one : min (suc k) 1 ≡ 1 = ground arith in
      let len : length (written junk job ++ rest) ≡ suc (length (body ++ rest)) =
        ap length pipe_is in
      let some_body = m.some_size in
      let body_len = m.body_length in
      ap (λ p. handle_notify (k ∷ ks) pipe_start p out) pipe_is
      ∙ handle_notify-step k ks pipe_start (in_message step size []) (type ∷ (body ++ rest)) out []
          (omega (arith, one)) (omega (arith, one))
          (ap
              (λ n.
                state_machine
                  (record { step = prepare; buf = take n (type ∷ (body ++ rest)); size = 1 }))
              one
            ∙ m.begun)
      ∙ ap
          (λ n.
            handle_notify ks (in_message step size []) (drop n (type ∷ (body ++ rest))) (out ++ []))
          one
      ∙ mid job js (out ++ []) type step size read body [] body m refl (omega arith) a (omega arith)
      ∙ ap (λ o. some (pipe_start, [], o ++ (job ∷ js))) (append-nil out)

  middle_step : (k : ℕ) (ks : List ℕ) → FromStart ks → FromMiddle ks → FromMiddle (k ∷ ks)
  middle_step k ks start mid job js out type step size read body buf rest m whole some_rest a h =
      let w = written_all junk js in
      let n = min (suc k) (size - length buf) in
      let body_len = m.body_length in
      let lens : length buf + length rest ≡ size =
        sym (length-append buf rest) ∙ ap length whole ∙ m.body_length in
      let bound : (0 < n) × (n ≤ length rest) = ground arith in
      let pos = bound.0 in
      let fits = bound.1 in
      let pipe_len = length-append rest w in
      let taken : take n (rest ++ w) ≡ take n rest = take-append_within n rest w fits in
      let left : drop n (rest ++ w) ≡ drop n rest ++ w = drop-append_within n rest w fits in
      let buf' = buf ++ take n rest in
      let buf_len : length buf' ≡ length buf + n =
        omega (arith, length-append buf (take n rest), length-take n rest fits) in
      let left_len : length (drop n rest) ≡ length rest - n = length-drop n rest in
      let left_pipe = length-append (drop n rest) w in
      elim (Bool-cases (n == length rest)) [
        | inl e ↦
            let n_is : n ≡ length rest = ==→eq n (length rest) e in
            let done : buf' ≡ body =
              ap (λ i. buf ++ take i rest) n_is ∙ ap (λ t. buf ++ t) (take_all rest) ∙ whole in
            let nothing : drop n rest ≡ [] = no_rest (drop n rest) (omega arith) in
            handle_notify-step k ks (in_message step size buf) pipe_start (rest ++ w) out (job ∷ [])
              pos (omega arith)
              (ap (λ t. state_machine (in_message step size (buf ++ t))) taken
                ∙ ap (λ t. state_machine (in_message step size t)) done
                ∙ m.kind.last body m.body_length (ap has_conn m.read_is ∙ m.conn_is)
                ∙ ap (λ j. some (pipe_start, j ∷ [])) m.read_is)
            ∙ ap (λ p. handle_notify ks pipe_start p (out ++ job ∷ []))
                (left ∙ ap (λ t. t ++ w) nothing)
            ∙ start js (out ++ job ∷ []) a (omega arith)
            ∙ ap (λ o. some (pipe_start, [], o)) (append_assoc out (job ∷ []) js)
        | inr e ↦
            let less : n < length rest = ground arith in
            handle_notify-step k ks (in_message step size buf) (in_message step size buf')
              (rest ++ w) out [] pos (omega arith)
              (ap (λ t. state_machine (in_message step size (buf ++ t))) taken
                ∙ m.kind.before buf' (omega arith))
            ∙ ap (λ p. handle_notify ks (in_message step size buf') p (out ++ [])) left
            ∙ mid job js (out ++ []) type step size read body buf' (drop n rest) m
                (append_assoc buf (take n rest) (drop n rest)
                  ∙ ap (λ t. buf ++ t) (take-drop n rest)
                  ∙ whole)
                (omega arith) a (omega arith)
            ∙ ap (λ o. some (pipe_start, [], o ++ (job ∷ js))) (append-nil out)
      ]
    where
      no_rest : (t : Bytes) → length t ≡ 0 → t ≡ []
      no_rest [] e = refl
      no_rest (c ∷ t) e = absurd (omega arith)

  both : (ks : List ℕ) → FromStart ks × FromMiddle ks
  both [] = (
    from_nothing,
    λ job js out type step size read body buf rest m whole pos a h.
        let l = length-append rest (written_all junk js) in absurd (omega arith),
  )
    where
      from_nothing : FromStart []
      from_nothing [] out a h =
          handle_notify-empty [] pipe_start out
          ∙ ap (λ o. some (pipe_start, [], o)) (sym (append-nil out))
      from_nothing (job ∷ js) out (j, a) h =
          let (type, step, size, read, body, m) = written-IsMessage junk job u j in
          let len : length (written junk job ++ written_all junk js)
              ≡ suc (length (body ++ written_all junk js)) =
            ap (λ b. length (b ++ written_all junk js)) m.written_is in
          absurd (omega arith)
  both (k ∷ ks) = let (s, m) = both ks in (start_step k ks m, middle_step k ks s m)

  -- Whatever bytes each `read` gives, a worker that starts on a pipe with some messages, written by
  -- `notify_add_conn` and `notify_match_conn`, reads every message whole, with all its fields, in the
  -- order they were written, and is ready for the next one, after at most as many reads as there are
  -- bytes; an address fits its array, the pointer to a connection is not null, and the numbers fit
  -- their fields.
  pub handle_notify-written :
      (ks : List ℕ) (js : List Job)
      → AreJobs js
      → length (written_all junk js) ≤ length ks
      → handle_notify ks pipe_start (written_all junk js) [] ≡ some (pipe_start, [], js)
  handle_notify-written ks js a h = (both ks).0 js [] a h
