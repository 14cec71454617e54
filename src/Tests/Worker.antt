-- ===== src/Tests/Worker.antt =====
-- The pipe of a worker at concrete jobs and reads.
use https_proxy_server.Base.{
  ℕ, zero, suc, ◌-◌, ◌≤◌, ◌≡◌, refl, ap, arith, List, [], ◌∷◌, some, true, false, length, Bytes,
  codes,
}
use https_proxy_server.Worker.Pipe.{
  Job, add_sock, match_sock, written, add_message, match_message, bytes_of, pipe_start,
  handle_notify,
}
use https_proxy_server.Worker.Pipe.Messages.{written_all}
use https_proxy_server.Worker.Pipe.Framing.{handle_notify-written}

abbrev copies : ℕ → List ℕ
copies zero = []
copies (suc n) = 0 ∷ copies n

length-copies : (n : ℕ) → length (copies n) ≡ n
length-copies zero = refl
length-copies (suc n) = ap suc (length-copies n)

abbrev zeros : Bytes → Bytes
zeros ip = copies (45 - length ip)

abbrev jobs : List Job
jobs = add_sock 7 (codes "10.0.0.1") 8080 false ∷ match_sock 4096 7 true ∷ []

abbrev one_by_one : List ℕ
one_by_one = copies 68

enough : length (written_all zeros jobs) ≤ length one_by_one
unfolding written add_message match_message bytes_of
enough = omega arith

handle_notify-written_example :
    handle_notify one_by_one pipe_start (written_all zeros jobs) [] ≡ some (pipe_start, [], jobs)
handle_notify-written_example =
    handle_notify-written zeros (λ ip. length-copies (45 - length ip)) one_by_one jobs
      ((omega arith, refl, omega arith, omega arith), ((omega arith, omega arith, omega arith), tt))
      enough
