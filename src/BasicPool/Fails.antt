-- ===== src/BasicPool/Fails.antt =====
-- What a `malloc` that fails does to a new pool.
use https_proxy_server.Base.{
  ℕ, zero, suc, ◌+◌, ◌-◌, ◌*◌, ◌/◌, ◌<◌, ◌≤◌, true, false, ◌≡◌, refl, arith, Option, none, [], ◌==◌,
  leb,
}
use https_proxy_server.BasicPool.{
  alignment, max_chunk_size, round_up, new_pool, crashed, cut_up, refill_with, allocate_with,
  find_larger, chunk_alloc, allocate,
}

-- No block of any size is free.
find_larger-empty : (count n : ℕ) → find_larger count n (λ i. []) ≡ none
unfolding find_larger
find_larger-empty zero n = refl
find_larger-empty (suc count) n = find_larger-empty count (n + alignment)

-- In a new pool, a `malloc` that fails makes `allocate` write through NULL, for every size up to the
-- largest.
pub allocate-crashes :
    (mallocs : ℕ → Option ℕ) (size : ℕ)
    → mallocs 0 ≡ none
    → 0 < size
    → size ≤ max_chunk_size
    → allocate mallocs size new_pool ≡ crashed
unfolding allocate allocate_with refill_with chunk_alloc cut_up
allocate-crashes mallocs size m pos small =
    let z : (size == 0) ≡ false = ground arith in
    let s : leb size max_chunk_size ≡ true = ground arith in
    let up : 16 ≤ round_up size = omega arith in
    let t : leb (round_up size * 16) 0 ≡ false = ground arith in
    let u : leb (round_up size) 0 ≡ false = ground arith in
    rw (
      allocate,
      allocate_with,
      z,
      s,
      chunk_alloc,
      t,
      u,
      m,
      find_larger-empty ((max_chunk_size - round_up size) / alignment) (round_up size + alignment),
    )
