-- ===== src/BasicPool/Done.antt =====
-- `allocate` ends: no call goes deeper than the fuel.
use https_proxy_server.Base.{
  ℕ, zero, suc, ◌+◌, ◌-◌, ◌*◌, ◌/◌, ◌%◌, ◌<◌, ◌≤◌, true, false, ◌≡◌, refl, sym, subst, arith,
  Option, none, some, List, [], ◌∷◌, ◌==◌, leb, Bool-cases, inl, inr,
}
use https_proxy_server.BasicPool.{
  alignment, max_chunk_size, node_num, round_up, chunk_index, Pool, set_list, PoolOutcome,
  allocated, crashed, exhausted, and_then, blocks_from, cut_up, refill_with, allocate_with,
  add_heap_with, find_larger, left_of, keep_left, cut, with_larger, use_larger, use_fresh,
  with_malloc, more_memory, chunk_alloc, depth, allocate,
}

abbrev pub IsDone : PoolOutcome → Type 0
IsDone (allocated ptr n pool) = Unit {0}
IsDone crashed = Unit {0}
IsDone exhausted = ⊥

-- A size of which the pool has room is cut at once.
chunk_alloc-cut :
    (mallocs : ℕ → Option ℕ) (fuel size num : ℕ) (pool : Pool)
    → size ≤ left_of pool
    → (n : ℕ) × (chunk_alloc mallocs (suc fuel) size num pool ≡ cut size n pool)
unfolding chunk_alloc
chunk_alloc-cut mallocs fuel size num pool h = elim (Bool-cases (leb (size * num) (left_of pool))) [
  | inl e ↦ (num, rw (chunk_alloc, e))
  | inr e ↦
      let d : leb size (left_of pool) ≡ true = ground arith in
      (left_of pool / size, rw (chunk_alloc, e, d))
]

chunk_alloc-IsDone :
    (mallocs : ℕ → Option ℕ) (fuel size num : ℕ) (pool : Pool)
    → size ≤ left_of pool
    → IsDone (chunk_alloc mallocs (suc fuel) size num pool)
chunk_alloc-IsDone mallocs fuel size num pool h =
    let (n, e) = chunk_alloc-cut mallocs fuel size num pool h in subst IsDone (sym e) tt

-- A larger block that is found is at least as large as asked for.
IsLarge : ℕ → Option (ℕ × ℕ × List ℕ) → Type 0
IsLarge n none = Unit {0}
IsLarge n (some (m, p, rest)) = n ≤ m

find_larger-IsLarge : (count n : ℕ) (lists : ℕ → List ℕ) → IsLarge n (find_larger count n lists)
unfolding find_larger IsLarge
find_larger-IsLarge zero n lists = tt
find_larger-IsLarge (suc count) n lists = by_list (lists (chunk_index n)) refl (
    weaken (find_larger count (n + alignment) lists)
      (find_larger-IsLarge count (n + alignment) lists))
  where
    weaken : (o : Option (ℕ × ℕ × List ℕ)) → IsLarge (n + alignment) o → IsLarge n o
    weaken none h = tt
    weaken (some (m, p, rest)) h = omega arith

    by_list :
        (l : List ℕ)
        → lists (chunk_index n) ≡ l
        → IsLarge n (find_larger count (n + alignment) lists)
        → IsLarge n (find_larger (suc count) n lists)
    by_list [] q ih = rw (find_larger, q) ih
    by_list (p ∷ rest) q ih = rw (find_larger, q) (omega arith)

use_larger-IsDone :
    (mallocs : ℕ → Option ℕ) (fuel size num : ℕ) (pool : Pool)
    → IsDone (use_larger (chunk_alloc mallocs (suc fuel)) size num pool)
unfolding IsLarge
use_larger-IsDone mallocs fuel size num pool =
    by_found (find_larger ((max_chunk_size - size) / alignment) (size + alignment) pool.free_list)
      (find_larger-IsLarge ((max_chunk_size - size) / alignment) (size + alignment) pool.free_list)
  where
    by_found :
        (o : Option (ℕ × ℕ × List ℕ))
        → IsLarge (size + alignment) o
        → IsDone (with_larger (chunk_alloc mallocs (suc fuel)) size num pool o)
    by_found none h = tt
    by_found (some (n, p, rest)) h = chunk_alloc-IsDone mallocs fuel size num _ (omega arith)

-- A heap node is free.
abbrev HasNode : Pool → Type 0
HasNode pool = (a : ℕ) × (rest : List ℕ) × (pool.free_list 1 ≡ a ∷ rest)

keep_left-HasNode : (pool : Pool) → HasNode pool → HasNode (keep_left pool)
unfolding set_list
keep_left-HasNode pool (a, rest, e) = elim (Bool-cases (left_of pool == 0)) [
  | inl z ↦ (a, rest, rw z e)
  | inr z ↦ elim (Bool-cases (1 == chunk_index (left_of pool))) [
    | inl s ↦ (pool.start_free, pool.free_list (chunk_index (left_of pool)), rw (z, s))
    | inr s ↦ (a, rest, rw (z, s) e)
  ]
]

module _ (mallocs : ℕ → Option ℕ) where
  -- The heap node is taken off its list, and the rest of the fresh memory is cut.
  use_fresh-node :
      (fuel mem size : ℕ) (pool : Pool)
      → HasNode pool
      → IsDone (use_fresh mallocs (chunk_alloc mallocs (suc fuel)) mem size node_num pool)
  unfolding add_heap_with allocate_with
  use_fresh-node fuel mem size pool (a, rest, e) =
      rw e (chunk_alloc-IsDone mallocs fuel size node_num _ (omega arith))

  -- Memory once what is left is too small, when a heap node is free or can be made.
  after_left :
      (fuel size : ℕ) (pool : Pool)
      → IsDone (more_memory mallocs (chunk_alloc mallocs fuel) size node_num (keep_left pool))
      → IsDone (chunk_alloc mallocs (suc fuel) size node_num pool)
  unfolding chunk_alloc
  after_left fuel size pool more = elim (Bool-cases (leb (size * node_num) (left_of pool))) [
    | inl e ↦ rw (chunk_alloc, e) tt
    | inr e ↦ elim (Bool-cases (leb size (left_of pool))) [
      | inl d ↦ rw (chunk_alloc, e, d) tt
      | inr d ↦ elim (Bool-cases (left_of pool % alignment == 0)) [
        | inl m ↦ rw (chunk_alloc, e, d, m) more
        | inr m ↦ rw (chunk_alloc, e, d, m) tt
      ]
    ]
  ]

  node-IsDone :
      (fuel size : ℕ) (pool : Pool)
      → HasNode pool
      → IsDone (chunk_alloc mallocs (suc (suc fuel)) size node_num pool)
  node-IsDone fuel size pool h =
      after_left (suc fuel) size pool
        (by_malloc (mallocs (keep_left pool).calls) (keep_left-HasNode pool h))
    where
      by_malloc :
          (o : Option ℕ)
          → HasNode (keep_left pool)
          → IsDone (
              with_malloc mallocs
                (chunk_alloc mallocs (suc fuel))
                o
                size
                node_num
                (record (keep_left pool) { calls = suc (keep_left pool).calls }))
      by_malloc none n =
          use_larger-IsDone mallocs fuel size node_num
            (record (keep_left pool) { calls = suc (keep_left pool).calls })
      by_malloc (some mem) n =
          use_fresh-node fuel mem size
            (record (keep_left pool) { calls = suc (keep_left pool).calls }) n

  -- The first heap nodes are cut from the fresh memory.
  use_fresh-IsDone :
      (fuel mem size : ℕ) (pool : Pool)
      → 16 ≤ size
      → IsDone (use_fresh mallocs (chunk_alloc mallocs (suc (suc fuel))) mem size node_num pool)
  unfolding add_heap_with allocate_with refill_with cut_up chunk_alloc blocks_from set_list
  use_fresh-IsDone fuel mem size pool h = by_list (pool.free_list 1) refl
    where
      by_list :
          (l : List ℕ)
          → pool.free_list 1 ≡ l
          → IsDone (use_fresh mallocs (chunk_alloc mallocs (suc (suc fuel))) mem size node_num pool)
      by_list (a ∷ rest) e = use_fresh-node (suc fuel) mem size pool (a, rest, e)
      by_list [] e =
          let room : leb 512 (mem + 2 * (size * node_num) - mem) ≡ true = ground arith in
          rw (e, room) (node-IsDone fuel size _ (mem + 32, _, refl))

  pub chunk_alloc-node_num :
      (fuel size : ℕ) (pool : Pool)
      → 16 ≤ size
      → IsDone (chunk_alloc mallocs (suc (suc (suc fuel))) size node_num pool)
  chunk_alloc-node_num fuel size pool h =
      after_left (suc (suc fuel)) size pool (by_malloc (mallocs (keep_left pool).calls))
    where
      by_malloc :
          (o : Option ℕ)
          → IsDone (
              with_malloc mallocs
                (chunk_alloc mallocs (suc (suc fuel)))
                o
                size
                node_num
                (record (keep_left pool) { calls = suc (keep_left pool).calls }))
      by_malloc none =
          use_larger-IsDone mallocs (suc fuel) size node_num
            (record (keep_left pool) { calls = suc (keep_left pool).calls })
      by_malloc (some mem) =
          use_fresh-IsDone fuel mem size
            (record (keep_left pool) { calls = suc (keep_left pool).calls }) h

  cut_up-IsDone : (size : ℕ) (o : PoolOutcome) → IsDone o → IsDone (and_then o (cut_up size))
  unfolding cut_up
  cut_up-IsDone size exhausted h = absurd h
  cut_up-IsDone size crashed h = tt
  cut_up-IsDone size (allocated ptr n p) h = elim (Bool-cases (n == 0)) [
    | inl z ↦ rw (cut_up, z) tt
    | inr z ↦ elim (Bool-cases (n == 1)) [
      | inl o ↦ rw (cut_up, z, o) tt
      | inr o ↦ by_pointer ptr z o
    ]
  ]
    where
      by_pointer : (q : Option ℕ) → (n == 0) ≡ false → (n == 1) ≡ false → IsDone (cut_up size q n p)
      by_pointer none z o = rw (cut_up, z, o) tt
      by_pointer (some a) z o = rw (cut_up, z, o) tt

  -- Whatever `malloc` returns, and whatever the pool has, `allocate` ends: `chunk_alloc`, `add_heap`
  -- and `allocate`, which call each other, go no deeper than three calls.
  pub allocate-IsDone : (size : ℕ) (pool : Pool) → IsDone (allocate mallocs size pool)
  unfolding allocate allocate_with refill_with
  allocate-IsDone size pool = elim (Bool-cases (size == 0)) [
    | inl z ↦ rw (allocate, allocate_with, z) tt
    | inr z ↦ elim (Bool-cases (leb size max_chunk_size)) [
      | inr s ↦ rw (allocate, allocate_with, z, s) tt
      | inl s ↦ by_list (pool.free_list (chunk_index size)) refl z s
    ]
  ]
    where
      by_list :
          (l : List ℕ)
          → pool.free_list (chunk_index size) ≡ l
          → (size == 0) ≡ false
          → leb size max_chunk_size ≡ true
          → IsDone (allocate mallocs size pool)
      by_list (a ∷ rest) e z s = rw (allocate, allocate_with, z, s, e) tt
      by_list [] e z s =
          let pos : 0 < size = ground arith in
          rw (allocate, allocate_with, z, s, e)
            (cut_up-IsDone (round_up size) (chunk_alloc mallocs depth (round_up size) node_num pool)
              (chunk_alloc-node_num 0 (round_up size) pool (omega arith)))
