-- ===== src/BasicPool/Safe.antt =====
-- No byte is handed out twice: what each operation does to the owners of a byte.
use https_proxy_server.Base.{
  ℕ, zero, suc, ◌+◌, ◌-◌, ◌*◌, ◌%◌, ◌<◌, ◌≤◌, false, ◌≡◌, refl, sym, ap, ◌∙◌, arith, Option, none,
  some, ◌∷◌, ◌==◌, Bool-cases, inl, inr, ==→eq,
}
use native.Mathlib.Nat.{mul_comm, mul_assoc}
use https_proxy_server.BasicPool.{
  alignment, max_chunk_size, chunk_num, chunk_index, Pool, set_list, PoolOutcome, allocated,
  crashed, exhausted, and_then, blocks_from, cut_up, left_of, keep_left, cut,
}
use https_proxy_server.BasicPool.Owners.{
  covers, list_cover, class_size, lists_cover, nodes_cover, heaps_cover, owners, covers_none,
  covers_split, list_cover-blocks_from, lists_cover-set_list, list_cover-cons, owners-set_list,
}

-- A size of a free list, and its index.
abbrev pub IsClass : ℕ → ℕ → Type 0
IsClass size k = (size ≡ class_size k) × (k < chunk_num) × (chunk_index size ≡ k)

-- The memory that is left is cut at multiples of 16.
abbrev pub IsAligned : Pool → Type 0
IsAligned pool = (pool.start_free ≤ pool.end_free) × (left_of pool % alignment ≡ 0)

-- No byte has more owners than before, but for the memory that has come from `malloc` since; `gain`
-- is what the caller owns.
abbrev pub IsGrown : Pool → Pool → (ℕ → ℕ) → Type 0
IsGrown pool pool' gain =
    (x : ℕ)
    → owners pool' x + gain x + heaps_cover pool.heap_list x
      ≤ owners pool x + heaps_cover pool'.heap_list x

-- The caller gets `n` blocks of a size in a row, or none.
abbrev pub IsChunk : ℕ → Pool → PoolOutcome → Type 0
IsChunk size pool (allocated none n pool') = IsAligned pool' × IsGrown pool pool' (λ x. 0)
IsChunk size pool (allocated (some a) n pool') =
    IsAligned pool' × IsGrown pool pool' (covers a (size * n))
IsChunk size pool crashed = Unit {0}
IsChunk size pool exhausted = Unit {0}

-- The caller gets one block.
abbrev pub IsBlock : ℕ → Pool → PoolOutcome → Type 0
IsBlock size pool (allocated none n pool') = IsAligned pool' × IsGrown pool pool' (λ x. 0)
IsBlock size pool (allocated (some a) n pool') =
    IsAligned pool' × IsGrown pool pool' (covers a size)
IsBlock size pool crashed = Unit {0}
IsBlock size pool exhausted = Unit {0}

-- What the lists and the heap nodes own.
abbrev pub kept : Pool → ℕ → ℕ
kept pool x = lists_cover chunk_num pool.free_list x + nodes_cover pool.heap_list x

pub owners-kept :
    (pool : Pool) (x : ℕ) → owners pool x ≡ kept pool x + covers pool.start_free (left_of pool) x
unfolding owners
owners-kept pool x = refl

pub times_sixteen : (size k num : ℕ) → size ≡ class_size k → size * num ≡ 16 * (suc k * num)
times_sixteen size k num e = ap (λ s. s * num) e ∙ mul_assoc 16 (suc k) num

pub cut-IsChunk :
    (size k num : ℕ) (pool : Pool)
    → size ≡ class_size k
    → IsAligned pool
    → size * num ≤ left_of pool
    → IsChunk size pool (cut size num pool)
cut-IsChunk size k num pool e (le, al) h =
    let m = times_sixteen size k num e in
    (
      (omega arith, omega arith),
      λ x.
          let before = owners-kept pool x in
          let after = owners-kept (record pool { start_free = pool.start_free + size * num }) x in
          let split = covers_split pool.start_free (size * num) (left_of pool - size * num) x in
          let whole : covers pool.start_free (size * num + (left_of pool - size * num)) x
              ≡ covers pool.start_free (left_of pool) x =
            ap (λ n. covers pool.start_free n x) (omega arith) in
          let rest : covers (pool.start_free + size * num) (left_of pool - size * num) x
              ≡ covers (pool.start_free + size * num)
                  (pool.end_free - (pool.start_free + size * num)) x =
            ap (λ n. covers (pool.start_free + size * num) n x) (omega arith) in
          omega arith,
    )

-- The bytes that are left become a block, so that the memory to be cut up may be replaced.
pub keep_left-kept :
    (pool : Pool) (x : ℕ)
    → IsAligned pool
    → left_of pool ≤ max_chunk_size
    → (kept (keep_left pool) x ≡ owners pool x) × ((keep_left pool).heap_list ≡ pool.heap_list)
keep_left-kept pool x (le, al) small = elim (Bool-cases (left_of pool == 0)) [
  | inl z ↦
      let none_left : covers pool.start_free (left_of pool) x ≡ 0 =
        ap (λ n. covers pool.start_free n x) (==→eq (left_of pool) 0 z)
        ∙ covers_none pool.start_free x in
      let before = owners-kept pool x in rw z (omega arith, refl)
  | inr z ↦
      let i = chunk_index (left_of pool) in
      let some_left : 0 < left_of pool = ground arith in
      let class : class_size i ≡ left_of pool = omega arith in
      let before = owners-kept pool x in
      let pushed =
        lists_cover-set_list chunk_num i (pool.start_free ∷ pool.free_list i) pool.free_list x
          (omega arith) in
      let new_block = list_cover-cons (class_size i) pool.start_free (pool.free_list i) x in
      let block : covers pool.start_free (class_size i) x
          ≡ covers pool.start_free (left_of pool) x =
        ap (λ n. covers pool.start_free n x) class in
      rw z (omega arith, refl)
]

-- The blocks behind the first one become a free list, whatever was in it.
listed :
    (size k : ℕ) (pool p : Pool) (a n : ℕ)
    → IsClass size k
    → 0 < n
    → (x : ℕ)
    → owners p x + covers a (size * n) x + heaps_cover pool.heap_list x
      ≤ owners pool x + heaps_cover p.heap_list x
    → owners
          (record p {
            free_list =
                set_list (chunk_index size) (blocks_from size (n - 1) (a + size)) p.free_list;
          })
          x
        + covers a size x
        + heaps_cover pool.heap_list x
      ≤ owners pool x + heaps_cover p.heap_list x
listed size k pool p a n (class, low, index) pos x g =
    let i = chunk_index size in
    let below : i < chunk_num = omega arith in
    let same_size : class_size i ≡ size = ap class_size index ∙ sym class in
    let new = blocks_from size (n - 1) (a + size) in
    let set = owners-set_list p i new x below in
    let row =
      ap (λ s. list_cover s new x) same_size ∙ list_cover-blocks_from size (n - 1) (a + size) x in
    let len : size + (n - 1) * size ≡ size * n = whole_row size n pos in
    let split = covers_split a size ((n - 1) * size) x in
    let all_row = ap (λ m. covers a m x) len in omega arith
  where
    whole_row : (size n : ℕ) → 0 < n → size + (n - 1) * size ≡ size * n
    whole_row size zero h = absurd (omega arith)
    whole_row size (suc n) h = ground (arith, mul_comm n size)

pub cut_up-IsBlock :
    (size k : ℕ) (pool : Pool) (o : PoolOutcome)
    → IsClass size k
    → IsChunk size pool o
    → IsBlock size pool (and_then o (cut_up size))
unfolding cut_up
cut_up-IsBlock size k pool crashed c h = tt
cut_up-IsBlock size k pool exhausted c h = tt
cut_up-IsBlock size k pool (allocated ptr n p) c h = elim (Bool-cases (n == 0)) [
  | inl z ↦ rw (cut_up, z) tt
  | inr z ↦ elim (Bool-cases (n == 1)) [
    | inl o ↦ rw (cut_up, z, o) (one_block ptr h (==→eq n 1 o))
    | inr o ↦ many_blocks ptr h z o
  ]
]
  where
    one_block :
        (ptr : Option ℕ)
        → IsChunk size pool (allocated ptr n p)
        → n ≡ 1
        → IsBlock size pool (allocated ptr n p)
    one_block none h e = h
    one_block (some a) (al, g) e =
        let one : size * n ≡ size = ap (λ m. size * m) e ∙ ground arith in
        (al, λ x. let block = ap (λ m. covers a m x) one in let k = g x in omega arith)

    many_blocks :
        (ptr : Option ℕ)
        → IsChunk size pool (allocated ptr n p)
        → (n == 0) ≡ false
        → (n == 1) ≡ false
        → IsBlock size pool (cut_up size ptr n p)
    many_blocks none h z o = rw (cut_up, z, o) tt
    many_blocks (some a) (al, g) z o =
        rw (cut_up, z, o) (al, λ x. listed size k pool p a n c (ground arith) x (g x))
