-- ===== src/BasicPool/Chunk.antt =====
-- What `chunk_alloc` gives: memory that no one else owns, whether `malloc` succeeds or not.
use https_proxy_server.Base.{
  ℕ, zero, suc, ◌+◌, ◌-◌, ◌*◌, ◌/◌, ◌%◌, ◌<◌, ◌≤◌, true, ◌≡◌, refl, sym, ap, ◌∙◌, arith, Option,
  none, some, List, [], ◌∷◌, ◌==◌, leb, Bool-cases, inl, inr,
}
use native.Mathlib.Nat.{mul-div-le}
use https_proxy_server.BasicPool.{
  alignment, max_chunk_size, chunk_num, chunk_index, heap_node_size, HeapNode, Pool, set_list,
  PoolOutcome, allocated, crashed, exhausted, and_then, record_heap, allocate_with, add_heap_with,
  find_larger, left_of, keep_left, with_larger, use_larger, use_fresh, with_malloc, chunk_alloc,
}
use https_proxy_server.BasicPool.Owners.{
  covers, list_cover, class_size, heaps_cover, owners, covers_none, list_cover-cons,
  lists_cover-set_list,
}
use https_proxy_server.BasicPool.Safe.{
  IsClass, IsAligned, IsChunk, kept, owners-kept, times_sixteen, cut-IsChunk, keep_left-kept,
}
use https_proxy_server.BasicPool.Given.{
  IsAlloc, IsChunk-shift, IsRecorded, record_heap-IsRecorded, allocate_with-IsBlock,
}

-- Where memory that is to be cut up takes the place of what is left.
abbrev with_memory : ℕ → ℕ → ℕ → (ℕ → List ℕ) → List HeapNode → Pool
with_memory calls a b lists heaps = record {
  free_list = lists;
  heap_list = heaps;
  start_free = a;
  end_free = b;
  calls = calls;
}

owners-with_memory :
    (calls a n : ℕ) (pool : Pool) (x : ℕ)
    → owners (with_memory calls a (a + n) pool.free_list pool.heap_list) x
      ≡ kept pool x + covers a n x
owners-with_memory calls a n pool x =
    owners-kept (with_memory calls a (a + n) pool.free_list pool.heap_list) x
    ∙ ap (λ m. kept pool x + covers a m x) (omega arith)

-- A larger block that is found is the first of its list.
IsLarger : (ℕ → List ℕ) → Option (ℕ × ℕ × List ℕ) → Type 0
IsLarger lists none = Unit {0}
IsLarger lists (some (n, p, rest)) = (j : ℕ) × IsClass n j × (lists (chunk_index n) ≡ p ∷ rest)

find_larger-IsLarger :
    (count n j : ℕ) (lists : ℕ → List ℕ)
    → n ≡ class_size j
    → j + count ≤ chunk_num
    → IsLarger lists (find_larger count n lists)
unfolding find_larger IsLarger
find_larger-IsLarger zero n j lists e h = tt
find_larger-IsLarger (suc count) n j lists e h =
    by_list (lists (chunk_index n)) refl
      (find_larger-IsLarger count (n + alignment) (suc j) lists (omega arith) (omega arith))
  where
    by_list :
        (l : List ℕ)
        → lists (chunk_index n) ≡ l
        → IsLarger lists (find_larger count (n + alignment) lists)
        → IsLarger lists (find_larger (suc count) n lists)
    by_list [] q ih = rw (find_larger, q) ih
    by_list (p ∷ rest) q ih = rw (find_larger, q) (j, (e, omega arith, omega arith), q)

-- A block that is taken off its list.
kept-set_list :
    (pool : Pool) (n j p : ℕ) (rest : List ℕ) (x : ℕ)
    → IsClass n j
    → pool.free_list (chunk_index n) ≡ p ∷ rest
    → kept (record pool { free_list = set_list (chunk_index n) rest pool.free_list }) x
        + covers p n x
      ≡ kept pool x
kept-set_list pool n j p rest x (class, low, index) e =
    let i = chunk_index n in
    let set = lists_cover-set_list chunk_num i rest pool.free_list x (omega arith) in
    let old : list_cover (class_size i) (pool.free_list i) x
        ≡ covers p (class_size i) x + list_cover (class_size i) rest x =
      ap (λ l. list_cover (class_size i) l x) e ∙ list_cover-cons (class_size i) p rest x in
    let same_size : covers p (class_size i) x ≡ covers p n x =
      ap (λ m. covers p m x) (ap class_size index ∙ sym class) in
    omega arith

module _ (mallocs : ℕ → Option ℕ) where
  -- What is left of the pool is smaller than the size asked for.
  module _ (alloc : ℕ → ℕ → Pool → PoolOutcome) (f : IsAlloc alloc) (size k num : ℕ)
      (c : IsClass size k) (pool : Pool) (al : IsAligned pool) (short : left_of pool < size) where
    abbrev base : Pool
    base = keep_left pool

    small : left_of pool ≤ max_chunk_size
    small = let a = c.0 in let b = c.1 in omega arith

    use_fresh-IsChunk :
        (mem : ℕ)
        → IsChunk size pool
            (use_fresh mallocs alloc mem size num (record base { calls = suc base.calls }))
    unfolding add_heap_with
    use_fresh-IsChunk mem =
        let bytes = 2 * (size * num) in
        let m = times_sixteen size k num c.0 in
        let pool1 = with_memory (suc base.calls) mem (mem + bytes) base.free_list base.heap_list in
        let aligned : IsAligned pool1 = (omega arith, omega arith) in
        let block =
          allocate_with-IsBlock mallocs alloc heap_node_size pool1 f (omega arith) (omega arith)
            aligned in
        go (and_then (allocate_with mallocs alloc heap_node_size pool1) (record_heap mem bytes))
          (record_heap-IsRecorded mem bytes pool1 (allocate_with mallocs alloc heap_node_size pool1)
            block)
          (λ x. owners-with_memory (suc base.calls) mem bytes base x)
      where
        go :
            (o : PoolOutcome)
            → IsRecorded mem
                (2 * (size * num))
                (with_memory
                  (suc base.calls)
                  mem
                  (mem + 2 * (size * num))
                  base.free_list
                  base.heap_list)
                o
            → ((x : ℕ)
                → owners
                    (with_memory
                      (suc base.calls)
                      mem
                      (mem + 2 * (size * num))
                      base.free_list
                      base.heap_list)
                    x
                  ≡ kept base x + covers mem (2 * (size * num)) x)
            → IsChunk size pool (and_then o (λ ptr n p. alloc size num p))
        go crashed h fresh = tt
        go exhausted h fresh = tt
        go (allocated ptr n p) (ok, g) fresh =
            IsChunk-shift size pool p (alloc size num p)
              (λ x.
                let a = g x in
                let b = fresh x in
                let (kl, hl) = keep_left-kept pool x al small in
                let heaps = ap (λ h. heaps_cover h x) hl in omega arith)
              (f size k num p c ok)

    use_larger-IsChunk :
        IsChunk size pool (use_larger alloc size num (record base { calls = suc base.calls }))
    unfolding IsLarger
    use_larger-IsChunk =
        by_found
          (find_larger ((max_chunk_size - size) / alignment) (size + alignment) base.free_list)
          (find_larger-IsLarger ((max_chunk_size - size) / alignment) (size + alignment) (suc k)
            base.free_list (let a = c.0 in omega arith) (let a = c.0 in let b = c.1 in omega arith))
      where
        by_found :
            (o : Option (ℕ × ℕ × List ℕ))
            → IsLarger base.free_list o
            → IsChunk size pool
                (with_larger alloc size num (record base { calls = suc base.calls }) o)
        by_found none h = (
          (omega arith, omega arith),
          λ x.
              let (kl, hl) = keep_left-kept pool x al small in
              let heaps = ap (λ h. heaps_cover h x) hl in
              let empty = owners-with_memory (suc base.calls) 0 0 base x in
              let nothing = covers_none 0 x in omega arith,
        )
        by_found (some (n, p, rest)) (j, class, q) =
            let lists = set_list (chunk_index n) rest base.free_list in
            let pool2 = with_memory (suc base.calls) p (p + n) lists base.heap_list in
            let m = class.0 in
            IsChunk-shift size pool pool2 (alloc size num pool2)
              (λ x.
                let (kl, hl) = keep_left-kept pool x al small in
                let heaps = ap (λ h. heaps_cover h x) hl in
                let own =
                  owners-with_memory (suc base.calls) p n (record base { free_list = lists }) x in
                let taken = kept-set_list base n j p rest x class q in omega arith)
              (f size k num pool2 c (omega arith, omega arith))

  pub chunk_alloc-IsAlloc : (fuel : ℕ) → IsAlloc (chunk_alloc mallocs fuel)
  unfolding chunk_alloc
  chunk_alloc-IsAlloc zero size k num pool c al = tt
  chunk_alloc-IsAlloc (suc fuel) size k num pool c al =
      elim (Bool-cases (leb (size * num) (left_of pool))) [
        | inl e ↦ rw (chunk_alloc, e) (cut-IsChunk size k num pool c.0 al (ground arith))
        | inr e ↦ elim (Bool-cases (leb size (left_of pool))) [
          | inl d ↦
              rw (chunk_alloc, e, d)
                (cut-IsChunk size k (left_of pool / size) pool c.0 al
                  (whole_blocks size (left_of pool)))
          | inr d ↦
              let aligned : (left_of pool % alignment == 0) ≡ true = let a = al.1 in ground arith in
              rw (chunk_alloc, e, d, aligned)
                (with_either (mallocs (keep_left pool).calls) (ground arith)
                  (chunk_alloc-IsAlloc fuel))
        ]
      ]
    where
      whole_blocks : (s n : ℕ) → s * (n / s) ≤ n
      whole_blocks s n = mul-div-le n s

      with_either :
          (o : Option ℕ)
          → left_of pool < size
          → IsAlloc (chunk_alloc mallocs fuel)
          → IsChunk size pool (
              with_malloc mallocs
                (chunk_alloc mallocs fuel)
                o
                size
                num
                (record (keep_left pool) { calls = suc (keep_left pool).calls }))
      with_either none short f =
          use_larger-IsChunk (chunk_alloc mallocs fuel) f size k num c pool al short
      with_either (some mem) short f =
          use_fresh-IsChunk (chunk_alloc mallocs fuel) f size k num c pool al short mem
