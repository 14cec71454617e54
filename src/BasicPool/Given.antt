-- ===== src/BasicPool/Given.antt =====
-- What `allocate` gives: a block that no one else owns.
use https_proxy_server.Base.{
  ℕ, ◌+◌, ◌<◌, ◌≤◌, true, false, ◌≡◌, refl, ap, ◌∙◌, arith, Option, none, some, List, [], ◌∷◌, ◌==◌,
  leb,
}
use https_proxy_server.BasicPool.{
  max_chunk_size, node_num, round_up, chunk_index, heap_node_size, HeapNode, Pool, set_list,
  PoolOutcome, allocated, crashed, exhausted, and_then, refill_with, record_heap, allocate_with,
}
use https_proxy_server.BasicPool.Owners.{
  covers, list_cover, class_size, nodes_cover, heaps_cover, owners, list_cover-cons,
  owners-set_list,
}
use https_proxy_server.BasicPool.Safe.{IsClass, IsAligned, IsChunk, IsBlock, cut_up-IsBlock}

-- A function that gets memory without taking any from another owner.
abbrev pub IsAlloc : (ℕ → ℕ → Pool → PoolOutcome) → Type 0
IsAlloc alloc =
    (size k num : ℕ) (pool : Pool)
    → IsClass size k
    → IsAligned pool
    → IsChunk size pool (alloc size num pool)

-- The size of a request, rounded up, is that of a list.
pub round_up-IsClass :
    (size : ℕ) → 0 < size → size ≤ max_chunk_size → IsClass (round_up size) (chunk_index size)
round_up-IsClass size h k = (omega arith, omega arith, omega arith)

pub IsChunk-shift :
    (size : ℕ) (pool p : Pool) (o : PoolOutcome)
    → ((x : ℕ)
        → owners p x + heaps_cover pool.heap_list x ≤ owners pool x + heaps_cover p.heap_list x)
    → IsChunk size p o
    → IsChunk size pool o
IsChunk-shift size pool p (allocated none n q) f (al, g) =
    (al, λ x. let a = f x in let b = g x in omega arith)
IsChunk-shift size pool p (allocated (some a) n q) f (al, g) =
    (al, λ x. let a = f x in let b = g x in omega arith)
IsChunk-shift size pool p crashed f h = tt
IsChunk-shift size pool p exhausted f h = tt

-- A block is popped from its list.
popped :
    (size : ℕ) (pool : Pool) (node : ℕ) (rest : List ℕ) (x : ℕ)
    → IsClass (round_up size) (chunk_index size)
    → pool.free_list (chunk_index size) ≡ node ∷ rest
    → owners (record pool { free_list = set_list (chunk_index size) rest pool.free_list }) x
        + covers node (round_up size) x
      ≡ owners pool x
popped size pool node rest x (class, low, index) e =
    let i = chunk_index size in
    let set = owners-set_list pool i rest x low in
    let old : list_cover (class_size i) (pool.free_list i) x
        ≡ covers node (class_size i) x + list_cover (class_size i) rest x =
      ap (λ l. list_cover (class_size i) l x) e ∙ list_cover-cons (class_size i) node rest x in
    let same_size = ap (λ n. covers node n x) class in omega arith

module _ (mallocs : ℕ → Option ℕ) where
  pub allocate_with-IsBlock :
      (alloc : ℕ → ℕ → Pool → PoolOutcome) (size : ℕ) (pool : Pool)
      → IsAlloc alloc
      → 0 < size
      → size ≤ max_chunk_size
      → IsAligned pool
      → IsBlock (round_up size) pool (allocate_with mallocs alloc size pool)
  unfolding allocate_with refill_with
  allocate_with-IsBlock alloc size pool f pos small al =
      by_list (pool.free_list (chunk_index size)) refl (ground arith) (ground arith)
    where
      by_list :
          (l : List ℕ)
          → pool.free_list (chunk_index size) ≡ l
          → (size == 0) ≡ false
          → leb size max_chunk_size ≡ true
          → IsBlock (round_up size) pool (allocate_with mallocs alloc size pool)
      by_list [] e z s =
          let class = round_up-IsClass size pos small in
          rw (allocate_with, z, s, e)
            (cut_up-IsBlock (round_up size) (chunk_index size) pool
              (alloc (round_up size) node_num pool) class
              (f (round_up size) (chunk_index size) node_num pool class al))
      by_list (node ∷ rest) e z s =
          rw (allocate_with, z, s, e)
            (
              al,
              λ x.
                  let pop = popped size pool node rest x (round_up-IsClass size pos small) e in
                  omega arith,
            )

-- The memory that is recorded gets its owners with the record.
abbrev pub IsRecorded : ℕ → ℕ → Pool → PoolOutcome → Type 0
IsRecorded mem size pool (allocated ptr n p) =
    IsAligned p
    × ((x : ℕ)
        → owners p x + heaps_cover pool.heap_list x + covers mem size x
          ≤ owners pool x + heaps_cover p.heap_list x)
IsRecorded mem size pool crashed = Unit {0}
IsRecorded mem size pool exhausted = Unit {0}

owners-record_heap :
    (p : Pool) (node mem size x : ℕ)
    → owners
        (record p { heap_list = record { node = node; mem = mem; size = size } ∷ p.heap_list })
        x
      ≡ owners p x + covers node (round_up heap_node_size) x
unfolding owners nodes_cover
owners-record_heap p node mem size x = omega arith

heaps_cover-cons :
    (node mem size : ℕ) (heaps : List HeapNode) (x : ℕ)
    → heaps_cover (record { node = node; mem = mem; size = size } ∷ heaps) x
      ≡ covers mem size x + heaps_cover heaps x
unfolding heaps_cover
heaps_cover-cons node mem size heaps x = refl

pub record_heap-IsRecorded :
    (mem size : ℕ) (pool : Pool) (o : PoolOutcome)
    → IsBlock (round_up heap_node_size) pool o
    → IsRecorded mem size pool (and_then o (record_heap mem size))
record_heap-IsRecorded mem size pool crashed h = tt
record_heap-IsRecorded mem size pool exhausted h = tt
record_heap-IsRecorded mem size pool (allocated none n p) h = tt
record_heap-IsRecorded mem size pool (allocated (some node) n p) (al, g) = (
  al,
  λ x.
      let k = g x in
      let a = owners-record_heap p node mem size x in
      let b = heaps_cover-cons node mem size p.heap_list x in omega arith,
)
