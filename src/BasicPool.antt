-- ===== src/BasicPool.antt =====
-- `basic_pool` of mem/basic_pool.h and mem/basic_pool.cpp: the free lists of blocks by their size,
-- and the memory that has not been cut up yet. A pointer is an address, and a free list, whose links
-- are in the blocks themselves, is the list of its blocks. What each `malloc` returns is a function of
-- the number of the call.
pub mod Owners
pub mod Safe
pub mod Given
pub mod Chunk
pub mod Fails
pub mod Sound
pub mod Done
use https_proxy_server.Base.{
  ℕ, zero, suc, ◌+◌, ◌-◌, ◌*◌, ◌/◌, ◌%◌, Bool, true, false, Option, none, some, List, [], ◌∷◌, ◌++◌,
  ◌||◌, ◌==◌, leb, ltb, if◌then◌else◌,
}

abbrev pub alignment : ℕ
alignment = 16

abbrev pub max_chunk_size : ℕ
max_chunk_size = 16 * 1024

abbrev pub node_num : ℕ
node_num = 16

abbrev pub chunk_num : ℕ
chunk_num = max_chunk_size / alignment

abbrev pub round_up : ℕ → ℕ
round_up size = (size + (alignment - 1)) / alignment * alignment

abbrev pub chunk_index : ℕ → ℕ
chunk_index size = (size - 1) / alignment

-- `sizeof(heap_node)`
abbrev pub heap_node_size : ℕ
heap_node_size = 24

-- A `heap_node`: its own address, and the memory that it records.
pub record HeapNode : Type 0 where
  pub node : ℕ
  pub mem : ℕ
  pub size : ℕ

-- The members of `basic_pool`, and the number of calls of `malloc` so far.
pub record Pool : Type 0 where
  pub free_list : ℕ → List ℕ
  pub heap_list : List HeapNode
  pub start_free : ℕ
  pub end_free : ℕ
  pub calls : ℕ

-- `basic_pool()`
abbrev pub new_pool : Pool
new_pool = record { free_list = λ i. []; heap_list = []; start_free = 0; end_free = 0; calls = 0 }

unfoldable pub set_list : ℕ → List ℕ → (ℕ → List ℕ) → ℕ → List ℕ
set_list i blocks lists k = if k == i then blocks else lists k

-- What a call gives: a pointer, where `none` is NULL, with the number of blocks there, and the pool;
-- a failed assertion or a write through NULL; or it is out of fuel.
pub data PoolOutcome : Type 0 where
  allocated : Option ℕ → ℕ → Pool → PoolOutcome
  crashed exhausted : PoolOutcome

abbrev pub and_then : PoolOutcome → (Option ℕ → ℕ → Pool → PoolOutcome) → PoolOutcome
and_then (allocated ptr num pool) f = f ptr num pool
and_then crashed f = crashed
and_then exhausted f = exhausted

-- The blocks of `size` bytes from an address on.
unfoldable pub blocks_from : ℕ → ℕ → ℕ → List ℕ
blocks_from size zero a = []
blocks_from size (suc n) a = a ∷ blocks_from size n (a + size)

-- `refill` once it has its memory: all but the first block become the free list.
unfoldable pub cut_up : ℕ → Option ℕ → ℕ → Pool → PoolOutcome
unfolding blocks_from set_list
cut_up size ptr num p =
    if num == 0 then crashed else if num == 1 then allocated ptr num p else elim ptr [
      | none ↦ crashed
      | some chunk ↦ allocated (some chunk) num (record p {
        free_list =
            set_list (chunk_index size) (blocks_from size (num - 1) (chunk + size)) p.free_list;
      })
    ]

-- `refill`, with the function that it gets memory from.
unfoldable pub refill_with : (ℕ → ℕ → Pool → PoolOutcome) → ℕ → Pool → PoolOutcome
unfolding cut_up
refill_with alloc size pool = and_then (alloc size node_num pool) (cut_up size)

-- `add_heap` once it has its node.
abbrev pub record_heap : ℕ → ℕ → Option ℕ → ℕ → Pool → PoolOutcome
record_heap mem size none n p = crashed
record_heap mem size (some node) n p =
    allocated (some node) 1
      (record p { heap_list = record { node = node; mem = mem; size = size } ∷ p.heap_list })

-- The first block of a larger size, in a list that has one: its size, the block, and the others.
unfoldable pub find_larger : ℕ → ℕ → (ℕ → List ℕ) → Option (ℕ × ℕ × List ℕ)
find_larger zero n lists = none
find_larger (suc count) n lists =
    let later = find_larger count (n + alignment) lists in
    elim (lists (chunk_index n)) [ [] ↦ later | p ∷ rest ↦ some (n, p, rest) ]

abbrev pub left_of : Pool → ℕ
left_of pool = pool.end_free - pool.start_free

-- The bytes that are left become a block of their size.
abbrev pub keep_left : Pool → Pool
keep_left pool = if left_of pool == 0 then pool else record pool {
  free_list =
      set_list (chunk_index (left_of pool))
        (pool.start_free ∷ pool.free_list (chunk_index (left_of pool))) pool.free_list;
}

abbrev pub cut : ℕ → ℕ → Pool → PoolOutcome
cut size num pool =
    allocated (some pool.start_free) num (record pool { start_free = pool.start_free + size * num })

-- After a `malloc` that failed.
abbrev pub with_larger :
    (ℕ → ℕ → Pool → PoolOutcome) → ℕ → ℕ → Pool → Option (ℕ × ℕ × List ℕ) → PoolOutcome
with_larger alloc size num pool none =
    allocated none num (record pool { start_free = 0; end_free = 0 })
with_larger alloc size num pool (some (n, p, rest)) = alloc size num (record pool {
  free_list = set_list (chunk_index n) rest pool.free_list;
  start_free = p;
  end_free = p + n;
})

abbrev pub use_larger : (ℕ → ℕ → Pool → PoolOutcome) → ℕ → ℕ → Pool → PoolOutcome
use_larger alloc size num pool =
    with_larger alloc size num pool
      (find_larger ((max_chunk_size - size) / alignment) (size + alignment) pool.free_list)

-- No call goes deeper than this.
abbrev pub depth : ℕ
depth = 3

module _ (mallocs : ℕ → Option ℕ) where
  -- `allocate`
  unfoldable pub allocate_with : (ℕ → ℕ → Pool → PoolOutcome) → ℕ → Pool → PoolOutcome
  unfolding refill_with set_list
  allocate_with alloc size pool =
      if size == 0
      then crashed
      else if leb size max_chunk_size
      then elim (pool.free_list (chunk_index size)) [
        | [] ↦ refill_with alloc (round_up size) pool
        | node ∷ rest ↦
            allocated (some node) 1
              (record pool { free_list = set_list (chunk_index size) rest pool.free_list })
      ]
      else allocated (mallocs pool.calls) 1 (record pool { calls = suc pool.calls })

  -- `add_heap`
  unfoldable pub add_heap_with : (ℕ → ℕ → Pool → PoolOutcome) → ℕ → ℕ → Pool → PoolOutcome
  unfolding allocate_with
  add_heap_with alloc mem size pool =
      and_then (allocate_with alloc heap_node_size pool) (record_heap mem size)

  -- After a `malloc` that gave `mem`.
  abbrev pub use_fresh : (ℕ → ℕ → Pool → PoolOutcome) → ℕ → ℕ → ℕ → Pool → PoolOutcome
  use_fresh alloc mem size num pool =
      let bytes = 2 * (size * num) in
      and_then
        (add_heap_with alloc mem bytes (record pool { start_free = mem; end_free = mem + bytes }))
        (λ ptr n p. alloc size num p)

  abbrev pub with_malloc : (ℕ → ℕ → Pool → PoolOutcome) → Option ℕ → ℕ → ℕ → Pool → PoolOutcome
  with_malloc alloc none size num pool = use_larger alloc size num pool
  with_malloc alloc (some mem) size num pool = use_fresh alloc mem size num pool

  abbrev pub more_memory : (ℕ → ℕ → Pool → PoolOutcome) → ℕ → ℕ → Pool → PoolOutcome
  more_memory alloc size num pool =
      with_malloc alloc (mallocs pool.calls) size num (record pool { calls = suc pool.calls })

  -- `chunk_alloc`
  unfoldable pub chunk_alloc : ℕ → ℕ → ℕ → Pool → PoolOutcome
  unfolding add_heap_with find_larger set_list
  chunk_alloc zero size num pool = exhausted
  chunk_alloc (suc fuel) size num pool =
      let left = left_of pool in
      let more = more_memory (chunk_alloc fuel) size num (keep_left pool) in
      if leb (size * num) left
      then cut size num pool
      else if leb size left
      then cut size (left / size) pool
      else if left % alignment == 0
      then more
      else crashed

  unfoldable pub allocate : ℕ → Pool → PoolOutcome
  unfolding allocate_with chunk_alloc
  allocate size pool = allocate_with (chunk_alloc depth) size pool

-- `deallocate`; `none` is a failed assertion. A block above the largest size goes back to `free`.
unfoldable pub deallocate : ℕ → ℕ → Pool → Option Pool
unfolding set_list
deallocate ptr size pool =
    if size == 0 || ptr == 0
    then none
    else if leb size max_chunk_size
    then some (record pool {
      free_list =
          set_list (chunk_index size) (ptr ∷ pool.free_list (chunk_index size)) pool.free_list;
    })
    else some pool

-- The array that `release` collects the recorded memory in.
unfoldable pub recorded : List HeapNode → List ℕ
recorded [] = []
recorded (h ∷ heaps) = h.mem ∷ recorded heaps

-- The last of them is freed first.
unfoldable pub backwards : List ℕ → List ℕ → List ℕ
backwards [] freed = freed
backwards (mem ∷ chunk) freed = backwards chunk (mem ∷ freed)

-- `release`: what it frees, in its order. Nothing is freed if there is no memory for the array.
unfoldable pub release_pool : (ℕ → Option ℕ) → Pool → List ℕ
unfolding recorded backwards
release_pool mallocs pool = elim (mallocs pool.calls) [
  | none ↦ []
  | some chunk ↦ backwards (recorded pool.heap_list) [] ++ chunk ∷ []
]
