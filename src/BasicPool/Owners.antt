-- ===== src/BasicPool/Owners.antt =====
-- Who owns a byte: the blocks of a free list, the memory that is not cut up, a heap node, or the
-- caller that a block is given to. No byte gets an owner that was not got from `malloc` for it.
use https_proxy_server.Base.{
  ℕ, zero, suc, ◌+◌, ◌-◌, ◌*◌, ◌<◌, ◌≤◌, false, ◌&&◌, ◌≡◌, refl, sym, ap, ◌∙◌, arith, List, [], ◌∷◌,
  ◌==◌, leb, ltb, if◌then◌else◌, Bool-cases, inl, inr, ==→eq,
}
use https_proxy_server.BasicPool.{
  alignment, chunk_num, chunk_index, heap_node_size, HeapNode, Pool, set_list, blocks_from,
}

-- How often some bytes from an address on are at `x`.
unfoldable pub covers : ℕ → ℕ → ℕ → ℕ
covers a n x = if leb a x && ltb x (a + n) then 1 else 0

unfoldable pub list_cover : ℕ → List ℕ → ℕ → ℕ
unfolding covers
list_cover size [] x = 0
list_cover size (a ∷ blocks) x = covers a size x + list_cover size blocks x

abbrev pub class_size : ℕ → ℕ
class_size i = alignment * suc i

unfoldable pub lists_cover : ℕ → (ℕ → List ℕ) → ℕ → ℕ
unfolding list_cover
lists_cover zero lists x = 0
lists_cover (suc k) lists x = list_cover (class_size k) (lists k) x + lists_cover k lists x

unfoldable pub nodes_cover : List HeapNode → ℕ → ℕ
unfolding covers
nodes_cover [] x = 0
nodes_cover (h ∷ heaps) x =
    covers h.node (class_size (chunk_index heap_node_size)) x + nodes_cover heaps x

unfoldable pub heaps_cover : List HeapNode → ℕ → ℕ
unfolding covers
heaps_cover [] x = 0
heaps_cover (h ∷ heaps) x = covers h.mem h.size x + heaps_cover heaps x

-- The owners of a byte that the pool knows.
unfoldable pub owners : Pool → ℕ → ℕ
owners pool x =
    lists_cover chunk_num pool.free_list x
    + nodes_cover pool.heap_list x
    + covers pool.start_free (pool.end_free - pool.start_free) x

pub covers_none : (a x : ℕ) → covers a 0 x ≡ 0
unfolding covers
covers_none a x = ground arith

pub covers_split : (a m n x : ℕ) → covers a (m + n) x ≡ covers a m x + covers (a + m) n x
unfolding covers
covers_split a m n x = ground arith

-- Blocks in a row are the memory they lie in.
pub list_cover-blocks_from :
    (size n a x : ℕ) → list_cover size (blocks_from size n a) x ≡ covers a (n * size) x
unfolding list_cover blocks_from
list_cover-blocks_from size zero a x =
    let e : 0 * size ≡ 0 = ground arith in sym (covers_none a x) ∙ ap (λ k. covers a k x) (sym e)
list_cover-blocks_from size (suc n) a x =
    let ih = list_cover-blocks_from size n (a + size) x in
    let split = covers_split a size (n * size) x in
    let e : suc n * size ≡ size + n * size = ground arith in
    ap (λ k. covers a size x + k) ih ∙ sym split ∙ ap (λ k. covers a k x) (sym e)

-- A list that is put in the place of another.
lists_cover-beyond :
    (k i : ℕ) (new : List ℕ) (lists : ℕ → List ℕ) (x : ℕ)
    → k ≤ i
    → lists_cover k (set_list i new lists) x ≡ lists_cover k lists x
unfolding lists_cover set_list
lists_cover-beyond zero i new lists x h = refl
lists_cover-beyond (suc k) i new lists x h =
    let e : (k == i) ≡ false = ground arith in
    rw e (
      ap (λ c. list_cover (class_size k) (lists k) x + c)
        (lists_cover-beyond k i new lists x (omega arith)))

pub lists_cover-set_list :
    (k i : ℕ) (new : List ℕ) (lists : ℕ → List ℕ) (x : ℕ)
    → i < k
    → lists_cover k (set_list i new lists) x + list_cover (class_size i) (lists i) x
      ≡ lists_cover k lists x + list_cover (class_size i) new x
unfolding lists_cover set_list
lists_cover-set_list zero i new lists x h = absurd (omega arith)
lists_cover-set_list (suc k) i new lists x h = elim (Bool-cases (k == i)) [
  | inl e ↦
      let same : k ≡ i = ==→eq k i e in
      let rest = lists_cover-beyond k i new lists x (omega arith) in
      let here : list_cover (class_size k) (lists k) x ≡ list_cover (class_size i) (lists i) x =
        ap (λ j. list_cover (class_size j) (lists j) x) same in
      let new_here : list_cover (class_size k) new x ≡ list_cover (class_size i) new x =
        ap (λ j. list_cover (class_size j) new x) same in
      rw e (omega (arith, rest, here, new_here))
  | inr e ↦ let ih = lists_cover-set_list k i new lists x (ground arith) in rw e (omega (arith, ih))
]

pub list_cover-cons :
    (size a : ℕ) (blocks : List ℕ) (x : ℕ)
    → list_cover size (a ∷ blocks) x ≡ covers a size x + list_cover size blocks x
unfolding list_cover
list_cover-cons size a blocks x = refl

-- A free list that is replaced changes the owners by its own blocks only.
pub owners-set_list :
    (pool : Pool) (i : ℕ) (new : List ℕ) (x : ℕ)
    → i < chunk_num
    → owners (record pool { free_list = set_list i new pool.free_list }) x
        + list_cover (class_size i) (pool.free_list i) x
      ≡ owners pool x + list_cover (class_size i) new x
unfolding owners
owners-set_list pool i new x h =
    let set = lists_cover-set_list chunk_num i new pool.free_list x h in omega arith

pub lists_cover-empty : (k x : ℕ) → lists_cover k (λ i. []) x ≡ 0
unfolding lists_cover list_cover
lists_cover-empty zero x = refl
lists_cover-empty (suc k) x = omega (arith, lists_cover-empty k x)
