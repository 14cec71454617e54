-- ===== src/BasicPool/Sound.antt =====
-- The pool as its callers see it: the blocks they hold are theirs alone.
use https_proxy_server.Base.{
  ℕ, ◌+◌, ◌<◌, ◌≤◌, true, false, ◌≡◌, refl, sym, ap, subst, ◌∙◌, arith, Option, none, some, ◌∷◌,
  ◌==◌, leb, Bool-cases, inl, inr,
}
use https_proxy_server.BasicPool.{
  max_chunk_size, round_up, chunk_index, chunk_num, Pool, new_pool, set_list, allocated,
  chunk_alloc, depth, allocate, deallocate,
}
use https_proxy_server.BasicPool.Owners.{
  covers, class_size, nodes_cover, heaps_cover, owners, covers_none, lists_cover-empty,
  list_cover-cons, owners-set_list,
}
use https_proxy_server.BasicPool.Safe.{IsAligned, IsBlock}
use https_proxy_server.BasicPool.Given.{round_up-IsClass, allocate_with-IsBlock}
use https_proxy_server.BasicPool.Chunk.{chunk_alloc-IsAlloc}

-- Each byte has no more owners, among the pool and its callers, than there are pieces of memory from
-- `malloc` that it lies in: one at most, since these do not overlap. `live` counts the callers' blocks
-- at a byte.
pub record IsSound (live : ℕ → ℕ) (pool : Pool) : Type 0 where
  pub aligned : IsAligned pool
  pub owned : (x : ℕ) → owners pool x + live x ≤ heaps_cover pool.heap_list x

-- A block that `allocate` gives, of a size up to the largest, lies in memory from `malloc` and
-- overlaps neither the blocks that callers hold nor what the pool still has.
pub allocate-IsSound :
    (mallocs : ℕ → Option ℕ) (live : ℕ → ℕ) (size a n : ℕ) (pool pool' : Pool)
    → IsSound live pool
    → 0 < size
    → size ≤ max_chunk_size
    → allocate mallocs size pool ≡ allocated (some a) n pool'
    → IsSound (λ x. live x + covers a (round_up size) x) pool'
unfolding allocate
allocate-IsSound mallocs live size a n pool pool' s pos small e =
    let (al, g) = subst (IsBlock (round_up size) pool) e (
      allocate_with-IsBlock mallocs (chunk_alloc mallocs depth) size pool
        (chunk_alloc-IsAlloc mallocs depth) pos small s.aligned) in
    record { aligned = al; owned = λ x. let h = s.owned x in let k = g x in omega arith }

-- A block that is given back is the caller's no longer and the pool's again: each byte of it has
-- one owner more in the pool than before, and every other byte has as many as before; no byte
-- gets a second owner, and the memory from `malloc` is the same.
pub deallocate-IsSound :
    (live live' : ℕ → ℕ) (ptr size : ℕ) (pool pool' : Pool)
    → IsSound live pool
    → ((x : ℕ) → live x ≡ live' x + covers ptr (round_up size) x)
    → 0 < size
    → size ≤ max_chunk_size
    → deallocate ptr size pool ≡ some pool'
    → IsSound live' pool'
      × ((x : ℕ) → owners pool' x ≡ owners pool x + covers ptr (round_up size) x)
      × (pool'.heap_list ≡ pool.heap_list)
unfolding deallocate
deallocate-IsSound live live' ptr size pool pool' s gives pos small e =
    elim (Bool-cases (ptr == 0)) [
      | inl z ↦
          let w : deallocate ptr size pool ≡ none = rw (deallocate, some_size, z) in
          let v = sym w ∙ e in cc
      | inr z ↦
          let given : deallocate ptr size pool
              ≡ some (record pool {
                free_list =
                    set_list (chunk_index size) (ptr ∷ pool.free_list (chunk_index size))
                      pool.free_list;
              }) =
            rw (deallocate, some_size, z, fits) in
          let same : record pool {
            free_list =
                set_list (chunk_index size) (ptr ∷ pool.free_list (chunk_index size))
                  pool.free_list;
          }
              ≡ pool' =
            from_some (sym given ∙ e) in
          subst
            (λ p.
              IsSound live' p
              × ((x : ℕ) → owners p x ≡ owners pool x + covers ptr (round_up size) x)
              × (p.heap_list ≡ pool.heap_list))
            same (record { aligned = s.aligned; owned = λ x. owned x }, (λ x. gained x), refl)
    ]
  where
    some_size : (size == 0) ≡ false
    some_size = ground arith

    fits : leb size max_chunk_size ≡ true
    fits = ground arith

    from_some : {p q : Pool} → ◌≡◌ {A = Option Pool} (some p) (some q) → p ≡ q
    from_some e = cc

    gained :
        (x : ℕ)
        → owners
            (record pool {
              free_list =
                  set_list
                    (chunk_index size)
                    (ptr ∷ pool.free_list (chunk_index size))
                    pool.free_list;
            })
            x
          ≡ owners pool x + covers ptr (round_up size) x
    gained x =
        let i = chunk_index size in
        let (class, low, index) = round_up-IsClass size pos small in
        let set = owners-set_list pool i (ptr ∷ pool.free_list i) x low in
        let new = list_cover-cons (class_size i) ptr (pool.free_list i) x in
        let block = ap (λ n. covers ptr n x) class in omega arith

    owned :
        (x : ℕ)
        → owners
              (record pool {
                free_list =
                    set_list
                      (chunk_index size)
                      (ptr ∷ pool.free_list (chunk_index size))
                      pool.free_list;
              })
              x
            + live' x
          ≤ heaps_cover pool.heap_list x
    owned x = let new = gained x in let g = gives x in let h = s.owned x in omega arith

-- A new pool is sound, and no caller holds a block.
pub new_pool-IsSound : IsSound (λ x. 0) new_pool
unfolding owners nodes_cover heaps_cover
new_pool-IsSound = record {
  aligned = (omega arith, omega arith);
  owned =
      λ x. let lists = lists_cover-empty chunk_num x in let left = covers_none 0 x in omega arith;
}
