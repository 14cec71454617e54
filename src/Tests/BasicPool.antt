-- ===== src/Tests/BasicPool.antt =====
-- A pool that gets its first memory.
use https_proxy_server.Base.{ℕ, ◌+◌, ◌*◌, ◌≡◌, refl, arith, Option, none, some}
use https_proxy_server.BasicPool.{
  Pool, new_pool, round_up, PoolOutcome, allocated, crashed, exhausted, set_list, blocks_from,
  cut_up, refill_with, allocate_with, add_heap_with, find_larger, chunk_alloc, allocate, deallocate,
}
use https_proxy_server.BasicPool.Owners.{covers, owners}
use https_proxy_server.BasicPool.Sound.{
  IsSound, allocate-IsSound, deallocate-IsSound, new_pool-IsSound,
}
use https_proxy_server.BasicPool.Done.{IsDone, allocate-IsDone}
use https_proxy_server.BasicPool.Fails.{allocate-crashes}

abbrev mallocs : ℕ → Option ℕ
mallocs i = some (65536 * (i + 1))

abbrev no_memory : ℕ → Option ℕ
no_memory i = none

abbrev pool_of : PoolOutcome → Pool
pool_of (allocated ptr n pool) = pool
pool_of crashed = new_pool
pool_of exhausted = new_pool

abbrev after : Pool
after = pool_of (allocate mallocs 100 new_pool)

first : allocate mallocs 100 new_pool ≡ allocated (some 66048) 16 after
unfolding allocate allocate_with refill_with chunk_alloc cut_up add_heap_with blocks_from set_list
    find_larger
first = refl

allocate-IsSound_example : IsSound (λ x. 0 + covers 66048 (round_up 100) x) after
allocate-IsSound_example =
    allocate-IsSound mallocs (λ x. 0) 100 66048 16 new_pool after new_pool-IsSound (omega arith)
      (omega arith) first

held : IsSound (λ x. 0 + covers 66048 (round_up 100) x) after
held =
    allocate-IsSound mallocs (λ x. 0) 100 66048 16 new_pool after new_pool-IsSound (omega arith)
      (omega arith) first

abbrev returned : Option Pool → Pool
returned none = new_pool
returned (some pool) = pool

given_back : deallocate 66048 100 after ≡ some (returned (deallocate 66048 100 after))
unfolding deallocate
given_back = refl

deallocate-IsSound_example :
    let pool' = returned (deallocate 66048 100 after) in
    IsSound (λ x. 0) pool'
    × ((x : ℕ) → owners pool' x ≡ owners after x + covers 66048 (round_up 100) x)
    × (pool'.heap_list ≡ after.heap_list)
deallocate-IsSound_example =
    deallocate-IsSound (λ x. 0 + covers 66048 (round_up 100) x) (λ x. 0) 66048 100 after
      (returned (deallocate 66048 100 after)) held (λ x. refl) (omega arith) (omega arith)
      given_back

allocate-IsDone_example : IsDone (allocate mallocs 16 new_pool)
allocate-IsDone_example = allocate-IsDone mallocs 16 new_pool

allocate-crashes_example : allocate no_memory 100 new_pool ≡ crashed
allocate-crashes_example = allocate-crashes no_memory 100 refl (omega arith) (omega arith)
