-- ===== src/Buffer/Cleared.antt =====
-- A queue that is cleared.
use https_proxy_server.Base.{
  ℕ, zero, suc, ◌<◌, ◌≡◌, refl, ap, ◌∙◌, arith, Option, none, some, List, [], ◌∷◌, length, prepend,
}
use https_proxy_server.Buffer.{Heap, BufferQueue, delete_from, clear_queue}
use https_proxy_server.Buffer.Chain.{IsChain, NoDup, IsQueue}

delete_from-chain :
    (fuel : ℕ) (heap : Heap) (p : Option ℕ) (xs : List ℕ)
    → IsChain heap p xs
    → length xs < fuel
    → delete_from fuel heap p ≡ some xs
unfolding delete_from
delete_from-chain zero heap p xs c h = absurd (omega arith)
delete_from-chain (suc fuel) heap p [] c h = ap (delete_from (suc fuel) heap) c
delete_from-chain (suc fuel) heap p (x ∷ xs) (e, c) h =
    ap (delete_from (suc fuel) heap) e
    ∙ ap (prepend x) (delete_from-chain fuel heap (heap x).next xs c (omega arith))

-- With fuel for each buffer and the end, `clear` deletes the buffers of a well-formed queue, in their
-- order and each of them once, and leaves a well-formed queue without any.
pub clear_queue-IsQueue :
    (fuel : ℕ) (heap : Heap) (queue : BufferQueue) (xs : List ℕ)
    → IsQueue heap queue xs
    → length xs < fuel
    → (queue' : BufferQueue) × (clear_queue fuel heap queue ≡ some (xs, queue'))
      × NoDup xs
      × IsQueue heap queue' []
unfolding clear_queue
clear_queue-IsQueue fuel heap queue xs q h = (
  record { head = none; tail = none; dsize = 0 },
  rw (clear_queue, delete_from-chain fuel heap queue.head xs q.chain h),
  q.no_dup,
  record { chain = refl; tail_is = refl; no_dup = tt; dsize_is = omega arith },
)
