-- ===== src/Buffer/Move.antt =====
-- `push(buffer_queue<LockT>&)` moves all buffers of one queue behind those of another.
use https_proxy_server.Base.{
  ℕ, zero, suc, ◌%◌, ◌<◌, Bool, true, ◌≡◌, refl, sym, ap, ◌∙◌, subst, arith, Option, none, some,
  List, [], ◌∷◌, ◌++◌, length, append_assoc, Option-cases, inl, inr, append-nil,
}
use https_proxy_server.Cstring.{ulong_size}
use https_proxy_server.Buffer.{Heap, BufferQueue, set_next, link, last_from, push, pop, push_all}
use https_proxy_server.Buffer.Chain.{
  last, IsFresh, IsQueue, SameBytes, set_next-SameBytes, total-SameBytes, IsChain-frame,
  IsFresh-last, IsFresh-append,
}
use https_proxy_server.Buffer.Fifo.{push-IsQueue, pop-IsQueue}

-- No buffer of the first list is in the second one.
abbrev pub Disjoint : List ℕ → List ℕ → Type 0
Disjoint [] ys = Unit {0}
Disjoint (x ∷ xs) ys = IsFresh x ys × Disjoint xs ys

-- Nothing of these buffers is written yet.
abbrev pub Unsent : Heap → List ℕ → Type 0
Unsent heap [] = Unit {0}
Unsent heap (x ∷ xs) = ((heap x).dtran ≡ 0) × Unsent heap xs

Unsent-SameBytes :
    (heap heap' : Heap) (xs : List ℕ) → SameBytes heap heap' → Unsent heap xs → Unsent heap' xs
Unsent-SameBytes heap heap' [] s u = tt
Unsent-SameBytes heap heap' (x ∷ xs) s (z, u) = ((s x).1 ∙ z, Unsent-SameBytes heap heap' xs s u)

SameBytes-trans : (a b c : Heap) → SameBytes a b → SameBytes b c → SameBytes a c
SameBytes-trans a b c s t k = ((t k).0 ∙ (s k).0, (t k).1 ∙ (s k).1)

-- A queue is not changed by a pointer of a buffer that it does not hold.
pub IsQueue-set_next :
    (a : ℕ) (next : Option ℕ) (heap : Heap) (queue : BufferQueue) (zs : List ℕ)
    → IsFresh a zs
    → IsQueue heap queue zs
    → IsQueue (set_next a next heap) queue zs
IsQueue-set_next a next heap queue zs f q = record {
  chain = IsChain-frame a next heap queue.head zs f q.chain;
  tail_is = q.tail_is;
  no_dup = q.no_dup;
  dsize_is =
      q.dsize_is
      ∙ ap (λ t. t % ulong_size)
          (sym (total-SameBytes heap (set_next a next heap) zs (set_next-SameBytes a next heap)));
}

last-IsFresh : (t : ℕ) (xs ys : List ℕ) → Disjoint xs ys → last ys ≡ some t → IsFresh t xs
last-IsFresh t [] ys d e = tt
last-IsFresh t (x ∷ xs) ys (f, d) e =
    ((λ q. IsFresh-last x t ys f e (sym q)), last-IsFresh t xs ys d e)

Disjoint-append :
    (x : ℕ) (xs ys : List ℕ) → Disjoint xs ys → IsFresh x xs → Disjoint xs (ys ++ x ∷ [])
Disjoint-append x [] ys d f = tt
Disjoint-append x (y ∷ xs) ys (g, d) (n, f) =
    (IsFresh-append y x ys g (λ q. n (sym q)), Disjoint-append x xs ys d f)

IsQueue-link :
    (a : ℕ) (heap : Heap) (tail : Option ℕ) (ys : List ℕ) (queue : BufferQueue) (zs : List ℕ)
    → tail ≡ last ys
    → Disjoint zs ys
    → IsQueue heap queue zs
    → IsQueue (link tail a heap) queue zs
IsQueue-link a heap none ys queue zs t d q = q
IsQueue-link a heap (some k) ys queue zs t d q =
    IsQueue-set_next k (some a) heap queue zs (last-IsFresh k zs ys d (sym t)) q

push-heap :
    (fuel a : ℕ) (heap heap' : Heap) (queue queue' : BufferQueue)
    → push fuel a heap queue ≡ some (heap', queue')
    → heap' ≡ link queue.tail a heap
unfolding push
push-heap fuel a heap heap' queue queue' e =
    elim (Option-cases (last_from fuel (link queue.tail a heap) a)) [
      | inl n ↦ let k = rw (push, n) at e in cc
      | inr (t, n) ↦ let k = rw (push, n) at e in cc
    ]

pop-heap :
    (reduce : Bool) (heap : Heap) (queue : BufferQueue) (x : ℕ)
    → queue.head ≡ some x
    → (pop reduce heap queue).1 ≡ set_next x none heap
unfolding pop
pop-heap reduce heap queue x e = rw e

step :
    (fuel x : ℕ) (heap heap2 : Heap) (queue queue2 from : BufferQueue)
    → from.head ≡ some x
    → (pop true heap from).0 ≡ some x
    → push (suc fuel) x (pop true heap from).1 queue ≡ some (heap2, queue2)
    → push_all (suc fuel) heap queue from ≡ push_all fuel heap2 queue2 (pop true heap from).2
unfolding push_all
step fuel x heap heap2 queue queue2 from e p u = simp (push_all, e, p, u)

push_all-empty :
    (fuel : ℕ) (heap : Heap) (queue from : BufferQueue)
    → from.head ≡ none
    → push_all (suc fuel) heap queue from ≡ some (heap, queue, from)
unfolding push_all
push_all-empty fuel heap queue from e = simp (push_all, e)

-- With fuel for each buffer, all buffers of the second queue, of which nothing is written yet, are
-- moved behind those of the first one in their order, and the second queue is empty.
pub push_all-IsQueue :
    (fuel : ℕ) (heap : Heap) (queue from : BufferQueue) (ys xs : List ℕ)
    → IsQueue heap queue ys
    → IsQueue heap from xs
    → Disjoint xs ys
    → Unsent heap xs
    → length xs < fuel
    → (heap' : Heap) × (queue' : BufferQueue) × (from' : BufferQueue) × (push_all fuel heap queue
          from
        ≡ some (heap', queue', from'))
      × IsQueue heap' queue' (ys ++ xs)
      × IsQueue heap' from' []
      × SameBytes heap heap'
push_all-IsQueue zero heap queue from ys xs q r d u h = absurd (omega arith)
push_all-IsQueue (suc fuel) heap queue from ys [] q r d u h = (
  heap,
  queue,
  from,
  push_all-empty fuel heap queue from r.chain,
  subst (IsQueue heap queue) (sym (append-nil ys)) q,
  r,
  λ a. (refl, refl),
)
push_all-IsQueue (suc fuel) heap queue from ys (x ∷ xs) q r d u h =
    let heap1 = (pop true heap from).1 in
    let from1 = (pop true heap from).2 in
    let (popped, r1, alone, same1) = pop-IsQueue true heap from x xs r u.0 in
    let heap1_is : heap1 ≡ set_next x none heap = pop-heap true heap from x r.chain.0 in
    let q1 : IsQueue heap1 queue ys =
      subst (λ k. IsQueue k queue ys) (sym heap1_is)
        (IsQueue-set_next x none heap queue ys d.0 q) in
    let (heap2, queue2, pushed, q2, same2) =
      push-IsQueue fuel x heap1 queue ys q1 d.0 alone ((same1 x).1 ∙ u.0) in
    let r2 : IsQueue heap2 from1 xs =
      subst (λ k. IsQueue k from1 xs) (sym (push-heap (suc fuel) x heap1 heap2 queue queue2 pushed))
        (IsQueue-link x heap1 queue.tail ys from1 xs q1.tail_is d.1 r1) in
    let same = SameBytes-trans heap heap1 heap2 same1 same2 in
    let (heap', queue', from', e, q', r', s') =
      push_all-IsQueue fuel heap2 queue2 from1 (ys ++ x ∷ []) xs q2 r2
        (Disjoint-append x xs ys d.1 r.no_dup.0) (Unsent-SameBytes heap heap2 xs same u.1)
        (omega arith) in
    (
      heap',
      queue',
      from',
      step fuel x heap heap2 queue queue2 from r.chain.0 popped pushed ∙ e,
      subst (IsQueue heap' queue') (append_assoc ys (x ∷ []) xs) q',
      r',
      SameBytes-trans heap heap2 heap' same s',
    )
