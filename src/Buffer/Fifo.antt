-- ===== src/Buffer/Fifo.antt =====
-- A push adds a buffer at the end of the queue, and a pop takes the first one.
use https_proxy_server.Base.{
  ℕ, suc, ◌+◌, ◌-◌, ◌%◌, Bool, true, false, ◌≡◌, ◌≢◌, refl, sym, ap, ◌∙◌, arith, Option, none, some,
  List, [], ◌∷◌, ◌++◌, if◌then◌else◌, length,
}
use https_proxy_server.Cstring.{ulong_size}
use https_proxy_server.Buffer.{
  Heap, BufferQueue, dlen, last_from, link, first_of, sub_size, push, pop,
}
use https_proxy_server.Buffer.Chain.{
  IsChain, last, IsFresh, NoDup, total, IsQueue, SameBytes, set_next-SameBytes, set_next-same,
  set_next-other, total-SameBytes, total_append, IsChain-frame, IsFresh-last, IsChain-append,
  last_append, NoDup-append,
}

last_from_end :
    (fuel a : ℕ) (heap : Heap) → (heap a).next ≡ none → last_from (suc fuel) heap a ≡ some a
unfolding last_from
last_from_end fuel a heap n = rw (last_from, n)

last_cons : (x : ℕ) (xs : List ℕ) → last (x ∷ xs) ≢ none
last_cons x [] e = cc
last_cons x (y ∷ xs) e = last_cons y xs e

-- What the link of a new buffer leaves.
record IsLinked (heap heap' : Heap) (head : Option ℕ) (xs : List ℕ) (a : ℕ) : Type 0 where
  chain : IsChain heap' head (xs ++ a ∷ [])
  end_is : (heap' a).next ≡ none
  same : SameBytes heap heap'

link-IsLinked :
    (a : ℕ) (heap : Heap) (tail head : Option ℕ) (xs : List ℕ)
    → IsChain heap head xs
    → tail ≡ last xs
    → NoDup xs
    → IsFresh a xs
    → (heap a).next ≡ none
    → IsLinked heap (link tail a heap) (first_of tail a head) xs a
link-IsLinked a heap none head [] c t d f n = record {
  chain = (refl, n);
  end_is = n;
  same = λ b. (refl, refl);
}
link-IsLinked a heap none head (x ∷ xs) c t d f n = absurd (last_cons x xs (sym t))
link-IsLinked a heap (some k) head xs c t d f n = record {
  chain = IsChain-append a k heap head xs c d f (sym t) n;
  end_is = ap (λ b. b.next) (set_next-other k a (some a) heap (IsFresh-last a k xs f (sym t))) ∙ n;
  same = set_next-SameBytes k (some a) heap;
}

add_mod : (a b : ℕ) → (a % ulong_size + b) % ulong_size ≡ (a + b) % ulong_size
add_mod a b = omega arith

pub sub_mod : (a b : ℕ) → sub_size ((a + b) % ulong_size) a ≡ b % ulong_size
sub_mod a b = omega arith

-- A buffer with no next one, of which nothing is written yet, is pushed behind all others, and the
-- count grows by its bytes.
pub push-IsQueue :
    (fuel a : ℕ) (heap : Heap) (queue : BufferQueue) (xs : List ℕ)
    → IsQueue heap queue xs
    → IsFresh a xs
    → (heap a).next ≡ none
    → (heap a).dtran ≡ 0
    → (heap' : Heap) × (queue' : BufferQueue) × (push (suc fuel) a heap queue
        ≡ some (heap', queue'))
      × IsQueue heap' queue' (xs ++ a ∷ [])
      × SameBytes heap heap'
unfolding push
push-IsQueue fuel a heap queue xs q f n z =
    let l = link-IsLinked a heap queue.tail queue.head xs q.chain q.tail_is q.no_dup f n in
    let heap' = link queue.tail a heap in
    let count : (queue.dsize + dlen heap' a) % ulong_size
        ≡ total heap' (xs ++ a ∷ []) % ulong_size =
      let one : dlen heap' a ≡ dlen heap a = ap length (l.same a).0 in
      omega (
        arith,
        q.dsize_is,
        z,
        total-SameBytes heap heap' (xs ++ a ∷ []) l.same,
        total_append heap xs a,
      ) in
    (
      heap',
      record {
        head = first_of queue.tail a queue.head;
        tail = some a;
        dsize = (queue.dsize + dlen heap' a) % ulong_size;
      },
      rw (push, last_from_end fuel a heap' l.end_is),
      record {
        chain = l.chain;
        tail_is = sym (last_append xs a);
        no_dup = NoDup-append a xs q.no_dup f;
        dsize_is = count;
      },
      l.same,
    )

-- What a pop leaves, once the queue's first buffer is known.
pub record IsPopped (heap : Heap) (queue : BufferQueue) (x : ℕ) (xs : List ℕ) (heap' : Heap)
    (queue' : BufferQueue) : Type 0 where
  pub chain : IsChain heap' queue'.head xs
  pub tail_is : queue'.tail ≡ last xs
  pub alone : (heap' x).next ≡ none
  pub same : SameBytes heap heap'

pop-IsPopped :
    (reduce : Bool) (heap : Heap) (queue : BufferQueue) (x : ℕ) (xs : List ℕ)
    → IsQueue heap queue (x ∷ xs)
    → let (popped, heap', queue') = pop reduce heap queue in
      (popped ≡ some x) × IsPopped heap queue x xs heap' queue'
unfolding pop
pop-IsPopped reduce heap queue x xs q =
    let (e, c) = q.chain in
    let (f, d) = q.no_dup in
    rw e (
      refl,
      record {
        chain = IsChain-frame x none heap (heap x).next xs f c;
        tail_is = new_tail (heap x).next xs c q.tail_is;
        alone = set_next-same x none heap;
        same = set_next-SameBytes x none heap;
      },
    )
  where
    new_tail :
        (p : Option ℕ) (ys : List ℕ)
        → IsChain heap p ys
        → queue.tail ≡ last (x ∷ ys)
        → elim p as (λ p. Option ℕ) [ none ↦ none | some b ↦ queue.tail ] ≡ last ys
    new_tail p [] c t = rw c
    new_tail p (y ∷ ys) (e, c) t = rw e t

pop-dsize :
    (reduce : Bool) (heap : Heap) (queue : BufferQueue) (x : ℕ)
    → queue.head ≡ some x
    → (pop reduce heap queue).2.dsize
      ≡ (if reduce then sub_size queue.dsize (dlen heap x) else queue.dsize)
unfolding pop
pop-dsize reduce heap queue x e = rw e

-- The count after a pop, from the bytes that are still to be written of the buffer.
left_over :
    (reduce : Bool) (size t n d : ℕ)
    → d ≡ (if reduce then 0 else n)
    → size ≡ ((n - d) + t) % ulong_size
    → (if reduce then sub_size size n else size) ≡ t % ulong_size
left_over true size t n d z e = omega (arith, sub_mod n t)
left_over false size t n d z e = omega arith

-- A pop takes the first buffer out of the queue and leaves the others in their order; where it
-- reduces the count, nothing of the buffer is written yet, and where it does not, all of it is.
pub pop-IsQueue :
    (reduce : Bool) (heap : Heap) (queue : BufferQueue) (x : ℕ) (xs : List ℕ)
    → IsQueue heap queue (x ∷ xs)
    → (heap x).dtran ≡ (if reduce then 0 else dlen heap x)
    → let (popped, heap', queue') = pop reduce heap queue in
      (popped ≡ some x) × IsQueue heap' queue' xs × ((heap' x).next ≡ none) × SameBytes heap heap'
pop-IsQueue reduce heap queue x xs q z =
    let (e, p) = pop-IsPopped reduce heap queue x xs q in
    (
      e,
      record {
        chain = p.chain;
        tail_is = p.tail_is;
        no_dup = q.no_dup.1;
        dsize_is =
            pop-dsize reduce heap queue x q.chain.0
            ∙ left_over reduce queue.dsize (total heap xs) (dlen heap x) (heap x).dtran z q.dsize_is
            ∙ ap (λ t. t % ulong_size)
                (sym (total-SameBytes heap (pop reduce heap queue).1 xs p.same));
      },
      p.alone,
      p.same,
    )
