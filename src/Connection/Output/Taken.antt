-- ===== src/Connection/Output/Taken.antt =====
-- One `send` takes bytes from the front of the queue.
use https_proxy_server.Base.{
  ℕ, ◌+◌, ◌-◌, ◌%◌, ◌<◌, ◌≤◌, true, false, ◌≡◌, ◌≢◌, refl, sym, ap, ◌∙◌, arith, Option, List, [],
  ◌∷◌, ◌++◌, ◌==◌, length, take, drop, Bytes, append_assoc, Bool-cases, ==→eq, ==_refl, inl, inr,
  take-drop, take_all, drop-add, length-drop,
}
use https_proxy_server.Cstring.{ulong_size}
use https_proxy_server.Buffer.{Heap, BufferQueue, dlen, pop, consume_size, sub_size}
use https_proxy_server.Buffer.Chain.{
  IsChain, IsFresh, total, pending, IsQueue, SameBytes, pending-SameBytes,
}
use https_proxy_server.Buffer.Fifo.{pop-IsQueue, sub_mod}
use https_proxy_server.Connection.Output.{add_tran, took}

-- There is something to write of each of these buffers.
abbrev pub HasBytes : Heap → List ℕ → Type 0
HasBytes heap [] = Unit {0}
HasBytes heap (x ∷ xs) = ((heap x).dtran < dlen heap x) × HasBytes heap xs

HasBytes-SameBytes :
    (heap heap' : Heap) (xs : List ℕ) → SameBytes heap heap' → HasBytes heap xs → HasBytes heap' xs
HasBytes-SameBytes heap heap' [] s h = tt
HasBytes-SameBytes heap heap' (x ∷ xs) s (h, k) =
    (rw ((s x).0, (s x).1) h, HasBytes-SameBytes heap heap' xs s k)

module _ (a n : ℕ) (heap : Heap) where
  add_tran-other : (b : ℕ) → a ≢ b → add_tran a n heap b ≡ heap b
  unfolding add_tran
  add_tran-other b k = elim (Bool-cases (b == a)) [
    | inl e ↦ absurd (k (sym (==→eq b a e)))
    | inr e ↦ rw e
  ]

  add_tran-same : add_tran a n heap a ≡ record (heap a) { dtran = (heap a).dtran + n }
  unfolding add_tran
  add_tran-same = rw (==_refl a)

  add_tran-next : (b : ℕ) → (add_tran a n heap b).next ≡ (heap b).next
  unfolding add_tran
  add_tran-next b = elim (Bool-cases (b == a)) [ inl e ↦ rw e | inr e ↦ rw e ]

  IsChain-add_tran :
      (p : Option ℕ) (xs : List ℕ) → IsChain heap p xs → IsChain (add_tran a n heap) p xs
  IsChain-add_tran p [] c = c
  IsChain-add_tran p (x ∷ xs) (e, c) =
      (e, rw (add_tran-next x) (IsChain-add_tran (heap x).next xs c))

  -- Nothing else of the bytes to write is changed.
  others :
      (xs : List ℕ)
      → IsFresh a xs
      → (pending (add_tran a n heap) xs ≡ pending heap xs)
        × (total (add_tran a n heap) xs ≡ total heap xs)
        × (HasBytes heap xs → HasBytes (add_tran a n heap) xs)
  others [] f = (refl, refl, λ h. tt)
  others (x ∷ xs) (k, f) =
      let (e, t, h) = others xs f in
      let same = add_tran-other x k in (rw (same, e), rw (same, t), λ (b, c). (rw same b, h c))

-- What is left once some bytes of the first buffer are taken.
pub record IsTaken (n : ℕ) (rest before : Bytes) (heap' : Heap) (queue' : BufferQueue) (ys : List ℕ)
    : Type 0 where
  pub queue_is : IsQueue heap' queue' ys
  pub more : HasBytes heap' ys
  pub bytes_are : take n rest ++ pending heap' ys ≡ before

-- The count of the queue follows the bytes taken.
consumed :
    (n x : ℕ) (heap : Heap) (queue : BufferQueue) (xs : List ℕ)
    → IsQueue heap queue (x ∷ xs)
    → n ≤ dlen heap x - (heap x).dtran
    → IsQueue (add_tran x n heap) (consume_size n queue) (x ∷ xs)
unfolding consume_size
consumed n x heap queue xs q k =
    let heap1 = add_tran x n heap in
    let left = dlen heap x - ((heap x).dtran + n) in
    let (f, d) = q.no_dup in
    let t : total heap1 xs ≡ total heap xs = (others x n heap xs f).1 in
    let size : dlen heap1 x ≡ dlen heap x = ap (λ b. length b.bytes) (add_tran-same x n heap) in
    let tran : (heap1 x).dtran ≡ (heap x).dtran + n = ap (λ b. b.dtran) (add_tran-same x n heap) in
    let split : dlen heap x - (heap x).dtran + total heap xs ≡ n + (left + total heap xs) =
      omega arith in
    record {
      chain = IsChain-add_tran x n heap queue.head (x ∷ xs) q.chain;
      tail_is = q.tail_is;
      no_dup = q.no_dup;
      dsize_is =
          ap (λ m. sub_size m n) (q.dsize_is ∙ ap (λ m. m % ulong_size) split)
          ∙ sub_mod n (left + total heap xs)
          ∙ ap (λ m. m % ulong_size) (omega arith);
    }

module _ (n x : ℕ) (heap : Heap) (queue : BufferQueue) (xs : List ℕ)
    (q : IsQueue heap queue (x ∷ xs)) (h : HasBytes heap (x ∷ xs))
    (k : n ≤ length (drop (heap x).dtran (heap x).bytes)) where
  abbrev rest : Bytes
  rest = drop (heap x).dtran (heap x).bytes

  abbrev heap1 : Heap
  heap1 = add_tran x n heap

  abbrev queue1 : BufferQueue
  queue1 = consume_size n queue

  rest_len : length rest ≡ dlen heap x - (heap x).dtran
  rest_len = length-drop (heap x).dtran (heap x).bytes

  queue1-IsQueue : IsQueue heap1 queue1 (x ∷ xs)
  queue1-IsQueue = consumed n x heap queue xs q (omega (arith, rest_len))

  -- Some bytes of the buffer are left.
  part-IsTaken :
      ((heap1 x).dtran == dlen heap1 x) ≡ false
      → IsTaken n rest (pending heap (x ∷ xs)) heap1 queue1 (x ∷ xs)
  part-IsTaken e =
      let (p, t, m) = others x n heap xs q.no_dup.0 in
      let tran : (heap1 x).dtran ≡ (heap x).dtran + n =
        ap (λ b. b.dtran) (add_tran-same x n heap) in
      let size : dlen heap1 x ≡ dlen heap x = ap (λ b. length b.bytes) (add_tran-same x n heap) in
      let bytes : drop (heap1 x).dtran (heap1 x).bytes ≡ drop n rest =
        ap (λ b. drop b.dtran b.bytes) (add_tran-same x n heap)
        ∙ sym (drop-add (heap x).dtran n (heap x).bytes) in
      record {
        queue_is = queue1-IsQueue;
        more = (ground (arith, rest_len), m h.1);
        bytes_are =
            ap (λ b. take n rest ++ b)
              (ap (λ b. b ++ pending heap1 xs) bytes ∙ ap (λ b. drop n rest ++ b) p)
            ∙ sym (append_assoc (take n rest) (drop n rest) (pending heap xs))
            ∙ ap (λ b. b ++ pending heap xs) (take-drop n rest);
      }

  -- The buffer is written to its end, and popped.
  all-IsTaken :
      ((heap1 x).dtran == dlen heap1 x) ≡ true
      → IsTaken n rest
          (pending heap (x ∷ xs))
          (pop false heap1 queue1).1
          (pop false heap1 queue1).2
          xs
  all-IsTaken e =
      let (p, t, m) = others x n heap xs q.no_dup.0 in
      let tran : (heap1 x).dtran ≡ (heap x).dtran + n =
        ap (λ b. b.dtran) (add_tran-same x n heap) in
      let size : dlen heap1 x ≡ dlen heap x = ap (λ b. length b.bytes) (add_tran-same x n heap) in
      let done : (heap1 x).dtran ≡ dlen heap1 x = ==→eq (heap1 x).dtran (dlen heap1 x) e in
      let n_is : n ≡ length rest = omega (arith, rest_len) in
      let (popped, queue_is, alone, same) =
        pop-IsQueue false heap1 queue1 x xs queue1-IsQueue done in
      let heap2 = (pop false heap1 queue1).1 in
      record {
        queue_is = queue_is;
        more = HasBytes-SameBytes heap1 heap2 xs same (m h.1);
        bytes_are =
            ap (λ b. take n rest ++ b) (pending-SameBytes heap1 heap2 xs same ∙ p)
            ∙ ap (λ b. b ++ pending heap xs) (ap (λ m. take m rest) n_is ∙ take_all rest);
      }

  pub took-IsTaken :
      (ys : List ℕ) × IsTaken n rest
        (pending heap (x ∷ xs))
        (took n x heap queue).0
        (took n x heap queue).1
        ys
  unfolding took
  took-IsTaken = elim (Bool-cases ((heap1 x).dtran == dlen heap1 x)) [
    | inl e ↦ (xs, rw e (all-IsTaken e))
    | inr e ↦ (x ∷ xs, rw e (part-IsTaken e))
  ]
