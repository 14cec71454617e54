-- ===== src/Buffer/Chain.antt =====
-- The list of buffers that a queue stands for, and what a change of one `next_` does to it.
use https_proxy_server.Base.{
  ℕ, ◌+◌, ◌-◌, ◌%◌, ◌≡◌, ◌≢◌, inl, inr, refl, sym, ap, ◌∙◌, arith, Option, none, some, List, [],
  ◌∷◌, ◌++◌, ◌==◌, drop, Bytes, Bool-cases, ==→eq, ==_refl,
}
use https_proxy_server.Cstring.{ulong_size}
use https_proxy_server.Buffer.{Heap, BufferQueue, dlen, set_next}

-- From `p` on, the `next_` pointers lead through these buffers to a null pointer.
abbrev pub IsChain : Heap → Option ℕ → List ℕ → Type 0
IsChain heap p [] = p ≡ none
IsChain heap p (x ∷ xs) = (p ≡ some x) × IsChain heap (heap x).next xs

abbrev pub last : List ℕ → Option ℕ
last [] = none
last (x ∷ []) = some x
last (x ∷ y ∷ xs) = last (y ∷ xs)

abbrev pub IsFresh : ℕ → List ℕ → Type 0
IsFresh a [] = Unit {0}
IsFresh a (x ∷ xs) = (a ≢ x) × IsFresh a xs

abbrev pub NoDup : List ℕ → Type 0
NoDup [] = Unit {0}
NoDup (x ∷ xs) = IsFresh x xs × NoDup xs

-- The bytes that are still to be written, and their number.
abbrev pub pending : Heap → List ℕ → Bytes
pending heap [] = []
pending heap (x ∷ xs) = drop (heap x).dtran (heap x).bytes ++ pending heap xs

abbrev pub total : Heap → List ℕ → ℕ
total heap [] = 0
total heap (x ∷ xs) = (dlen heap x - (heap x).dtran) + total heap xs

-- The queue stands for these buffers: the chain, its end, and the count of the bytes to write.
pub record IsQueue (heap : Heap) (queue : BufferQueue) (xs : List ℕ) : Type 0 where
  pub chain : IsChain heap queue.head xs
  pub tail_is : queue.tail ≡ last xs
  pub no_dup : NoDup xs
  pub dsize_is : queue.dsize ≡ total heap xs % ulong_size

-- Two heaps that differ in `next_` pointers only.
abbrev pub SameBytes : Heap → Heap → Type 0
SameBytes heap heap' =
    (a : ℕ) → ((heap' a).bytes ≡ (heap a).bytes) × ((heap' a).dtran ≡ (heap a).dtran)

pub set_next-SameBytes :
    (a : ℕ) (next : Option ℕ) (heap : Heap) → SameBytes heap (set_next a next heap)
unfolding set_next
set_next-SameBytes a next heap b = elim (Bool-cases (b == a)) [
  | inl e ↦ rw e (refl, refl)
  | inr e ↦ rw e (refl, refl)
]

pub set_next-same : (a : ℕ) (next : Option ℕ) (heap : Heap) → (set_next a next heap a).next ≡ next
unfolding set_next
set_next-same a next heap = rw (==_refl a)

pub set_next-other :
    (a b : ℕ) (next : Option ℕ) (heap : Heap) → b ≢ a → set_next a next heap b ≡ heap b
unfolding set_next
set_next-other a b next heap n = elim (Bool-cases (b == a)) [
  | inl e ↦ absurd (n (==→eq b a e))
  | inr e ↦ rw e
]

pub pending-SameBytes :
    (heap heap' : Heap) (xs : List ℕ) → SameBytes heap heap' → pending heap' xs ≡ pending heap xs
pending-SameBytes heap heap' [] s = refl
pending-SameBytes heap heap' (x ∷ xs) s = rw ((s x).0, (s x).1, pending-SameBytes heap heap' xs s)

pub total-SameBytes :
    (heap heap' : Heap) (xs : List ℕ) → SameBytes heap heap' → total heap' xs ≡ total heap xs
total-SameBytes heap heap' [] s = refl
total-SameBytes heap heap' (x ∷ xs) s = rw ((s x).0, (s x).1, total-SameBytes heap heap' xs s)

pub total_append :
    (heap : Heap) (xs : List ℕ) (a : ℕ)
    → total heap (xs ++ a ∷ []) ≡ total heap xs + (dlen heap a - (heap a).dtran)
total_append heap [] a = omega arith
total_append heap (x ∷ xs) a = omega (arith, total_append heap xs a)

-- A pointer outside a chain can be set without a change of the chain.
pub IsChain-frame :
    (a : ℕ) (next : Option ℕ) (heap : Heap) (p : Option ℕ) (xs : List ℕ)
    → IsFresh a xs
    → IsChain heap p xs
    → IsChain (set_next a next heap) p xs
IsChain-frame a next heap p [] f c = c
IsChain-frame a next heap p (x ∷ xs) (n, f) (e, c) = (
  e,
  rw (set_next-other a x next heap (λ q. n (sym q)))
      (IsChain-frame a next heap (heap x).next xs f c),
)

pub IsFresh-last : (a t : ℕ) (xs : List ℕ) → IsFresh a xs → last xs ≡ some t → a ≢ t
IsFresh-last a t [] f e = cc
IsFresh-last a t (x ∷ []) (n, f) e = let x_is : x ≡ t = cc in λ q. n (q ∙ sym x_is)
IsFresh-last a t (x ∷ y ∷ xs) (n, f) e = IsFresh-last a t (y ∷ xs) f e

-- A buffer with no next one, linked behind the last buffer of a chain, is its new end.
pub IsChain-append :
    (a t : ℕ) (heap : Heap) (p : Option ℕ) (xs : List ℕ)
    → IsChain heap p xs
    → NoDup xs
    → IsFresh a xs
    → last xs ≡ some t
    → (heap a).next ≡ none
    → IsChain (set_next t (some a) heap) p (xs ++ a ∷ [])
IsChain-append a t heap p [] c d f e n = cc
IsChain-append a t heap p (x ∷ []) (e0, c) d (f, g) e n =
    let x_is : x ≡ t = cc in
    (
      e0,
      (
        ap (λ k. (set_next t (some a) heap k).next) x_is ∙ set_next-same t (some a) heap,
        ap (λ b. b.next) (set_next-other t a (some a) heap (λ q. f (q ∙ sym x_is))) ∙ n,
      ),
    )
IsChain-append a t heap p (x ∷ y ∷ xs) (e0, c) (fx, d) (f, g) e n =
    let ih = IsChain-append a t heap (heap x).next (y ∷ xs) c d g e n in
    (e0, rw (set_next-other t x (some a) heap (IsFresh-last x t (y ∷ xs) fx e)) ih)

pub last_append : (xs : List ℕ) (a : ℕ) → last (xs ++ a ∷ []) ≡ some a
last_append [] a = refl
last_append (x ∷ []) a = refl
last_append (x ∷ y ∷ xs) a = last_append (y ∷ xs) a

pub IsFresh-append : (a b : ℕ) (xs : List ℕ) → IsFresh a xs → a ≢ b → IsFresh a (xs ++ b ∷ [])
IsFresh-append a b [] f n = (n, tt)
IsFresh-append a b (x ∷ xs) (m, f) n = (m, IsFresh-append a b xs f n)

pub NoDup-append : (a : ℕ) (xs : List ℕ) → NoDup xs → IsFresh a xs → NoDup (xs ++ a ∷ [])
NoDup-append a [] d f = (tt, tt)
NoDup-append a (x ∷ xs) (fx, d) (n, f) =
    (IsFresh-append x a xs fx (λ q. n (sym q)), NoDup-append a xs d f)
