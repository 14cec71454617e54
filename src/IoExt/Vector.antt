-- ===== src/IoExt/Vector.antt =====
-- The place of a byte in a list of buffers.
use https_proxy_server.Base.{
  ℕ, suc, ◌+◌, ◌-◌, ◌<◌, ◌≤◌, ◌≡◌, inl, inr, refl, sym, ap, subst, ◌∙◌, arith, Option, none, some,
  List, [], ◌∷◌, ltb, length, take, get_or, Bool-cases,
}
use https_proxy_server.IoExt.{tran_index_from, get_iov_tran_index}

abbrev pub total : List ℕ → ℕ
total [] = 0
total (len ∷ iov) = len + total iov

-- The place is within its buffer, and behind as many bytes as have been moved; or there are no more
-- bytes than those.
abbrev pub IsPlace : List ℕ → ℕ → ℕ × Option ℕ → Type 0
IsPlace iov trans (i, none) = (i ≡ length iov) × (total iov ≤ trans)
IsPlace iov trans (i, some tran) =
    (i < length iov) × (total (take i iov) + tran ≡ trans) × (tran < get_or iov i 0)

tran_index_from-IsPlace :
    (i : ℕ) (iov : List ℕ) (trans cnt : ℕ)
    → cnt ≤ trans
    → (k : ℕ) × ((tran_index_from i iov trans cnt).0 ≡ i + k)
      × IsPlace iov (trans - cnt) (k, (tran_index_from i iov trans cnt).1)
unfolding tran_index_from
tran_index_from-IsPlace i [] trans cnt h = (0, omega arith, (refl, omega arith))
tran_index_from-IsPlace i (len ∷ iov) trans cnt h = elim (Bool-cases (ltb trans (cnt + len))) [
  | inl t ↦ rw (tran_index_from, t) (0, omega arith, (omega arith, ground arith, ground arith))
  | inr t ↦
      rw (tran_index_from, t)
        (let (k, index, place) =
            tran_index_from-IsPlace (suc i) iov trans (cnt + len) (ground arith) in
          (
            suc k,
            omega arith,
            further k (tran_index_from (suc i) iov trans (cnt + len)).1 (ground arith) place,
          ))
]
  where
    further :
        (k : ℕ) (o : Option ℕ)
        → cnt + len ≤ trans
        → IsPlace iov (trans - (cnt + len)) (k, o)
        → IsPlace (len ∷ iov) (trans - cnt) (suc k, o)
    further k none le (n, s) = (omega arith, omega arith)
    further k (some tran) le (a, b, c) = (omega arith, omega arith, c)

-- `get_iov_tran_index` finds the buffer and the place in it of the first byte that has not been
-- moved, so that a vector read or write goes on where it stopped; it gives the number of buffers only
-- if all bytes have been moved.
pub get_iov_tran_index-IsPlace :
    (iov : List ℕ) (trans : ℕ) → IsPlace iov trans (get_iov_tran_index iov trans)
unfolding get_iov_tran_index
get_iov_tran_index-IsPlace iov trans =
    let (k, index, place) = tran_index_from-IsPlace 0 iov trans 0 (omega arith) in
    moved_to (tran_index_from 0 iov trans 0) k (omega arith) (omega arith) place
  where
    moved_to :
        (r : ℕ × Option ℕ) (k : ℕ)
        → r.0 ≡ k
        → trans - 0 ≡ trans
        → IsPlace iov (trans - 0) (k, r.1)
        → IsPlace iov trans r
    moved_to (i, none) k e z (n, s) = (e ∙ n, omega arith)
    moved_to (i, some tran) k e z (a, b, c) = (
      omega arith,
      ap (λ j. total (take j iov) + tran) e ∙ b ∙ z,
      subst (λ j. tran < get_or iov j 0) (sym e) c,
    )
