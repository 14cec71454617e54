-- ===== src/IoExt.antt =====
-- `readn`, `writen` and `get_iov_tran_index` of ipc/io_ext.cpp. What each `read` and `write` returns
-- is a function of the number of the call; a call that returns a count moves at least one byte and at
-- most what it is asked for.
pub mod Exact
pub mod Vector
use https_proxy_server.Base.{
  ℕ, zero, suc, ◌+◌, ◌-◌, Bool, true, false, not, ◌||◌, Option, none, some, List, [], ◌∷◌, ◌++◌,
  ◌==◌, ltb, if◌then◌else◌, min, length, take, drop, Bytes,
}

-- What a call returns: a count above 0, here one less, 0, or -1.
pub data Returned : Type 0 where
  count : ℕ → Returned
  nothing failed : Returned

-- `*tran`: unchanged, -1, or a count.
pub data Tran : Type 0 where
  unset minus_one : Tran
  moved : ℕ → Tran

-- What a call leaves: its result, `*tran`, the bytes it has moved, and those still to come.
pub record Moved : Type 0 where
  pub ok : Bool
  pub tran : Tran
  pub bytes : Bytes
  pub rest : Bytes

-- The end of both functions.
abbrev pub finish : ℕ → ℕ → Bytes → Bytes → Moved
finish cnt left bytes rest = record {
  ok = left == 0;
  tran = moved (cnt - left);
  bytes = bytes;
  rest = rest;
}

-- The bytes that a `read` takes from the front of what there is; none is the end of the file.
abbrev pub got : Returned → ℕ → Bytes → Bytes
got (count n) left source = take (min (suc n) left) source
got _ left source = []

abbrev pub is_failed : Returned → Bool
is_failed failed = true
is_failed _ = false

-- The loop of `readn`; each round but the last takes a byte at least. `none` is out of fuel.
unfoldable pub readn_loop : ℕ → (ℕ → Returned) → ℕ → ℕ → ℕ → Bytes → Bytes → Option Moved
readn_loop zero reads i cnt left bytes source = none
readn_loop (suc fuel) reads i cnt left bytes source =
    if left == 0 then some (finish cnt left bytes source) else elim (got (reads i) left source) [
      | c ∷ more ↦
          readn_loop fuel reads (suc i) cnt (left - length (c ∷ more)) (bytes ++ c ∷ more)
            (drop (length (c ∷ more)) source)
      | [] ↦
          if not (is_failed (reads i)) || not (left == cnt)
          then some (finish cnt left bytes source)
          else some (record { ok = false; tran = minus_one; bytes = bytes; rest = source })
    ]

unfoldable pub readn : ℕ → (ℕ → Returned) → ℕ → Bytes → Option Moved
unfolding readn_loop
readn fuel reads cnt source = readn_loop fuel reads 0 cnt cnt [] source

-- `writen`: the `return false` stands behind the whole `if`, so that the loop makes one round. `rest`
-- is what has not been written.
unfoldable pub writen : Returned → ℕ → Bytes → Moved
writen returned cnt buf = if cnt == 0 then finish cnt cnt [] buf else elim returned [
  | count n ↦
      let k = min (suc n) cnt in
      record { ok = false; tran = unset; bytes = take k buf; rest = drop k buf }
  | nothing ↦ finish cnt cnt [] buf
  | failed ↦ record { ok = false; tran = minus_one; bytes = []; rest = buf }
]

-- `get_iov_tran_index`: the index of the buffer in which byte number `trans` stands, and its place
-- there; the index is the number of buffers, and the place is not set, where there is none.
unfoldable pub tran_index_from : ℕ → List ℕ → ℕ → ℕ → ℕ × Option ℕ
tran_index_from i [] trans cnt = (i, none)
tran_index_from i (len ∷ iov) trans cnt =
    let rest = tran_index_from (suc i) iov trans (cnt + len) in
    if ltb trans (cnt + len) then (i, some (len - (cnt + len - trans))) else rest

unfoldable pub get_iov_tran_index : List ℕ → ℕ → ℕ × Option ℕ
unfolding tran_index_from
get_iov_tran_index iov trans = tran_index_from 0 iov trans 0
