-- ===== src/Tests/IoExt.antt =====
-- Reads and writes of a few bytes.
use https_proxy_server.Base.{ℕ, ◌≡◌, arith, some, false, codes}
use https_proxy_server.IoExt.{Returned, count, Moved, readn, writen}
use https_proxy_server.IoExt.Exact.{IsFront, IsTran, readn-IsRead, writen-fails}

-- Every call moves two bytes.
abbrev by_two : ℕ → Returned
by_two i = count 1

readn-IsRead_example :
    (m : Moved) × (readn 6 by_two 5 (codes "abcdefg") ≡ some m)
    × IsFront 5 (codes "abcdefg") m
    × IsTran (by_two 0) 5 m
readn-IsRead_example = readn-IsRead by_two 6 5 (codes "abcdefg") (omega arith)

writen-fails_example : (writen (count 4) 5 (codes "abcde")).ok ≡ false
writen-fails_example = writen-fails (count 4) 5 (codes "abcde") (omega arith)
