-- ===== src/Tests/Relay.antt =====
-- A server's answer that arrives in pieces.
use https_proxy_server.Base.{ℕ, zero, suc, Option, some, [], ◌∷◌, codes}
use https_proxy_server.IoExt.{Returned, count, nothing}
use https_proxy_server.Http.Relay.{Queue}

-- Three bytes can be read, and two are, until `recv` says that there is no more.
abbrev readable : ℕ → Option ℕ
readable i = some 3

abbrev recvs : ℕ → Returned
recvs zero = count 1
recvs (suc zero) = count 1
recvs (suc (suc i)) = nothing

abbrev queue : Queue
queue = codes "first" ∷ []
