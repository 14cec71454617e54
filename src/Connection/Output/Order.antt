-- ===== src/Connection/Output/Order.antt =====
-- The bytes of the queue are written in their order.
use https_proxy_server.Base.{ℕ, ◌<◌, ◌≤◌, ◌≡◌, List, [], ◌++◌, length, Bytes}
use https_proxy_server.Buffer.Chain.{pending, IsQueue}
use https_proxy_server.Connection.Output.{Sent, wrote, drained, Sending}

-- What the loop leaves of `before`, the bytes that were to be written.
pub record IsWritten (s : Sending) (before : Bytes) (ys : List ℕ) : Type 0 where
  pub queue_is : IsQueue s.heap s.queue ys
  pub bytes_are : s.out ++ pending s.heap ys ≡ before
  pub drained_is : s.end ≡ drained → ys ≡ []

-- A `send` that takes at least a byte and no more than it is given.
abbrev pub IsSend : (ℕ → Bytes → Sent) → Type 0
IsSend send = (k n : ℕ) (bs : Bytes) → send k bs ≡ wrote n → (0 < n) × (n ≤ length bs)
