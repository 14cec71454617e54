-- ===== src/Connection/Output.antt =====
-- `connection::async_send_impl` of core/connection.cpp: the output queue is written to the socket.
pub mod Taken
pub mod Order
use https_proxy_server.Base.{
  ℕ, zero, suc, ◌+◌, ◌-◌, Bool, true, false, not, ◌&&◌, Option, none, some, List, [], ◌∷◌, ◌++◌,
  ◌==◌, if◌then◌else◌, take, drop, Bytes,
}
use https_proxy_server.Buffer.{Buffer, Heap, BufferQueue, dlen, pop, consume_size}

-- `type_`
pub data ConnectionType : Type 0 where
  client idle_server busy_server : ConnectionType

-- What `send` returns: a positive number of bytes, `OP_AGAIN`, `OP_CLOSE` or `OP_ERROR`.
pub data Sent : Type 0 where
  wrote : ℕ → Sent
  again closed failed : Sent

-- How the loop ends: the queue is empty, the socket takes no more, or it is broken.
pub data LoopEnd : Type 0 where
  drained waiting broken : LoopEnd

pub record Sending : Type 0 where
  pub heap : Heap
  pub queue : BufferQueue
  pub out : Bytes
  pub end : LoopEnd

-- `buf->dtran_ += n`
unfoldable pub add_tran : ℕ → ℕ → Heap → Heap
add_tran a n heap b = if b == a then record (heap b) { dtran = (heap b).dtran + n } else heap b

-- `send` took `n` bytes of the first buffer, which is popped once all its bytes are taken; its
-- memory is then free, and nothing points to it.
unfoldable pub took : ℕ → ℕ → Heap → BufferQueue → Heap × BufferQueue
unfolding add_tran pop consume_size
took n a heap queue =
    let heap' = add_tran a n heap in
    let queue' = consume_size n queue in
    if (heap' a).dtran == dlen heap' a
    then ((pop false heap' queue').1, (pop false heap' queue').2)
    else (heap', queue')

-- The loop; call `k` of `send` gives `send k`, and the bytes it took are added to `out`.
unfoldable pub send_loop : (ℕ → Bytes → Sent) → ℕ → ℕ → Heap → BufferQueue → Bytes → Option Sending
unfolding took
send_loop send zero k heap queue out = none
send_loop send (suc fuel) k heap queue out = elim queue.head [
  | none ↦ some (record { heap = heap; queue = queue; out = out; end = drained })
  | some a ↦
      let rest = drop (heap a).dtran (heap a).bytes in
      elim (send k rest) [
        | wrote n ↦
            let (heap', queue') = took n a heap queue in
            send_loop send fuel (suc k) heap' queue' (out ++ take n rest)
        | again ↦ some (record { heap = heap; queue = queue; out = out; end = waiting })
        | _ ↦ some (record { heap = heap; queue = queue; out = out; end = broken })
      ]
]

abbrev pub is_busy : ConnectionType → Bool
is_busy busy_server = true
is_busy _ = false

-- The flags behind the loop: is `MASK_BIT_CLOSE` set, is the call left by an `io_exception`, and
-- the type.
pub record AfterSend : Type 0 where
  pub close_flag : Bool
  pub thrown : Bool
  pub type : ConnectionType

-- What follows the loop: `close_flag` is `MASK_BIT_CLOSE`, and `matched` whether `other_` is set.
unfoldable pub after_send : LoopEnd → Bool → Bool → ConnectionType → AfterSend
after_send waiting close_flag matched type = record {
  close_flag = close_flag;
  thrown = false;
  type = type;
}
after_send broken close_flag matched type = record { close_flag = true; thrown = true; type = type }
after_send drained close_flag matched type =
    if close_flag
    then record { close_flag = true; thrown = true; type = type }
    else if not matched && is_busy type
    then record { close_flag = false; thrown = false; type = idle_server }
    else record { close_flag = false; thrown = false; type = type }

-- `async_send_impl`
unfoldable pub async_send_impl :
    (ℕ → Bytes → Sent)
    → ℕ
    → Heap
    → BufferQueue
    → Bool
    → Bool
    → ConnectionType
    → Option (Sending × AfterSend)
unfolding send_loop after_send
async_send_impl send fuel heap queue close_flag matched type =
    elim (send_loop send fuel 0 heap queue []) [
      | none ↦ none
      | some s ↦ some (s, after_send s.end close_flag matched type)
    ]
