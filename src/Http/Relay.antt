-- ===== src/Http/Relay.antt =====
-- `http_stream::read_message_no_parse` of core/http.cpp, which passes on what a server sends: each
-- buffer that has been read is pushed on the partner's `out_queue_`, here the list of its buffers'
-- bytes. What each `recv` returns is a function of the number of the call, a count or OP_AGAIN or a
-- failure; what FIONREAD gives is another. SSL_READ_BUFFER_LEN and READABLE_MAX_LEN are parameters.
pub mod Order
use https_proxy_server.Base.{
  ℕ, zero, suc, ◌+◌, ◌-◌, ◌*◌, Bool, true, false, not, ◌||◌, Option, none, some, List, [], ◌∷◌,
  ◌++◌, leb, ltb, ◌==◌, if◌then◌else◌, length, drop, Bytes,
}
use https_proxy_server.IoExt.{Returned, got, is_failed}

abbrev pub default_high_mark : ℕ
default_high_mark = 16 * 1024 * 4

abbrev pub Queue : Type 0
Queue = List Bytes

unfoldable pub queue_size : Queue → ℕ
queue_size [] = 0
queue_size (buf ∷ queue) = length buf + queue_size queue

-- `is_high`
unfoldable pub is_high : Queue → Bool
unfolding queue_size
is_high queue = leb default_high_mark (queue_size queue)

-- How the loop ends: the partner has enough, so that reading is disabled; `recv` has no more, and the
-- partner is woken if anything is queued; or `io_exception(SELF_RD_ERROR)`.
pub data RelayEnd : Type 0 where
  paused waiting failed_read : RelayEnd

pub record Relayed : Type 0 where
  pub end : RelayEnd
  pub wakes : Bool
  pub queue : Queue
  pub rest : Bytes

abbrev pub is_empty_queue : Queue → Bool
is_empty_queue [] = true
is_empty_queue (buf ∷ queue) = false

module _ (ssl_read_buffer_len readable_max_len : ℕ) (readable : ℕ → Option ℕ)
    (recvs : ℕ → Returned) where
  -- The size of a new buffer; `buffer(0)` has one byte.
  abbrev pub at_most : Option ℕ → ℕ
  at_most none = readable_max_len
  at_most (some len) = if ltb readable_max_len len then readable_max_len else len

  abbrev pub buffer_size : Bool → ℕ → ℕ
  buffer_size ssl i =
      let len = if ssl then ssl_read_buffer_len else at_most (readable i) in
      if len == 0 then 1 else len

  abbrev pub room_of : Bool → ℕ → Option ℕ → ℕ
  room_of ssl i none = buffer_size ssl i
  room_of ssl i (some n) = n

  -- The loop, from call number `i` on: each round but the last queues a byte at least. `size` is the
  -- size of `buf_` if there is one; `none` is out of fuel.
  unfoldable pub relay_loop : ℕ → Bool → ℕ → Option ℕ → Queue → Bytes → Option Relayed
  unfolding is_high
  relay_loop zero ssl i size queue source = none
  relay_loop (suc fuel) ssl i size queue source = elim (got (recvs i) (room_of ssl i size) source) [
    | c ∷ more ↦
        let rest = drop (length (c ∷ more)) source in
        let queue' = queue ++ (c ∷ more) ∷ [] in
        let next = relay_loop fuel ssl (suc i) none queue' rest in
        if is_high queue'
        then some (record { end = paused; wakes = true; queue = queue'; rest = rest })
        else next
    | [] ↦
        if is_failed (recvs i)
        then some (record { end = failed_read; wakes = false; queue = queue; rest = source })
        else some (record {
          end = waiting;
          wakes = not (is_empty_queue queue);
          queue = queue;
          rest = source;
        })
  ]

  unfoldable pub read_message_no_parse : ℕ → Bool → Option ℕ → Queue → Bytes → Option Relayed
  unfolding relay_loop
  read_message_no_parse fuel ssl size queue source = relay_loop fuel ssl 0 size queue source
