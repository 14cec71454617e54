-- ===== src/Http/Relay/Order.antt =====
-- What a server sends reaches its partner's queue whole and in its order.
use https_proxy_server.Base.{ℕ, Bool, true, false, not, ◌≡◌, Option, some, [], ◌∷◌, ◌++◌, Bytes}
use https_proxy_server.IoExt.{Returned}
use https_proxy_server.Http.Relay.{
  Queue, is_high, RelayEnd, paused, waiting, failed_read, Relayed, is_empty_queue, room_of,
  relay_loop,
}

-- The bytes in a queue.
abbrev pub queued : Queue → Bytes
queued [] = []
queued (buf ∷ queue) = buf ++ queued queue

-- Why the loop ended, and whether the partner is woken.
abbrev pub IsEnd : Queue → RelayEnd → Bool → Type 0
IsEnd queue paused wakes = (is_high queue ≡ true) × (wakes ≡ true)
IsEnd queue waiting wakes = wakes ≡ not (is_empty_queue queue)
IsEnd queue failed_read wakes = wakes ≡ false

pub record IsRelayed (queue : Queue) (source : Bytes) (r : Relayed) : Type 0 where
  pub whole : queued r.queue ++ r.rest ≡ queued queue ++ source
  pub ended : IsEnd r.queue r.end r.wakes

module _ (ssl_read_buffer_len readable_max_len : ℕ) (readable : ℕ → Option ℕ) (recvs : ℕ → Returned)
    (ssl : Bool) where
  abbrev loop : ℕ → ℕ → Option ℕ → Queue → Bytes → Option Relayed
  loop fuel i size queue source =
      relay_loop ssl_read_buffer_len readable_max_len readable recvs fuel ssl i size queue source

  abbrev room : ℕ → Option ℕ → ℕ
  room i size = room_of ssl_read_buffer_len readable_max_len readable recvs ssl i size

  abbrev Relays : Queue → Bytes → Option Relayed → Type 0
  Relays queue source o = (r : Relayed) × (o ≡ some r) × IsRelayed queue source r
