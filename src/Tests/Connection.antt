-- ===== src/Tests/Connection.antt =====
-- The theorems on queues, rings and connections at concrete states.
use https_proxy_server.Base.{
  ℕ, ◌≡◌, inr, true, false, refl, arith, [], ◌∷◌, ◌++◌, Option, none, some, if◌then◌else◌, ◌==◌,
  drop, Bytes, codes,
}
use https_proxy_server.Buffer.{Heap, BufferQueue, push, pop, push_all}
use https_proxy_server.Buffer.Chain.{IsQueue, SameBytes}
use https_proxy_server.Buffer.Fifo.{push-IsQueue, pop-IsQueue}
use https_proxy_server.Buffer.Move.{push_all-IsQueue}
use https_proxy_server.Connection.Output.{client, idle_server, Sent, wrote, again, drained}
use https_proxy_server.Connection.Pairs.{Connection, Store, self_error, close, match}
use https_proxy_server.Connection.Pairs.Links.{IsPaired}
use https_proxy_server.Connection.Pairs.Close.{IsClosed, close-IsClosed}
use https_proxy_server.Connection.Pairs.Match.{IsMatching, match-IsMatching}
use https_proxy_server.Connection.UriInfo.{get_uri_info}
use https_proxy_server.Connection.UriInfo.Fields.{IsUriInfo, get_uri_info-IsUriInfo}
use https_proxy_server.CircleBuffer.{CircleBuffer, new_circle, is_full, push_back, pop_front}
use https_proxy_server.CircleBuffer.Ring.{IsRing, contents, push_back-IsRing, pop_front-IsRing}

abbrev buffers : Heap
buffers a = record { bytes = codes "ab"; dtran = 0; next = none }

abbrev no_buffers : BufferQueue
no_buffers = record { head = none; tail = none; dsize = 0 }

abbrev one_buffer : BufferQueue
one_buffer = record { head = some 7; tail = some 7; dsize = 2 }

no_buffers-IsQueue : IsQueue buffers no_buffers []
no_buffers-IsQueue = record { chain = refl; tail_is = refl; no_dup = tt; dsize_is = refl }

one_buffer-IsQueue : IsQueue buffers one_buffer (7 ∷ [])
one_buffer-IsQueue = record {
  chain = (refl, refl);
  tail_is = refl;
  no_dup = (tt, tt);
  dsize_is = refl;
}

push-IsQueue_example :
    (heap' : Heap) × (queue' : BufferQueue) × (push 1 7 buffers no_buffers ≡ some (heap', queue'))
    × IsQueue heap' queue' (7 ∷ [])
    × SameBytes buffers heap'
push-IsQueue_example = push-IsQueue 0 7 buffers no_buffers [] no_buffers-IsQueue tt refl refl

pop-IsQueue_example :
    ((pop true buffers one_buffer).0 ≡ some 7)
    × IsQueue (pop true buffers one_buffer).1 (pop true buffers one_buffer).2 []
    × (((pop true buffers one_buffer).1 7).next ≡ none)
    × SameBytes buffers (pop true buffers one_buffer).1
pop-IsQueue_example = pop-IsQueue true buffers one_buffer 7 [] one_buffer-IsQueue refl

push_all-IsQueue_example :
    (heap' : Heap) × (queue' : BufferQueue) × (from' : BufferQueue) × (push_all 2 buffers no_buffers
        one_buffer
      ≡ some (heap', queue', from'))
    × IsQueue heap' queue' (7 ∷ [])
    × IsQueue heap' from' []
    × SameBytes buffers heap'
push_all-IsQueue_example =
    push_all-IsQueue 2 buffers no_buffers one_buffer [] (7 ∷ []) no_buffers-IsQueue
      one_buffer-IsQueue (tt, tt) (refl, tt) (omega arith)

-- A socket that takes a byte at a time.
abbrev send_byte : ℕ → Bytes → Sent
send_byte k [] = again
send_byte k (c ∷ bs) = wrote 1

abbrev server_side : Connection
server_side = record {
  other = none;
  type = idle_server;
  close_flag = false;
  enable_read = true;
  timeout = false;
  data_break = false;
  out_empty = true;
}

abbrev client_side : Connection
client_side = record server_side { type = client; timeout = true }

-- The client's connection is at 1 and the server's at 2, with the partners given.
abbrev two : Option ℕ → Option ℕ → Store
two x y k =
    if k == 1
    then some (record client_side { other = x })
    else if k == 2
    then some (record server_side { other = y })
    else none

two-IsPaired : IsPaired (two none none)
two-IsPaired a b e = absurd (ground arith)

joined-IsPaired : IsPaired (two (some 2) (some 1))
joined-IsPaired a b e = ground arith

match-IsMatching_example :
    IsMatching 2 1 (two none none) (match true drained 2 server_side 1 client_side (two none none))
match-IsMatching_example =
    match-IsMatching 2 1 server_side client_side (two none none) two-IsPaired (λ e. omega arith)
      refl refl refl refl true drained (λ e. refl)

close-IsClosed_example :
    (store' : Store) × (close
        (self_error true)
        true
        drained
        1
        (record client_side { other = some 2 })
        (two (some 2) (some 1))
      ≡ some store')
    × IsClosed (self_error true) 1 (some 2) (two (some 2) (some 1)) store'
close-IsClosed_example =
    close-IsClosed 1 (record client_side { other = some 2 }) (two (some 2) (some 1)) joined-IsPaired
      refl (self_error true) true drained (λ e. cc)

abbrev target : Bytes
target = codes "/?DeviceID=cam1&callback=f"

get_uri_info-IsUriInfo_example : IsUriInfo 1 target (get_uri_info 1 target)
get_uri_info-IsUriInfo_example = get_uri_info-IsUriInfo 1 target

abbrev ring : CircleBuffer ℕ
ring = record { values = λ k. k; front = 1; back = 0; capacity = 3; size = 3 }

ring-IsRing : IsRing ring
ring-IsRing = record {
  has_room = omega arith;
  size_le = omega arith;
  front_lt = omega arith;
  back_lt = omega arith;
  back_is = inr (inr (omega arith));
}

push_back-IsRing_example :
    IsRing (push_back 9 ring)
    × (contents (push_back 9 ring)
        ≡ (if is_full ring then drop 1 (contents ring) ++ 9 ∷ [] else contents ring ++ 9 ∷ []))
push_back-IsRing_example = push_back-IsRing 9 ring ring-IsRing

pop_front-IsRing_example :
    (c' : CircleBuffer ℕ) × (pop_front ring ≡ some c')
    × IsRing c'
    × (contents ring ≡ 1 ∷ contents c')
pop_front-IsRing_example = pop_front-IsRing ring ring-IsRing (omega arith)

abbrev full_ring : CircleBuffer ℕ
full_ring = new_circle 3 8
