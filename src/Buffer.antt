-- ===== src/Buffer.antt =====
-- `buffer_queue` of core/buffer.h, on a heap: the queue is the pointers to the first and the last of
-- a chain of buffers. The heap gives each address its buffer. `lock_` makes each operation one step.
pub mod Chain
pub mod Fifo
pub mod Move
pub mod Cleared
use https_proxy_server.Base.{
  ℕ, zero, suc, ◌+◌, ◌-◌, ◌*◌, ◌%◌, Bool, true, false, Option, none, some, List, [], ◌∷◌, ◌++◌,
  ◌==◌, leb, if◌then◌else◌, length, drop, prepend, Bytes,
}
use https_proxy_server.Cstring.{ulong_size}

-- `buffer` as it is written from: the first `dlen_` bytes of `data_` (here `bytes`), `dtran_` and `next_`.
pub record Buffer : Type 0 where
  pub bytes : Bytes
  pub dtran : ℕ
  pub next : Option ℕ

abbrev pub Heap : Type 0
Heap = ℕ → Buffer

pub record BufferQueue : Type 0 where
  pub head : Option ℕ
  pub tail : Option ℕ
  pub dsize : ℕ

abbrev pub dlen : Heap → ℕ → ℕ
dlen heap a = length (heap a).bytes

-- `a->next_ = next`
unfoldable pub set_next : ℕ → Option ℕ → Heap → Heap
set_next a next heap b = if b == a then record (heap b) { next = next } else heap b

-- `while(tmp && tmp->next_) tmp = tmp->next_;`
unfoldable pub last_from : ℕ → Heap → ℕ → Option ℕ
last_from zero heap a = none
last_from (suc fuel) heap a = elim (heap a).next [ none ↦ some a | some b ↦ last_from fuel heap b ]

-- The subtraction of an `unsigned long`.
abbrev pub sub_size : ℕ → ℕ → ℕ
sub_size a b = (a + (ulong_size - b % ulong_size)) % ulong_size

-- `if(tail_) tail_->next_ = buf; else head_ = buf;`
abbrev pub link : Option ℕ → ℕ → Heap → Heap
link none a heap = heap
link (some t) a heap = set_next t (some a) heap

abbrev pub first_of : Option ℕ → ℕ → Option ℕ → Option ℕ
first_of none a head = some a
first_of (some t) a head = head

-- `push(buffer*)`. `none` is a chain behind the buffer that the fuel does not reach the end of.
unfoldable pub push : ℕ → ℕ → Heap → BufferQueue → Option (Heap × BufferQueue)
unfolding last_from set_next
push fuel a heap queue =
    let heap' = link queue.tail a heap in
    elim (last_from fuel heap' a) [
      | none ↦ none
      | some t ↦ some (
        heap',
        record {
          head = first_of queue.tail a queue.head;
          tail = some t;
          dsize = (queue.dsize + dlen heap' a) % ulong_size;
        },
      )
    ]

-- `pop`
unfoldable pub pop : Bool → Heap → BufferQueue → Option ℕ × Heap × BufferQueue
unfolding set_next
pop reduce heap queue = elim queue.head [
  | none ↦ (none, heap, queue)
  | some a ↦
      let next = (heap a).next in
      (
        some a,
        set_next a none heap,
        record {
          head = next;
          tail = elim next [ none ↦ none | some b ↦ queue.tail ];
          dsize = if reduce then sub_size queue.dsize (dlen heap a) else queue.dsize;
        },
      )
]

-- `consume_size`
unfoldable pub consume_size : ℕ → BufferQueue → BufferQueue
consume_size size queue = record queue { dsize = sub_size queue.dsize size }

abbrev pub default_low_mark : ℕ
default_low_mark = 16 * 1024

-- `is_low`
unfoldable pub is_low : BufferQueue → Bool
is_low queue = leb queue.dsize default_low_mark

-- `push(buffer_queue<LockT>&)`: every buffer of the other queue is popped and pushed.
unfoldable pub push_all :
    ℕ → Heap → BufferQueue → BufferQueue → Option (Heap × BufferQueue × BufferQueue)
unfolding push pop
push_all zero heap queue from = none
push_all (suc fuel) heap queue from = elim from.head [
  | none ↦ some (heap, queue, from)
  | some a ↦
      let (popped, heap', from') = pop true heap from in
      elim popped [
        | none ↦ none
        | some b ↦ elim (push (suc fuel) b heap' queue) [
          | none ↦ none
          | some (heap'', queue') ↦ push_all fuel heap'' queue' from'
        ]
      ]
]

-- The loop of `clear`: the buffers that it deletes, in their order; `none` is out of fuel.
unfoldable pub delete_from : ℕ → Heap → Option ℕ → Option (List ℕ)
delete_from zero heap cur = none
delete_from (suc fuel) heap none = some []
delete_from (suc fuel) heap (some a) = prepend a (delete_from fuel heap (heap a).next)

-- `clear`
unfoldable pub clear_queue : ℕ → Heap → BufferQueue → Option (List ℕ × BufferQueue)
unfolding delete_from
clear_queue fuel heap queue = elim (delete_from fuel heap queue.head) [
  | none ↦ none
  | some deleted ↦ some (deleted, record { head = none; tail = none; dsize = 0 })
]

-- `top` and `empty`
abbrev pub top : BufferQueue → Option ℕ
top queue = queue.head

abbrev pub is_empty_chain : BufferQueue → Bool
is_empty_chain queue = elim queue.head [ none ↦ true | some a ↦ false ]
