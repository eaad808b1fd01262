-- ===== src/MessageQueue.antt =====
-- tcp/polling/message_q.c and message_q.h: a ring of messages that several clients read, each from
-- an offset of its own. The functions are those of a queue that is not NULL; `Nullable` adds the
-- test for NULL. The sds strings, the allocator and write(2) are parameters.
pub mod Nullable
pub mod Window
pub mod Validity
pub mod Fifo
pub mod Overflow
pub mod Ring
pub mod FlushEnds
pub mod Clients
pub mod Keeps
pub mod Writes
pub mod Flush
pub mod Drop
mod Tests
use sys_programming_explorat.Base.{
  ℕ, zero, suc, ◌+◌, ◌-◌, ◌*◌, ◌/◌, ◌%◌, ◌^◌, List, [], ◌∷◌, Bool, true, false, Option, none, some,
  ltb, leb, ◌==◌, if◌then◌else◌, get_elem?, set, replicate, length, ℤ, eq_int, add_size, sub_size,
}

-- Strings of sds.c, and the memory that they and the other blocks live in. A call that allocates
-- answers NULL (`none`, `false`) or succeeds, as the memory decides.
pub record Memory (Str Mem : Type 0) : Type 0 where
  pub sdsnewlen : List ℕ → Mem → Option Str × Mem
  pub sdsdup : Str → Mem → Option Str × Mem
  pub sdsfree : Str → Mem → Mem
  -- The bytes of a string, `sdslen` many.
  pub text : Str → List ℕ
  pub malloc : ℕ → Mem → Bool × Mem
  pub free : Mem → Mem

-- write(2) on a descriptor: how many bytes went out, `none` for -1. A signal, such as the SIGPIPE
-- of a write to a peer that is gone, is not modelled.
abbrev pub Writer : Type 0 → Type 0
Writer Net = ℤ → List ℕ → Net → Option ℕ × Net

abbrev pub max_message_length : ℕ
max_message_length = 512

-- 0, the MQERR_ codes, and `failed` for a plain -1.
pub data Status : Type 0 where
  done mqerr_full mqerr_message_too_long mqerr_null_pointer mqerr_alloc_fail failed : Status

-- `MQClient`
pub record Client : Type 0 where
  pub fd : ℤ
  pub roff : ℕ

-- `struct message_queue`. A `start` of `none` is MQ_EMPTY_SENTINEL, a message of `none` NULL.
pub record MessageQueue (Str : Type 0) : Type 0 where
  pub capacity : ℕ
  pub messages : List (Option Str)
  pub start : Option ℕ
  pub end : ℕ
  pub clients : List Client

-- What `get` and `dq` return: NULL, a copy, or a fault, where sdsdup is called with NULL.
pub data Fetched (Str : Type 0) : Type 0 where
  null : Fetched Str
  message : Str → Fetched Str
  fault : Fetched Str

-- `i == mq->start`
abbrev pub is_start : Option ℕ → ℕ → Bool
is_start none i = false
is_start (some s) i = s == i

abbrev pub sizeof_queue : ℕ
sizeof_queue = 40

abbrev pub sizeof_client : ℕ
sizeof_client = 24

module _ {Str : Type 0} where
  -- `mq->messages[i]`; `Validity` shows that no index is out of range.
  pub slot : List (Option Str) → ℕ → Option Str
  slot ms i = elim (get_elem? ms i) [ none ↦ none | some m ↦ m ]

  unfoldable pub get_length : MessageQueue Str → ℕ
  get_length mq = elim mq.start [
    | none ↦ 0
    | some s ↦
        if ltb s mq.end
        then mq.end - s
        else if s == mq.end
        then mq.capacity
        else (mq.capacity - s) + mq.end
  ]

  -- `roff` of a client that registers now.
  abbrev pub first_offset : MessageQueue Str → ℕ
  first_offset mq = elim mq.start [ none ↦ 0 | some s ↦ s ]

  unfoldable pub store : MessageQueue Str → Str → MessageQueue Str
  store mq s = record mq {
    messages = set mq.messages mq.end (some s);
    start = elim mq.start [ none ↦ some 0 | some i ↦ some i ];
    end = (mq.end + 1) % mq.capacity;
  }

  -- `start` moved on by one, and the sentinel where that meets `end`.
  pub advance : MessageQueue Str → ℕ → MessageQueue Str
  advance mq s =
      let next = (s + 1) % mq.capacity in
      record mq {
        messages = set mq.messages s none;
        start = if next == mq.end then none else some next;
      }

  -- The test of `drop_slow_consumers` on one client: its distance from `start` is below 40% of the
  -- capacity. `capacity * 0.4`, a double in the source, is written in integers; below 2 ^ 32, to
  -- which the theorems on it hold, both are the same number.
  pub is_slow : MessageQueue Str → ℕ → Client → Bool
  is_slow mq start c =
      ltb (sub_size (add_size mq.capacity c.roff) start % mq.capacity) (mq.capacity * 4 / 10)

-- The first client of the descriptor is unlinked.
pub remove_client : List Client → ℤ → Option (List Client)
remove_client [] clientfd = none
remove_client (c ∷ cs) clientfd =
    if eq_int c.fd clientfd
    then some cs
    else elim (remove_client cs clientfd) [ none ↦ none | some rest ↦ some (c ∷ rest) ]

module _ {Str Mem : Type 0} (m : Memory Str Mem) where
  -- The size asked for wraps, so that from 2 ^ 61 slots on the block has fewer than the ring.
  init_messages : ℕ → Mem → Option (MessageQueue Str) × Mem
  init_messages capacity mem =
      let size = 8 * capacity % 2 ^ 64 in
      let (granted, mem') = m.malloc size mem in
      if granted
      then (
        some (record {
          capacity = capacity;
          messages = replicate (size / 8) none;
          start = none;
          end = 0;
          clients = [];
        }),
        mem',
      )
      else (none, m.free mem')

  unfoldable pub init : ℕ → Mem → Option (MessageQueue Str) × Mem
  unfolding init_messages
  init capacity mem =
      if capacity == 0
      then (none, mem)
      else (let (granted, mem') = m.malloc sizeof_queue mem in
          if granted then init_messages capacity mem' else (none, mem'))

  unfoldable pub q : MessageQueue Str → List ℕ → Mem → Status × MessageQueue Str × Mem
  q mq msg mem =
      if is_start mq.start mq.end
      then (mqerr_full, mq, mem)
      else if ltb max_message_length (length msg)
      then (mqerr_message_too_long, mq, mem)
      else (let (s, mem') = m.sdsnewlen msg mem in
          elim s [ none ↦ (mqerr_alloc_fail, mq, mem') | some str ↦ (done, store mq str, mem') ])

  -- `sdsdup` of a slot.
  pub copy_slot : Option Str → Mem → Fetched Str × Mem
  copy_slot none mem = (fault, mem)
  copy_slot (some s) mem =
      let (copy, mem') = m.sdsdup s mem in
      elim copy [ none ↦ (null, mem') | some t ↦ (message t, mem') ]

  unfoldable pub get : MessageQueue Str → ℕ → Mem → Fetched Str × Mem
  unfolding copy_slot slot get_length
  get mq index mem = elim mq.start [
    | none ↦ (null, mem)
    | some s ↦
        if leb (get_length mq) index
        then (null, mem)
        else copy_slot (slot mq.messages ((s + index) % mq.capacity)) mem
  ]

  dq_at : MessageQueue Str → ℕ → Option Str → Mem → Fetched Str × MessageQueue Str × Mem
  dq_at mq s none mem = (fault, mq, mem)
  dq_at mq s (some str) mem =
      let (copy, mem') = m.sdsdup str mem in
      elim copy [ none ↦ (null, mq, mem') | some t ↦ (message t, advance mq s, m.sdsfree str mem') ]

  unfoldable pub dq : MessageQueue Str → Mem → Fetched Str × MessageQueue Str × Mem
  unfolding dq_at slot advance
  dq mq mem = elim mq.start [
    | none ↦ (null, mq, mem)
    | some s ↦ dq_at mq s (slot mq.messages s) mem
  ]

  -- The loop of `message_queue__free`, at most `fuel` rounds; sdsfree(NULL) does nothing.
  pub free_messages : ℕ → MessageQueue Str → ℕ → Mem → Mem
  free_messages zero mq i mem = mem
  free_messages (suc fuel) mq i mem =
      let freed : Mem = elim (slot mq.messages i) [ none ↦ mem | some s ↦ m.sdsfree s mem ] in
      let rest = free_messages fuel mq ((i + 1) % mq.capacity) freed in
      if i == mq.end then mem else rest

  -- Fewer than `capacity` rounds lead round the ring.
  unfoldable pub free : MessageQueue Str → Mem → Mem
  unfolding free_messages slot
  free mq mem =
      m.free (m.free (elim mq.start [ none ↦ mem | some s ↦ free_messages mq.capacity mq s mem ]))

  unfoldable pub register_client : MessageQueue Str → ℤ → Mem → Status × MessageQueue Str × Mem
  register_client mq clientfd mem =
      let (granted, mem') = m.malloc sizeof_client mem in
      if granted
      then (
        done,
        record mq { clients = record { fd = clientfd; roff = first_offset mq } ∷ mq.clients },
        mem',
      )
      else (failed, mq, mem')

  unfoldable pub unregister_client : MessageQueue Str → ℤ → Mem → Status × MessageQueue Str × Mem
  unfolding remove_client
  unregister_client mq clientfd mem = elim (remove_client mq.clients clientfd) [
    | none ↦ (failed, mq, mem)
    | some rest ↦ (done, record mq { clients = rest }, m.free mem)
  ]

  pub drop_slow : MessageQueue Str → ℕ → List Client → Mem → List Client × Mem
  drop_slow mq start [] mem = ([], mem)
  drop_slow mq start (c ∷ cs) mem =
      let slow = is_slow mq start c in
      let (kept, mem') = drop_slow mq start cs (if slow then m.free mem else mem) in
      (if slow then kept else c ∷ kept, mem')

  unfoldable pub drop_slow_consumers : MessageQueue Str → Mem → MessageQueue Str × Mem
  unfolding get_length drop_slow is_slow
  drop_slow_consumers mq mem = elim mq.start [
    | none ↦ (mq, mem)
    | some s ↦
        if ltb (get_length mq) (mq.capacity * 8 % 2 ^ 64 / 10)
        then (mq, mem)
        else (let (kept, mem') = drop_slow mq s mq.clients mem in
            (record mq { clients = kept }, mem'))
  ]

module _ {Str Mem Net : Type 0} (m : Memory Str Mem) (write : Writer Net) where
  -- One round of `__flush_client_messages`: whether it goes on, and the network behind it. A write
  -- to a peer that is gone answers -1, as it does where SIGPIPE is ignored.
  pub send_slot : ℤ → Option Str → Net → Bool × Net
  send_slot fd none net = (true, net)
  send_slot fd (some s) net =
      let (n, net') = write fd (m.text s) net in
      elim n [ none ↦ (false, net') | some _ ↦ (true, net') ]

  -- The loop of `__flush_client_messages` from index `i` on, at most `fuel` rounds: the status,
  -- and the offset where it stops. `none` means that the fuel ran out.
  pub flush_from : ℕ → MessageQueue Str → ℤ → ℕ → Net → Option (Status × ℕ × Net)
  flush_from zero mq fd i net = if i == mq.end then some (done, i, net) else none
  flush_from (suc fuel) mq fd i net =
      let (goes_on, net') = send_slot fd (slot mq.messages i) net in
      let rest = flush_from fuel mq fd ((i + 1) % mq.capacity) net' in
      if i == mq.end then some (done, i, net) else if goes_on then rest else some (failed, i, net')

  -- The first client of the descriptor is flushed.
  pub flush_client :
      ℕ → MessageQueue Str → ℤ → List Client → Net → Option (Status × List Client × Net)
  flush_client fuel mq clientfd [] net = some (failed, [], net)
  flush_client fuel mq clientfd (c ∷ cs) net =
      let flushed = flush_from fuel mq c.fd c.roff net in
      let later = flush_client fuel mq clientfd cs net in
      if eq_int c.fd clientfd
      then elim flushed [
        | none ↦ none
        | some (status, roff, net') ↦ some (status, record c { roff = roff } ∷ cs, net')
      ]
      else elim later [ none ↦ none | some (status, cs', net') ↦ some (status, c ∷ cs', net') ]

  -- `fuel` bounds the rounds of the loop; `capacity` of them are enough.
  unfoldable pub flush : MessageQueue Str → ℤ → Net → Option (Status × MessageQueue Str × Net)
  unfolding get_length flush_client flush_from send_slot slot
  flush mq clientfd net =
      if get_length mq == 0
      then some (done, mq, net)
      else elim (flush_client mq.capacity mq clientfd mq.clients net) [
        | none ↦ none
        | some (status, clients, net') ↦ some (status, record mq { clients = clients }, net')
      ]
