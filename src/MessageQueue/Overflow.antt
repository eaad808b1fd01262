-- ===== src/MessageQueue/Overflow.antt =====
-- What goes wrong at the two ends of the ring: a queue that was emptied away from index 0, and a
-- queue that is full.
use sys_programming_explorat.Base.{
  ℕ, ◌≤◌, ◌<◌, ◌≡◌, refl, sym, ap, subst, ◌∙◌, List, ◌∷◌, none, some, arith, length, ℤ, true,
  eq_int_iff, suc, zero,
}
use sys_programming_explorat.MessageQueue
use sys_programming_explorat.MessageQueue.{
  MessageQueue, Memory, Fetched, fault, Status, done, mqerr_full, slot, store, q, dq,
  drop_slow_consumers, max_message_length, register_client, unregister_client, first_offset, Client,
  Writer, flush, flush_from, free_messages, sizeof_client, get_length,
}
use sys_programming_explorat.MessageQueue.Window.{slot-set_ne}
use sys_programming_explorat.MessageQueue.Drop.{get_length_full}

module _ {Str Mem : Type 0} (m : Memory Str Mem) where
  -- Where a queue is empty, its `end` is not 0 and slot 0 is NULL, `q` accepts a message that is
  -- short enough and that sdsnewlen can copy, and the next `dq` calls sdsdup with NULL.
  pub q_emptied_faults :
      (mq : MessageQueue Str) (msg : List ℕ) (mem mem' mem'' : Mem) (s : Str)
      → mq.start ≡ none
      → 0 < mq.end
      → slot mq.messages 0 ≡ none
      → length msg ≤ max_message_length
      → m.sdsnewlen msg mem ≡ (some s, mem')
      → let (status, mq', _) = q m mq msg mem in (status ≡ done) × ((dq m mq' mem'').0 ≡ fault)
  unfolding q dq store
  q_emptied_faults mq msg mem mem' mem'' s e away null short new =
      ground (arith, slot-set_ne mq.messages {i = mq.end} {j = 0} (some s))

  -- A full queue refuses every message, and is left as it was.
  pub q_full :
      (mq : MessageQueue Str) (msg : List ℕ) (mem : Mem)
      → mq.start ≡ some mq.end
      → q m mq msg mem ≡ (mqerr_full, mq, mem)
  unfolding q
  q_full mq msg mem full = ground arith

  -- `drop_slow_consumers` unlinks clients and leaves the ring alone.
  pub drop_slow_consumers_ring :
      (mq : MessageQueue Str) (mem : Mem)
      → let (mq', _) = drop_slow_consumers m mq mem in
        (mq'.start ≡ mq.start)
        × (mq'.end ≡ mq.end)
        × (mq'.messages ≡ mq.messages)
        × (mq'.capacity ≡ mq.capacity)
  unfolding drop_slow_consumers
  drop_slow_consumers_ring mq mem = ground arith

  -- A full queue refuses every message also right after `drop_slow_consumers`.
  pub q-drop_slow_consumers-full :
      (mq : MessageQueue Str) (msg : List ℕ) (mem : Mem)
      → mq.start ≡ some mq.end
      → let (mq', mem') = drop_slow_consumers m mq mem in q m mq' msg mem' ≡ (mqerr_full, mq', mem')
  q-drop_slow_consumers-full mq msg mem full =
      let (s, e, _, _) = drop_slow_consumers_ring mq mem in
      let (mq', mem') = drop_slow_consumers m mq mem in
      q_full mq' msg mem' (s ∙ full ∙ ap some (sym e))

  -- A full queue is freed without its messages: two blocks are freed, and no string is.
  pub free_full_leaks :
      (mq : MessageQueue Str) (mem : Mem)
      → mq.start ≡ some mq.end
      → MessageQueue.free m mq mem ≡ m.free (m.free mem)
  unfolding MessageQueue.free
  free_full_leaks mq mem full = ap (λ x. m.free (m.free x)) (loop mq.capacity)
    where
      loop :
          (fuel : ℕ)
          → (elim mq.start as (λ o. Mem) [ none ↦ mem | some s ↦ free_messages m fuel mq s mem ])
            ≡ mem
      loop zero = ground arith
      loop (suc fuel) = ground arith

module _ {Str Mem Net : Type 0} (m : Memory Str Mem) (write : Writer Net) where
  flush_from_end :
      (fuel : ℕ) (mq : MessageQueue Str) (fd : ℤ) (net : Net)
      → flush_from m write fuel mq fd mq.end net ≡ some (done, mq.end, net)
  unfolding flush_from
  flush_from_end zero mq fd net = ground arith
  flush_from_end (suc fuel) mq fd net = ground arith

  flush_home :
      (mq : MessageQueue Str) (clientfd : ℤ) (cs : List Client) (net : Net)
      → mq.start ≡ some mq.end
      → 0 < mq.capacity
      → mq.clients ≡ record { fd = clientfd; roff = mq.end } ∷ cs
      → flush m write mq clientfd net ≡ some (done, mq, net)
  unfolding flush
  flush_home mq clientfd cs net full p joined = ground (
    arith,
    get_length_full mq full,
    (eq_int_iff clientfd clientfd).1 refl,
    flush_from_end mq.capacity mq clientfd net,
  )

  -- A client that registers with a full queue, where malloc grants its block, is written nothing
  -- by the next flush, however much is waiting: its offset is `start`, where `end` stands too.
  pub register_full_silent :
      (mq : MessageQueue Str) (clientfd : ℤ) (mem mem' : Mem) (net : Net)
      → mq.start ≡ some mq.end
      → 0 < mq.capacity
      → m.malloc sizeof_client mem ≡ (true, mem')
      → let (status, mq', _) = register_client m mq clientfd mem in
        (status ≡ done) × (flush m write mq' clientfd net ≡ some (done, mq', net))
  unfolding register_client
  register_full_silent mq clientfd mem mem' net full p granted =
      let joined : MessageQueue Str = record mq {
        clients = record { fd = clientfd; roff = mq.end } ∷ mq.clients;
      } in
      let registers : register_client m mq clientfd mem ≡ (done, joined, mem') = ground arith in
      subst (λ r. (r.0 ≡ done) × (flush m write r.1 clientfd net ≡ some (done, r.1, net)))
        (sym registers) (refl, flush_home joined clientfd mq.clients net full p refl)
