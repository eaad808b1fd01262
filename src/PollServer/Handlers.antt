-- ===== src/PollServer/Handlers.antt =====
-- What a message meets at a full queue.
use sys_programming_explorat.Base.{ℕ, ◌≡◌, sym, ap, ◌∙◌, List, Option, none, some}
use sys_programming_explorat.MessageQueue.Nullable
use sys_programming_explorat.MessageQueue.{MessageQueue, Memory, mqerr_full}
use sys_programming_explorat.MessageQueue.Overflow.{q_full, drop_slow_consumers_ring}
use sys_programming_explorat.PollServer.{
  Network, minus_55, Server, handle_message, after_q, retry_tests, enqueue, drop_slow,
}

-- There is a queue, and `start` has met `end`.
abbrev pub IsFull : {Str : Type 0} → Option (MessageQueue Str) → Type 0
IsFull none = ⊥
IsFull (some mq) = mq.start ≡ some mq.end

module _ {Str Mem Net : Type 0} (m : Memory Str Mem) (n : Network Net) where
  q_null-IsFull :
      (o : Option (MessageQueue Str)) (msg : List ℕ) (mem : Mem)
      → IsFull o
      → Nullable.q m o msg mem ≡ (mqerr_full, o, mem)
  unfolding Nullable.q
  q_null-IsFull none msg mem full = absurd full
  q_null-IsFull (some mq) msg mem full = ap (λ r. (r.0, some r.1, r.2)) (q_full m mq msg mem full)

  drop_null-IsFull :
      (o : Option (MessageQueue Str)) (mem : Mem)
      → IsFull o
      → IsFull (Nullable.drop_slow_consumers m o mem).0
  unfolding Nullable.drop_slow_consumers
  drop_null-IsFull none mem full = full
  drop_null-IsFull (some mq) mem full =
      let (s, e, _, _) = drop_slow_consumers_ring m mq mem in s ∙ full ∙ ap some (sym e)

  enqueue-IsFull :
      (msg : List ℕ) (s : Server Str Mem Net) → IsFull s.mq → enqueue m n msg s ≡ (mqerr_full, s)
  enqueue-IsFull msg s full =
      ap (λ r. (r.0, record s { mq = r.1; mem = r.2 })) (q_null-IsFull s.mq msg s.mem full)

  -- While the queue is full, a client's message is answered -55: it is not queued, and the one
  -- effect is that of `drop_slow_consumers`.
  pub handle_message-IsFull :
      (msg : List ℕ) (s : Server Str Mem Net)
      → IsFull s.mq
      → handle_message m n msg s ≡ (minus_55, drop_slow m n s)
  unfolding handle_message after_q retry_tests
  handle_message-IsFull msg s full =
      let first : enqueue m n msg s ≡ (mqerr_full, s) = enqueue-IsFull msg s full in
      let again : enqueue m n msg (drop_slow m n s) ≡ (mqerr_full, drop_slow m n s) =
        enqueue-IsFull msg (drop_slow m n s) (drop_null-IsFull s.mq s.mem full) in
      ap (λ r. after_q m n r.0 r.1 (enqueue m n msg (drop_slow m n r.1))) first
      ∙ ap (λ r. after_q m n mqerr_full s r) again
