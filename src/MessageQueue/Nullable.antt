-- ===== src/MessageQueue/Nullable.antt =====
-- The entry points of message_q.c with their test for a NULL queue.
use sys_programming_explorat.Base.{ℕ, List, Option, none, some, ℤ}
use sys_programming_explorat.MessageQueue
use sys_programming_explorat.MessageQueue.{
  MessageQueue, Memory, Writer, Status, done, mqerr_null_pointer, failed, Fetched, null,
}

module _ {Str Mem : Type 0} (m : Memory Str Mem) where
  unfoldable pub q :
      Option (MessageQueue Str) → List ℕ → Mem → Status × Option (MessageQueue Str) × Mem
  q none msg mem = (mqerr_null_pointer, none, mem)
  q (some mq) msg mem =
      let (status, mq', mem') = MessageQueue.q m mq msg mem in (status, some mq', mem')

  unfoldable pub get : Option (MessageQueue Str) → ℕ → Mem → Fetched Str × Mem
  get none index mem = (null, mem)
  get (some mq) index mem = MessageQueue.get m mq index mem

  unfoldable pub dq :
      Option (MessageQueue Str) → Mem → Fetched Str × Option (MessageQueue Str) × Mem
  dq none mem = (null, none, mem)
  dq (some mq) mem =
      let (fetched, mq', mem') = MessageQueue.dq m mq mem in (fetched, some mq', mem')

  unfoldable pub free : Option (MessageQueue Str) → Mem → Mem
  free none mem = mem
  free (some mq) mem = MessageQueue.free m mq mem

  unfoldable pub register_client :
      Option (MessageQueue Str) → ℤ → Mem → Status × Option (MessageQueue Str) × Mem
  register_client none clientfd mem = (failed, none, mem)
  register_client (some mq) clientfd mem =
      let (status, mq', mem') = MessageQueue.register_client m mq clientfd mem in
      (status, some mq', mem')

  unfoldable pub unregister_client :
      Option (MessageQueue Str) → ℤ → Mem → Status × Option (MessageQueue Str) × Mem
  unregister_client none clientfd mem = (failed, none, mem)
  unregister_client (some mq) clientfd mem =
      let (status, mq', mem') = MessageQueue.unregister_client m mq clientfd mem in
      (status, some mq', mem')

  unfoldable pub drop_slow_consumers :
      Option (MessageQueue Str) → Mem → Option (MessageQueue Str) × Mem
  drop_slow_consumers none mem = (none, mem)
  drop_slow_consumers (some mq) mem =
      let (mq', mem') = MessageQueue.drop_slow_consumers m mq mem in (some mq', mem')

module _ {Str Mem Net : Type 0} (m : Memory Str Mem) (write : Writer Net) where
  unfoldable pub flush :
      Option (MessageQueue Str) → ℤ → Net → Option (Status × Option (MessageQueue Str) × Net)
  flush none clientfd net = some (mqerr_null_pointer, none, net)
  flush (some mq) clientfd net = elim (MessageQueue.flush m write mq clientfd net) [
    | none ↦ none
    | some (status, mq', net') ↦ some (status, some mq', net')
  ]
