-- ===== src/PollServer/Sound.antt =====
-- The queue through the handlers of the server, and whether they come to an err_exit. Signals, such
-- as a SIGPIPE, are not modelled.
use sys_programming_explorat.Base.{
  ℕ, ◌≤◌, ◌≢◌, refl, List, [], ◌∷◌, ◌||◌, Option, none, some, length, ℤ, Bool-cases, inl, inr,
}
use sys_programming_explorat.MessageQueue
use sys_programming_explorat.MessageQueue.Nullable
use sys_programming_explorat.MessageQueue.{
  MessageQueue, Memory, Status, done, mqerr_full, mqerr_message_too_long, mqerr_null_pointer,
  mqerr_alloc_fail, failed, max_message_length,
}
use sys_programming_explorat.MessageQueue.Ring.{
  IsSound, q-InRing, q-ne-too_long, register_client-InRing, unregister_client-InRing,
  drop_slow_consumers-InRing,
}
use sys_programming_explorat.Fds.{Pollfd}
use sys_programming_explorat.PollServer.{
  Received, got, read_error, Network, Code, zero_code, minus_1, minus_2, minus_3, minus_55, exits,
  Server, disconnect, after_q, retry_tests, last_tests, handle_message, handle_read,
  handle_client_event,
}

module _ {Str Mem Net : Type 0} (m : Memory Str Mem) (n : Network Net) where
  -- read(2) answers no more bytes than it is asked for.
  abbrev pub IsWithin : ℕ → Received → Type 0
  IsWithin size (got bs) = length bs ≤ size
  IsWithin size read_error = Unit {0}

  abbrev pub ReadsWithin : Type 0
  ReadsWithin = (fd : ℤ) (size : ℕ) (net : Net) → IsWithin size (n.read fd size net).0

  -- A handler that does not end the process, and leaves the queue sound.
  abbrev pub Fine : Code × Server Str Mem Net → Type 0
  Fine (exits, s) = ⊥
  Fine (zero_code, s) = IsSound s.mq
  Fine (minus_1, s) = IsSound s.mq
  Fine (minus_2, s) = IsSound s.mq
  Fine (minus_3, s) = IsSound s.mq
  Fine (minus_55, s) = IsSound s.mq

  unregister-IsSound :
      (o : Option (MessageQueue Str)) (fd : ℤ) (mem : Mem)
      → IsSound o
      → IsSound (Nullable.unregister_client m o fd mem).1
  unfolding Nullable.unregister_client
  unregister-IsSound none fd mem v = tt
  unregister-IsSound (some mq) fd mem v = unregister_client-InRing m mq fd mem v

  pub register-IsSound :
      (o : Option (MessageQueue Str)) (fd : ℤ) (mem : Mem)
      → IsSound o
      → IsSound (Nullable.register_client m o fd mem).1
  unfolding Nullable.register_client
  register-IsSound none fd mem v = tt
  register-IsSound (some mq) fd mem v = register_client-InRing m mq fd mem v

  drop_slow-IsSound :
      (o : Option (MessageQueue Str)) (mem : Mem)
      → IsSound o
      → IsSound (Nullable.drop_slow_consumers m o mem).0
  unfolding Nullable.drop_slow_consumers
  drop_slow-IsSound none mem v = tt
  drop_slow-IsSound (some mq) mem v = drop_slow_consumers-InRing m mq mem v

  -- A message of at most 512 bytes is put into the queue, or refused without an end.
  abbrev Queued : Status × Option (MessageQueue Str) × Mem → Type 0
  Queued (mqerr_message_too_long, o, mem) = ⊥
  Queued (done, o, mem) = IsSound o
  Queued (mqerr_full, o, mem) = IsSound o
  Queued (mqerr_null_pointer, o, mem) = IsSound o
  Queued (mqerr_alloc_fail, o, mem) = IsSound o
  Queued (failed, o, mem) = IsSound o

  short-Queued :
      (status : Status) (o : Option (MessageQueue Str)) (mem : Mem)
      → status ≢ mqerr_message_too_long
      → IsSound o
      → Queued (status, o, mem)
  short-Queued mqerr_message_too_long o mem short v = absurd (short refl)
  short-Queued done o mem short v = v
  short-Queued mqerr_full o mem short v = v
  short-Queued mqerr_null_pointer o mem short v = v
  short-Queued mqerr_alloc_fail o mem short v = v
  short-Queued failed o mem short v = v

  q-Queued :
      (o : Option (MessageQueue Str)) (msg : List ℕ) (mem : Mem)
      → length msg ≤ max_message_length
      → IsSound o
      → Queued (Nullable.q m o msg mem)
  unfolding Nullable.q
  q-Queued none msg mem short v = tt
  q-Queued (some mq) msg mem short v =
      let (status, mq', mem') = MessageQueue.q m mq msg mem in
      short-Queued status (some mq') mem' (q-ne-too_long m mq msg mem short)
        (q-InRing m mq msg mem v)

  Queued-IsSound :
      (status : Status) (o : Option (MessageQueue Str)) (mem : Mem)
      → Queued (status, o, mem)
      → IsSound o
  Queued-IsSound mqerr_message_too_long o mem v = absurd v
  Queued-IsSound done o mem v = v
  Queued-IsSound mqerr_full o mem v = v
  Queued-IsSound mqerr_null_pointer o mem v = v
  Queued-IsSound mqerr_alloc_fail o mem v = v
  Queued-IsSound failed o mem v = v

  retry-Fine :
      (status : Status) (s : Server Str Mem Net)
      → Queued (status, s.mq, s.mem)
      → Fine (retry_tests status, s)
  unfolding retry_tests last_tests
  retry-Fine mqerr_message_too_long s v = absurd v
  retry-Fine done s v = v
  retry-Fine mqerr_full s v = v
  retry-Fine mqerr_null_pointer s v = v
  retry-Fine mqerr_alloc_fail s v = v
  retry-Fine failed s v = v

  after_q-Fine :
      (status : Status) (s : Server Str Mem Net) (again : Status × Server Str Mem Net)
      → Queued (status, s.mq, s.mem)
      → Queued (again.0, again.1.mq, again.1.mem)
      → Fine (after_q m n status s again)
  unfolding after_q last_tests
  after_q-Fine mqerr_message_too_long s again v v' = absurd v
  after_q-Fine done s again v v' = v
  after_q-Fine mqerr_full s (status', s') v v' = retry-Fine status' s' v'
  after_q-Fine mqerr_null_pointer s again v v' = v
  after_q-Fine mqerr_alloc_fail s again v v' = v
  after_q-Fine failed s again v v' = v

  handle_message-Fine :
      (msg : List ℕ) (s : Server Str Mem Net)
      → length msg ≤ max_message_length
      → IsSound s.mq
      → Fine (handle_message m n msg s)
  unfolding handle_message
  handle_message-Fine msg s short v =
      let (status, mq, mem) = Nullable.q m s.mq msg s.mem in
      let first = q-Queued s.mq msg s.mem short v in
      let (mq', mem') = Nullable.drop_slow_consumers m mq mem in
      let dropped = drop_slow-IsSound mq mem (Queued-IsSound status mq mem first) in
      let (status'', mq'', mem'') = Nullable.q m mq' msg mem' in
      after_q-Fine status (record s { mq = mq; mem = mem })
        (status'', record s { mq = mq''; mem = mem'' }) first (q-Queued mq' msg mem' short dropped)

  handle_read-Fine :
      (fd : ℤ) (received : Received) (s : Server Str Mem Net)
      → IsWithin max_message_length received
      → IsSound s.mq
      → Fine (handle_read m n fd received s)
  unfolding handle_read disconnect
  handle_read-Fine fd read_error s within v = unregister-IsSound s.mq fd s.mem v
  handle_read-Fine fd (got []) s within v = unregister-IsSound s.mq fd s.mem v
  handle_read-Fine fd (got (b ∷ bs)) s within v = handle_message-Fine (b ∷ bs) s within v

  pub handle_client_event-Fine :
      (event : Pollfd) (s : Server Str Mem Net)
      → ReadsWithin
      → IsSound s.mq
      → Fine (handle_client_event m n event s)
  unfolding handle_client_event disconnect
  handle_client_event-Fine event s law v =
      let (received, net) = n.read event.fd max_message_length s.net in
      let taken =
        handle_read-Fine event.fd received (record s { net = net })
          (law event.fd max_message_length s.net) v in
      let gone = unregister-IsSound s.mq event.fd s.mem v in
      elim (Bool-cases event.revents.pollin) [
        | inl readable ↦ rw readable taken
        | inr quiet ↦ elim (Bool-cases (event.revents.pollhup || event.revents.pollrdhup)) [
          | inl hung ↦ rw (quiet, hung) gone
          | inr alive ↦ rw (quiet, alive) v
        ]
      ]
