-- ===== src/PollServer/Delivery/Handlers.antt =====
-- The handlers and what the clients have been sent.
use sys_programming_explorat.Base.{
  ℕ, ◌≡◌, ◌≢◌, ◌⊎◌, inl, inr, refl, List, [], ◌∷◌, ◌||◌, Bool, true, Option, none, some, ℤ,
  Bool-cases,
}
use sys_programming_explorat.MessageQueue.Nullable
use sys_programming_explorat.MessageQueue.{
  MessageQueue, Memory, Status, done, mqerr_full, mqerr_message_too_long, mqerr_null_pointer,
  mqerr_alloc_fail, failed, max_message_length,
}
use sys_programming_explorat.MessageQueue.Fifo.{q-mqerr_full}
use sys_programming_explorat.MessageQueue.Flush.{NoClient}
use sys_programming_explorat.Fds.{Pollfd, watch}
use sys_programming_explorat.PollServer.{
  Network, Received, got, read_error, Server, disconnect, after_q, handle_message, handle_read,
  handle_client_event, welcome, handle_server_event,
}
use sys_programming_explorat.PollServer.Handlers.{IsFull}
use sys_programming_explorat.PollServer.Rounds.{
  IsFull-ring, ring-handle_client_event, ring-handle_server_event,
}
use sys_programming_explorat.PollServer.Delivery.{
  Same, SameBut, Accepts, IsNetwork, Delivered, DeliveredIn, IsGood,
}
use sys_programming_explorat.PollServer.Delivery.Queue.{
  Delivered-Same, Delivered-accept, Delivered-register_client, Delivered-unregister_client,
  q-Delivered,
}

module _ {Str Mem Net : Type 0} (m : Memory Str Mem) (n : Network Net)
    (handed : ℤ → Net → List (List ℕ)) (is_open : ℤ → Net → Bool)
    (law : IsNetwork handed is_open n) where
  abbrev In : Net → Option (MessageQueue Str) → Type 0
  In = DeliveredIn handed is_open m

  abbrev Good : Server Str Mem Net → Type 0
  Good = IsGood handed is_open m

  pub In-Same :
      (net net' : Net) (o : Option (MessageQueue Str))
      → Same handed is_open net net'
      → In net o
      → In net' o
  In-Same net net' none same d = tt
  In-Same net net' (some mq) same d = Delivered-Same m handed is_open net net' mq same d

  In-unregister_client :
      (net net' : Net) (o : Option (MessageQueue Str)) (fd : ℤ) (mem : Mem)
      → SameBut handed is_open fd net net'
      → In net o
      → In net' (Nullable.unregister_client m o fd mem).1
  unfolding Nullable.unregister_client
  In-unregister_client net net' none fd mem but d = tt
  In-unregister_client net net' (some mq) fd mem but d =
      Delivered-unregister_client m handed is_open net net' mq fd mem but d

  In-q :
      (net : Net) (o : Option (MessageQueue Str)) (msg : List ℕ) (mem : Mem)
      → In net o
      → let o' = (Nullable.q m o msg mem).1 in IsFull o' ⊎ In net o'
  unfolding Nullable.q
  In-q net none msg mem d = inr tt
  In-q net (some mq) msg mem d = q-Delivered m handed is_open net mq msg mem d

  pub q-ne-mqerr_full :
      (net : Net) (o : Option (MessageQueue Str)) (msg : List ℕ) (mem : Mem)
      → In net o
      → (Nullable.q m o msg mem).0 ≢ mqerr_full
  unfolding Nullable.q
  q-ne-mqerr_full net none msg mem d e = cc e
  q-ne-mqerr_full net (some mq) msg mem d e = d.room (q-mqerr_full m mq msg mem e)

  after_q-IsGood :
      (status : Status) (s : Server Str Mem Net) (again : Status × Server Str Mem Net)
      → status ≢ mqerr_full
      → Good s
      → Good (after_q m n status s again).1
  unfolding after_q
  after_q-IsGood mqerr_full s again room good = absurd (room refl)
  after_q-IsGood mqerr_null_pointer s again room good = good
  after_q-IsGood mqerr_alloc_fail s again room good = good
  after_q-IsGood mqerr_message_too_long s again room good = good
  after_q-IsGood done s again room good = good
  after_q-IsGood failed s again room good = good

  handle_message-IsGood :
      (msg : List ℕ) (s : Server Str Mem Net) → In s.net s.mq → Good (handle_message m n msg s).1
  unfolding handle_message
  handle_message-IsGood msg s d =
      let (status, mq, mem) = Nullable.q m s.mq msg s.mem in
      after_q-IsGood status (record s { mq = mq; mem = mem }) _
        (q-ne-mqerr_full s.net s.mq msg s.mem d) (In-q s.net s.mq msg s.mem d)

  disconnect-IsGood : (fd : ℤ) (s : Server Str Mem Net) → In s.net s.mq → Good (disconnect m n fd s)
  unfolding disconnect
  disconnect-IsGood fd s d =
      inr (In-unregister_client s.net (n.close fd s.net) s.mq fd s.mem (law.closes fd s.net) d)

  handle_read-IsGood :
      (fd : ℤ) (received : Received) (s : Server Str Mem Net)
      → In s.net s.mq
      → Good (handle_read m n fd received s).1
  unfolding handle_read
  handle_read-IsGood fd read_error s d = disconnect-IsGood fd s d
  handle_read-IsGood fd (got []) s d = disconnect-IsGood fd s d
  handle_read-IsGood fd (got (b ∷ bs)) s d = handle_message-IsGood (b ∷ bs) s d

  pub handle_client_event-IsGood :
      (event : Pollfd) (s : Server Str Mem Net) → Good s → Good (handle_client_event m n event s).1
  unfolding handle_client_event
  handle_client_event-IsGood event s (inl full) = inl (
      IsFull-ring m n s.mq (handle_client_event m n event s).1.mq
        (ring-handle_client_event m n event s full) full)
  handle_client_event-IsGood event s (inr d) =
      let (received, net) = n.read event.fd max_message_length s.net in
      let kept = In-Same s.net net s.mq (law.reads event.fd max_message_length s.net) d in
      let taken = handle_read-IsGood event.fd received (record s { net = net }) kept in
      let gone = disconnect-IsGood event.fd s d in
      elim (Bool-cases event.revents.pollin) [
        | inl readable ↦ rw readable taken
        | inr quiet ↦ elim (Bool-cases (event.revents.pollhup || event.revents.pollrdhup)) [
          | inl hung ↦ rw (quiet, hung) gone
          | inr alive ↦ rw (quiet, alive) (inr d)
        ]
      ]

  -- The descriptor of a new connection has no client yet.
  abbrev Joins : ℤ → Net → Option (MessageQueue Str) → Type 0
  Joins fd net none = Unit {0}
  Joins fd net (some mq) =
      Delivered handed is_open m net mq
      × NoClient fd mq.clients
      × (is_open fd net ≡ true)
      × (handed fd net ≡ [])

  accept-Joins :
      (net : Net) (answer : ℤ × Net) (o : Option (MessageQueue Str))
      → Accepts handed is_open net answer
      → In net o
      → Joins answer.0 answer.1 o
  accept-Joins net answer none new d = tt
  accept-Joins net answer (some mq) new d =
      let (kept, apart) = Delivered-accept m handed is_open net answer mq new d in
      (kept, apart, new.1, new.2)

  Joins-In : (fd : ℤ) (net : Net) (o : Option (MessageQueue Str)) → Joins fd net o → In net o
  Joins-In fd net none j = tt
  Joins-In fd net (some mq) j = j.0

  In-register_client :
      (fd : ℤ) (net : Net) (o : Option (MessageQueue Str)) (mem : Mem)
      → Joins fd net o
      → In net (Nullable.register_client m o fd mem).1
  unfolding Nullable.register_client
  In-register_client fd net none mem j = tt
  In-register_client fd net (some mq) mem (d, apart, up, nothing) =
      Delivered-register_client m handed is_open net mq fd mem d apart up nothing

  welcome-In :
      (fd : ℤ) (s : Server Str Mem Net)
      → Joins fd s.net s.mq
      → In (welcome m n fd s).1.net (welcome m n fd s).1.mq
  unfolding welcome
  welcome-In fd s j = elim (Bool-cases (watch s.fdstate fd).0) [
    | inl watched ↦ rw watched (In-register_client fd s.net s.mq s.mem j)
    | inr refused ↦ rw refused (Joins-In fd s.net s.mq j)
  ]

  pub handle_server_event-IsGood :
      (event : Pollfd) (s : Server Str Mem Net) → Good s → Good (handle_server_event m n event s).1
  unfolding handle_server_event
  handle_server_event-IsGood event s (inl full) = inl (
      IsFull-ring m n s.mq (handle_server_event m n event s).1.mq
        (ring-handle_server_event m n event s) full)
  handle_server_event-IsGood event s (inr d) =
      let (client_fd, net) = n.accept event.fd s.net in
      let joined =
        welcome-In client_fd (record s { net = net })
          (accept-Joins s.net (client_fd, net) s.mq (law.accepts event.fd s.net) d) in
      elim (Bool-cases (event.revents.pollerr || event.revents.pollnval)) [
        | inl broken ↦ rw broken (inr d)
        | inr sound ↦ elim (Bool-cases event.revents.pollin) [
          | inl readable ↦ rw (sound, readable) (inr joined)
          | inr quiet ↦ rw (sound, quiet) (inr d)
        ]
      ]
