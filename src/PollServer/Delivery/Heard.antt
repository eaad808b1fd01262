-- ===== src/PollServer/Delivery/Heard.antt =====
-- The messages of the queue against what was read from the clients.
use sys_programming_explorat.Base.{
  ℕ, ◌≤◌, ◌≡◌, ◌≢◌, inl, inr, refl, sym, ap, ap₂, subst, ◌∙◌, List, [], ◌∷◌, ◌++◌, ◌||◌, map, Bool,
  Option, none, some, arith, length, length-map, ℤ, Bool-cases,
}
use mathlib.Core.List.{map-append}
use sys_programming_explorat.MessageQueue
use sys_programming_explorat.MessageQueue.Nullable
use sys_programming_explorat.MessageQueue.{
  MessageQueue, Memory, Status, done, mqerr_full, mqerr_message_too_long, mqerr_null_pointer,
  mqerr_alloc_fail, failed, max_message_length, q, first_offset,
}
use sys_programming_explorat.MessageQueue.Fifo.{q-waiting}
use sys_programming_explorat.MessageQueue.Window.{length-window}
use sys_programming_explorat.MessageQueue.Keeps.{q-capacity}
use sys_programming_explorat.MessageQueue.Validity.{waiting}
use sys_programming_explorat.Fds.{Pollfd, watch}
use sys_programming_explorat.PollServer.{
  Network, Received, got, read_error, Server, disconnect, after_q, handle_message, handle_read,
  handle_client_event, welcome, handle_server_event, max_num_of_clients,
}
use sys_programming_explorat.PollServer.Sound.{IsWithin, ReadsWithin}
use sys_programming_explorat.PollServer.Handlers.{IsFull}
use sys_programming_explorat.PollServer.Rounds.{ring, unregister_client-ring}
use sys_programming_explorat.PollServer.Delivery.{IsNetwork, DeliveredIn, posted, text_of}
use sys_programming_explorat.PollServer.Delivery.Handlers.{In-Same, q-ne-mqerr_full}

-- sdsnewlen does not fail, and keeps the bytes.
abbrev pub KeepsTexts : {Str Mem : Type 0} → Memory Str Mem → Type 0
KeepsTexts {Str} {Mem} m =
    (bs : List ℕ) (mem : Mem) → (s : Str) × ((m.sdsnewlen bs mem).0 ≡ some s) × (m.text s ≡ bs)

-- What was heard are the bytes that each read(2) has answered, the first ones first, but for reads
-- that answer none.
module _ {Net : Type 0} (heard : Net → List (List ℕ)) where
  abbrev pub Hears : Net → Received × Net → Type 0
  Hears net (read_error, net') = heard net' ≡ heard net
  Hears net (got [], net') = heard net' ≡ heard net
  Hears net (got (b ∷ bs), net') = heard net' ≡ heard net ++ ((b ∷ bs) ∷ [])

  pub record IsHearing (n : Network Net) : Type 0 where
    pub reads : (fd : ℤ) (size : ℕ) (net : Net) → Hears net (n.read fd size net)
    pub writes : (fd : ℤ) (bs : List ℕ) (net : Net) → heard (n.write fd bs net).1 ≡ heard net
    pub closes : (fd : ℤ) (net : Net) → heard (n.close fd net) ≡ heard net
    pub accepts : (fd : ℤ) (net : Net) → heard (n.accept fd net).1 ≡ heard net
    pub polls : (fds : List Pollfd) (net : Net) → heard (n.ppoll fds net).1 ≡ heard net

module _ {Str Mem : Type 0} (m : Memory Str Mem) where
  -- The queue, of the capacity that the server gives it, holds this log.
  abbrev pub Holds : List (List ℕ) → Option (MessageQueue Str) → Type 0
  Holds log none = Unit {0}
  Holds log (some mq) = (posted m mq ≡ log) × (mq.capacity ≡ max_num_of_clients)

  abbrev posted_of : Option (MessageQueue Str) → List (List ℕ)
  posted_of none = []
  posted_of (some mq) = posted m mq

  abbrev capacity_of : Option (MessageQueue Str) → ℕ
  capacity_of none = 0
  capacity_of (some mq) = mq.capacity

  pub Holds-ring :
      (log : List (List ℕ)) (o o' : Option (MessageQueue Str))
      → ring o' ≡ ring o
      → Holds log o
      → Holds log o'
  unfolding MessageQueue.get_length
  Holds-ring log o none same holds = tt
  Holds-ring log none (some mq') same holds = cc same
  Holds-ring log (some mq) (some mq') same (holds, size) =
      (ap posted_of same ∙ holds, ap capacity_of same ∙ size)

  -- A full queue has as many messages as it has room for.
  pub full-Holds :
      (log : List (List ℕ)) (o : Option (MessageQueue Str))
      → IsFull o
      → Holds log o
      → max_num_of_clients ≤ length log
  unfolding MessageQueue.get_length
  full-Holds log none full holds = absurd full
  full-Holds log (some mq) full (holds, size) =
      let all : MessageQueue.get_length mq ≡ mq.capacity = ground (arith, full) in
      omega (
        arith,
        ap length holds,
        size,
        length-map (text_of m) (waiting mq),
        length-window mq.messages mq.capacity (first_offset mq) (MessageQueue.get_length mq),
        all,
      )

module _ {Str Mem Net : Type 0} (m : Memory Str Mem) (n : Network Net)
    (handed : ℤ → Net → List (List ℕ)) (is_open : ℤ → Net → Bool) (law : IsNetwork handed is_open n)
    (heard : Net → List (List ℕ)) (hearing : IsHearing heard n) (texts : KeepsTexts m)
    (within : ReadsWithin m n) where
  abbrev In : Net → Option (MessageQueue Str) → Type 0
  In = DeliveredIn handed is_open m

  q-Holds :
      (net : Net) (log : List (List ℕ)) (o : Option (MessageQueue Str)) (msg : List ℕ) (mem : Mem)
      → length msg ≤ max_message_length
      → In net o
      → Holds m log o
      → Holds m (log ++ (msg ∷ [])) (Nullable.q m o msg mem).1
  unfolding Nullable.q
  q-Holds net log none msg mem short d holds = tt
  q-Holds net log (some mq) msg mem short d (holds, size) =
      let (s, new, text) = texts msg mem in
      let (taken, longer, valid, aligned) =
        q-waiting m mq msg mem (m.sdsnewlen msg mem).1 s d.valid d.aligned d.room short
          (ap (λ o. (o, (m.sdsnewlen msg mem).1)) new) in
      (
        ap (map (text_of m)) longer
            ∙ map-append (text_of m) (waiting mq) (some s ∷ [])
            ∙ ap₂ (λ l t. l ++ (t ∷ [])) holds text,
        q-capacity m mq msg mem ∙ size,
      )

  after_q_state :
      (status : Status) (s : Server Str Mem Net) (again : Status × Server Str Mem Net)
      → status ≢ mqerr_full
      → (after_q m n status s again).1 ≡ s
  unfolding after_q
  after_q_state mqerr_full s again room = absurd (room refl)
  after_q_state mqerr_null_pointer s again room = refl
  after_q_state mqerr_alloc_fail s again room = refl
  after_q_state mqerr_message_too_long s again room = refl
  after_q_state done s again room = refl
  after_q_state failed s again room = refl

  abbrev pub IsHeard : Server Str Mem Net → Type 0
  IsHeard s = Holds m (heard s.net) s.mq

  handle_message-IsHeard :
      (log : List (List ℕ)) (msg : List ℕ) (s : Server Str Mem Net)
      → length msg ≤ max_message_length
      → In s.net s.mq
      → Holds m log s.mq
      → heard s.net ≡ log ++ (msg ∷ [])
      → IsHeard (handle_message m n msg s).1
  unfolding handle_message
  handle_message-IsHeard log msg s short d holds more =
      let (status, mq, mem) = Nullable.q m s.mq msg s.mem in
      subst IsHeard
        (sym (
          after_q_state status (record s { mq = mq; mem = mem }) _
            (q-ne-mqerr_full m n handed is_open law s.net s.mq msg s.mem d)))
        (subst (λ l. Holds m l mq) (sym more) (q-Holds s.net log s.mq msg s.mem short d holds))

  disconnect-IsHeard :
      (log : List (List ℕ)) (fd : ℤ) (s : Server Str Mem Net)
      → Holds m log s.mq
      → heard s.net ≡ log
      → IsHeard (disconnect m n fd s)
  unfolding disconnect
  disconnect-IsHeard log fd s holds same =
      subst (λ l. Holds m l (disconnect m n fd s).mq) (sym (hearing.closes fd s.net ∙ same))
        (Holds-ring m log s.mq (disconnect m n fd s).mq (unregister_client-ring m n s.mq fd s.mem)
          holds)

  handle_read-IsHeard :
      (net : Net) (fd : ℤ) (received : Received) (s : Server Str Mem Net)
      → In s.net s.mq
      → Holds m (heard net) s.mq
      → IsWithin m n max_message_length received
      → Hears heard net (received, s.net)
      → IsHeard (handle_read m n fd received s).1
  unfolding handle_read
  handle_read-IsHeard net fd read_error s d holds short same =
      disconnect-IsHeard (heard net) fd s holds same
  handle_read-IsHeard net fd (got []) s d holds short same =
      disconnect-IsHeard (heard net) fd s holds same
  handle_read-IsHeard net fd (got (b ∷ bs)) s d holds short more =
      handle_message-IsHeard (heard net) (b ∷ bs) s short d holds more

  pub handle_client_event-IsHeard :
      (event : Pollfd) (s : Server Str Mem Net)
      → In s.net s.mq
      → IsHeard s
      → IsHeard (handle_client_event m n event s).1
  unfolding handle_client_event
  handle_client_event-IsHeard event s d holds =
      let (received, net) = n.read event.fd max_message_length s.net in
      let moved =
        handle_read-IsHeard s.net event.fd received (record s { net = net })
          (In-Same m n handed is_open law s.net net s.mq
            (law.reads event.fd max_message_length s.net) d)
          holds (within event.fd max_message_length s.net)
          (hearing.reads event.fd max_message_length s.net) in
      let gone = disconnect-IsHeard (heard s.net) event.fd s holds refl in
      elim (Bool-cases event.revents.pollin) [
        | inl readable ↦ rw readable moved
        | inr quiet ↦ elim (Bool-cases (event.revents.pollhup || event.revents.pollrdhup)) [
          | inl hangs_up ↦ rw (quiet, hangs_up) gone
          | inr idle ↦ rw (quiet, idle) holds
        ]
      ]

  welcome-net : (fd : ℤ) (s : Server Str Mem Net) → (welcome m n fd s).1.net ≡ s.net
  unfolding welcome
  welcome-net fd s = elim (Bool-cases (watch s.fdstate fd).0) [
    | inl watched ↦ rw watched refl
    | inr refused ↦ rw refused refl
  ]

  pub heard-handle_server_event :
      (event : Pollfd) (s : Server Str Mem Net)
      → heard (handle_server_event m n event s).1.net ≡ heard s.net
  unfolding handle_server_event
  heard-handle_server_event event s =
      let (client_fd, net) = n.accept event.fd s.net in
      let joined =
        ap heard (welcome-net client_fd (record s { net = net }))
        ∙ hearing.accepts event.fd s.net in
      elim (Bool-cases (event.revents.pollerr || event.revents.pollnval)) [
        | inl broken ↦ rw broken refl
        | inr sound ↦ elim (Bool-cases event.revents.pollin) [
          | inl readable ↦ rw (sound, readable) joined
          | inr quiet ↦ rw (sound, quiet) refl
        ]
      ]
