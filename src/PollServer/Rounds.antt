-- ===== src/PollServer/Rounds.antt =====
-- What whole rounds of the server's loop do to the queue, once it is full.
use sys_programming_explorat.Base.{
  ℕ, zero, suc, ◌+◌, ◌≡◌, ◌⊎◌, refl, ap, subst, ◌∙◌, List, [], ◌∷◌, ◌||◌, Option, none, some, arith,
  length, ℤ, Bool-cases, Option-cases, get_elem?, drop, inl, inr,
}
use sys_programming_explorat.MessageQueue
use sys_programming_explorat.MessageQueue.Nullable
use sys_programming_explorat.MessageQueue.{
  MessageQueue, Memory, Writer, Status, mqerr_full, max_message_length,
}
use sys_programming_explorat.Fds.{Pollfd, watch}
use sys_programming_explorat.PollServer.{
  Received, got, read_error, Network, Code, zero_code, minus_1, minus_2, minus_3, minus_55, exits,
  Server, Round, continues, stops, exited, disconnect, handle_message, handle_read,
  handle_client_event, welcome, handle_server_event, client_events, unless_exits, unless_minus_1,
  flush_all, round_clients, round_events, round, serve,
}
use sys_programming_explorat.PollServer.Handlers.{IsFull, handle_message-IsFull}

-- The queue without its clients: capacity, messages, `start` and `end`.
abbrev pub ring : {Str : Type 0} → Option (MessageQueue Str) → Option (MessageQueue Str)
ring none = none
ring (some mq) = some (record mq { clients = [] })

module _ {Str Mem Net : Type 0} (m : Memory Str Mem) (n : Network Net) where
  pub IsFull-ring : (o o' : Option (MessageQueue Str)) → ring o' ≡ ring o → IsFull o → IsFull o'
  IsFull-ring none o' e full = absurd full
  IsFull-ring (some mq) none e full = cc e
  IsFull-ring (some mq) (some mq') e full = grind (arith, e)

  pub unregister_client-ring :
      (o : Option (MessageQueue Str)) (fd : ℤ) (mem : Mem)
      → ring (Nullable.unregister_client m o fd mem).1 ≡ ring o
  unfolding Nullable.unregister_client MessageQueue.unregister_client
  unregister_client-ring none fd mem = refl
  unregister_client-ring (some mq) fd mem = ground arith

  register_client-ring :
      (o : Option (MessageQueue Str)) (fd : ℤ) (mem : Mem)
      → ring (Nullable.register_client m o fd mem).1 ≡ ring o
  unfolding Nullable.register_client MessageQueue.register_client
  register_client-ring none fd mem = refl
  register_client-ring (some mq) fd mem = ground arith

  drop_slow_consumers_same :
      (o : Option (MessageQueue Str)) (mem : Mem)
      → ring (Nullable.drop_slow_consumers m o mem).0 ≡ ring o
  unfolding Nullable.drop_slow_consumers MessageQueue.drop_slow_consumers
  drop_slow_consumers_same none mem = refl
  drop_slow_consumers_same (some mq) mem = ground arith

  pub flush-ring :
      (o o' : Option (MessageQueue Str)) (fd : ℤ) (net net' : Net) (status : Status)
      → Nullable.flush m n.write o fd net ≡ some (status, o', net')
      → ring o' ≡ ring o
  unfolding Nullable.flush MessageQueue.flush
  flush-ring none o' fd net net' status e = grind (arith, e)
  flush-ring (some mq) o' fd net net' status e = ground (arith, e)

  ring-handle_read :
      (fd : ℤ) (received : Received) (s : Server Str Mem Net)
      → IsFull s.mq
      → ring (handle_read m n fd received s).1.mq ≡ ring s.mq
  unfolding handle_read disconnect
  ring-handle_read fd read_error s full = unregister_client-ring s.mq fd s.mem
  ring-handle_read fd (got []) s full = unregister_client-ring s.mq fd s.mem
  ring-handle_read fd (got (b ∷ bs)) s full =
      ap (λ r. ring r.1.mq) (handle_message-IsFull m n (b ∷ bs) s full)
      ∙ drop_slow_consumers_same s.mq s.mem

  pub ring-handle_client_event :
      (event : Pollfd) (s : Server Str Mem Net)
      → IsFull s.mq
      → ring (handle_client_event m n event s).1.mq ≡ ring s.mq
  unfolding handle_client_event disconnect
  ring-handle_client_event event s full =
      let (received, net) = n.read event.fd max_message_length s.net in
      let taken = ring-handle_read event.fd received (record s { net = net }) full in
      let gone = unregister_client-ring s.mq event.fd s.mem in
      elim (Bool-cases event.revents.pollin) [
        | inl readable ↦ rw readable taken
        | inr quiet ↦ elim (Bool-cases (event.revents.pollhup || event.revents.pollrdhup)) [
          | inl hung ↦ rw (quiet, hung) gone
          | inr alive ↦ rw (quiet, alive) refl
        ]
      ]

  ring-welcome : (fd : ℤ) (s : Server Str Mem Net) → ring (welcome m n fd s).1.mq ≡ ring s.mq
  unfolding welcome
  ring-welcome fd s = elim (Bool-cases (watch s.fdstate fd).0) [
    | inl watched ↦ rw watched (register_client-ring s.mq fd s.mem)
    | inr refused ↦ rw refused refl
  ]

  pub ring-handle_server_event :
      (event : Pollfd) (s : Server Str Mem Net)
      → ring (handle_server_event m n event s).1.mq ≡ ring s.mq
  unfolding handle_server_event
  ring-handle_server_event event s =
      let (client_fd, net) = n.accept event.fd s.net in
      let joined = ring-welcome client_fd (record s { net = net }) in
      elim (Bool-cases (event.revents.pollerr || event.revents.pollnval)) [
        | inl broken ↦ rw broken refl
        | inr sound ↦ elim (Bool-cases event.revents.pollin) [
          | inl readable ↦ rw (sound, readable) joined
          | inr quiet ↦ rw (sound, quiet) refl
        ]
      ]

  pub unless_exits-some :
      (code : Code) (rest : Option (Server Str Mem Net)) (s : Server Str Mem Net)
      → unless_exits m n code rest ≡ some s
      → rest ≡ some s
  unfolding unless_exits
  unless_exits-some exits rest s e = cc e
  unless_exits-some zero_code rest s e = e
  unless_exits-some minus_1 rest s e = e
  unless_exits-some minus_2 rest s e = e
  unless_exits-some minus_3 rest s e = e
  unless_exits-some minus_55 rest s e = e

  client_events-ring :
      (fuel i : ℕ) (s s' : Server Str Mem Net)
      → IsFull s.mq
      → client_events m n fuel i s ≡ some s'
      → ring s'.mq ≡ ring s.mq
  unfolding client_events
  client_events-ring zero i s s' full run = grind (arith, run)
  client_events-ring (suc fuel) i s s' full run = elim (Option-cases (get_elem? s.fdstate.fds i)) [
    | inl out ↦ grind (arith, run, out)
    | inr (event, at) ↦
        let (code, t) = handle_client_event m n event s in
        let kept = ring-handle_client_event event s full in
        let rest : unless_exits m n code (client_events m n fuel (i + 1) t) ≡ some s' =
          ground (arith, run, at) in
        client_events-ring fuel (i + 1) t s' (IsFull-ring s.mq t.mq kept full)
          (unless_exits-some code _ s' rest)
        ∙ kept
  ]

  pub flush_all-ring :
      (ps : List Pollfd) (s s' : Server Str Mem Net)
      → flush_all m n ps s ≡ some s'
      → ring s'.mq ≡ ring s.mq
  unfolding flush_all
  flush_all-ring [] s s' run = grind (arith, run)
  flush_all-ring (p ∷ ps) s s' run =
      elim (Option-cases (Nullable.flush m n.write s.mq p.fd s.net)) [
        | inl out ↦ grind (arith, run, out)
        | inr ((status, mq, net), at) ↦
            let rest : flush_all m n ps (record s { mq = mq; net = net }) ≡ some s' =
              ground (arith, run, at) in
            flush_all-ring ps (record s { mq = mq; net = net }) s' rest
            ∙ flush-ring s.mq mq p.fd s.net net status at
      ]

  pub unless_minus_1_continues :
      (code : Code) (s s' : Server Str Mem Net) (rest : Round Str Mem Net)
      → unless_minus_1 m n code s rest ≡ continues s'
      → rest ≡ continues s'
  unfolding unless_minus_1
  unless_minus_1_continues minus_1 s s' rest e = cc e
  unless_minus_1_continues zero_code s s' rest e = e
  unless_minus_1_continues minus_2 s s' rest e = e
  unless_minus_1_continues minus_3 s s' rest e = e
  unless_minus_1_continues minus_55 s s' rest e = e
  unless_minus_1_continues exits s s' rest e = e

  round_clients-ring :
      (s s' : Server Str Mem Net)
      → IsFull s.mq
      → round_clients m n s ≡ continues s'
      → ring s'.mq ≡ ring s.mq
  unfolding round_clients
  round_clients-ring s s' full run =
      elim (Option-cases (client_events m n (length s.fdstate.fds) 1 s)) [
        | inl out ↦ ground (arith, run, out)
        | inr (t, at) ↦ elim (Option-cases (flush_all m n (drop 1 t.fdstate.fds) t)) [
          | inl out ↦ ground (arith, run, at, out)
          | inr (u, sent) ↦
              let last : u ≡ s' = ground (arith, run, at, sent) in
              subst (λ v. ring v.mq ≡ ring s.mq) last
                (flush_all-ring (drop 1 t.fdstate.fds) t u sent
                  ∙ client_events-ring (length s.fdstate.fds) 1 s t full at)
        ]
      ]

  round_events-ring :
      (events : List Pollfd) (s s' : Server Str Mem Net)
      → IsFull s.mq
      → round_events m n events s ≡ continues s'
      → ring s'.mq ≡ ring s.mq
  unfolding round_events
  round_events-ring [] s s' full run = cc run
  round_events-ring (event ∷ events) s s' full run =
      let (code, t) = handle_server_event m n event s in
      let joined = ring-handle_server_event event s in
      round_clients-ring t s' (IsFull-ring s.mq t.mq joined full)
        (unless_minus_1_continues code t s' (round_clients m n t) run)
      ∙ joined

  round-ring :
      (s s' : Server Str Mem Net)
      → IsFull s.mq
      → round m n s ≡ continues s'
      → ring s'.mq ≡ ring s.mq
  unfolding round
  round-ring s s' full run = elim (Option-cases (n.ppoll s.fdstate.fds s.net).0) [
    | inl out ↦ ground (arith, run, out)
    | inr (fds, at) ↦
        round_events-ring fds
          (record s {
            fdstate = record s.fdstate { fds = fds };
            net = (n.ppoll s.fdstate.fds s.net).1;
          })
          s' full (ground (arith, run, at))
  ]

  pub Round-cases :
      (r : Round Str Mem Net)
      → ((t : Server Str Mem Net) × (r ≡ continues t))
        ⊎ ((t : Server Str Mem Net) × (r ≡ stops t))
        ⊎ (r ≡ exited)
  Round-cases (continues t) = inl (t, refl)
  Round-cases (stops t) = inr (inl (t, refl))
  Round-cases exited = inr (inr refl)

  -- Once the queue is full it stays so: behind however many rounds the server goes on for, whatever
  -- its clients, the network and the memory do, the messages of the queue, its `start` and its
  -- `end` are the same, and any further message is answered -55.
  pub serve-IsFull :
      (rounds : ℕ) (s s' : Server Str Mem Net) (msg : List ℕ)
      → IsFull s.mq
      → serve m n rounds s ≡ continues s'
      → (ring s'.mq ≡ ring s.mq) × IsFull s'.mq × ((handle_message m n msg s').0 ≡ minus_55)
  unfolding serve
  serve-IsFull zero s s' msg full run =
      let same : s ≡ s' = grind (arith, run) in
      subst (λ v. (ring v.mq ≡ ring s.mq) × IsFull v.mq × ((handle_message m n msg v).0 ≡ minus_55))
        same (refl, full, ap (λ r. r.0) (handle_message-IsFull m n msg s full))
  serve-IsFull (suc rounds) s s' msg full run = elim (Round-cases (round m n s)) [
    | inl (t, at) ↦
        let kept = round-ring s t full at in
        let (later, still, answer) =
          serve-IsFull rounds t s' msg (IsFull-ring s.mq t.mq kept full)
            (ground (arith, run, at)) in
        (later ∙ kept, still, answer)
    | inr (inl (t, at)) ↦ ground (arith, run, at)
    | inr (inr at) ↦ ground (arith, run, at)
  ]
