-- ===== src/PollServer/Endless.antt =====
-- The rounds of a server that has started, and whether one comes to an err_exit. Signals are not
-- modelled.
use sys_programming_explorat.Base.{
  Bool, ◌≡◌, subst, ℕ, zero, suc, ◌+◌, List, [], ◌∷◌, ◌||◌, Option, none, some, length, ℤ,
  Bool-cases, get_elem?, drop, inl, inr,
}
use sys_programming_explorat.MessageQueue
use sys_programming_explorat.MessageQueue.Nullable
use sys_programming_explorat.MessageQueue.{
  MessageQueue, Memory, Status, done, mqerr_full, mqerr_message_too_long, mqerr_null_pointer,
  mqerr_alloc_fail, failed,
}
use sys_programming_explorat.MessageQueue.Ring.{IsSound, init-IsSound}
use sys_programming_explorat.MessageQueue.FlushEnds.{Flushed, flush-Flushed}
use sys_programming_explorat.Fds.{Pollfd, watch}
use sys_programming_explorat.PollServer.{
  Network, Code, zero_code, minus_1, minus_2, minus_3, minus_55, exits, max_num_of_clients, Server,
  Round, continues, stops, exited, handle_client_event, welcome, handle_server_event, client_events,
  unless_exits, unless_minus_1, flush_all, round_clients, round_events, round, start, serve,
}
use sys_programming_explorat.PollServer.Ready.{start-IsReady}
use sys_programming_explorat.PollServer.Sound.{
  ReadsWithin, Fine, register-IsSound, handle_client_event-Fine,
}

module _ {Str Mem Net : Type 0} (m : Memory Str Mem) (n : Network Net) where
  -- It goes on, or the loop has stopped; the queue is sound.
  abbrev pub Runs : Round Str Mem Net → Type 0
  Runs (continues s) = IsSound s.mq
  Runs (stops s) = IsSound s.mq
  Runs exited = ⊥

  abbrev GoesOn : Option (Server Str Mem Net) → Type 0
  GoesOn none = ⊥
  GoesOn (some s) = IsSound s.mq

  welcome-IsSound :
      (fd : ℤ) (s : Server Str Mem Net) → IsSound s.mq → IsSound (welcome m n fd s).1.mq
  unfolding welcome
  welcome-IsSound fd s v = elim (Bool-cases (watch s.fdstate fd).0) [
    | inl watched ↦ rw watched (register-IsSound m n s.mq fd s.mem v)
    | inr refused ↦ rw refused v
  ]

  server_event-IsSound :
      (event : Pollfd) (s : Server Str Mem Net)
      → IsSound s.mq
      → IsSound (handle_server_event m n event s).1.mq
  unfolding handle_server_event
  server_event-IsSound event s v =
      let (client_fd, net) = n.accept event.fd s.net in
      let joined = welcome-IsSound client_fd (record s { net = net }) v in
      elim (Bool-cases (event.revents.pollerr || event.revents.pollnval)) [
        | inl broken ↦ rw broken v
        | inr sound ↦ elim (Bool-cases event.revents.pollin) [
          | inl readable ↦ rw (sound, readable) joined
          | inr quiet ↦ rw (sound, quiet) v
        ]
      ]

  unless_exits-GoesOn :
      (code : Code) (s : Server Str Mem Net) (rest : Option (Server Str Mem Net))
      → Fine m n (code, s)
      → (IsSound s.mq → GoesOn rest)
      → GoesOn (unless_exits m n code rest)
  unfolding unless_exits
  unless_exits-GoesOn exits s rest v k = absurd v
  unless_exits-GoesOn zero_code s rest v k = k v
  unless_exits-GoesOn minus_1 s rest v k = k v
  unless_exits-GoesOn minus_2 s rest v k = k v
  unless_exits-GoesOn minus_3 s rest v k = k v
  unless_exits-GoesOn minus_55 s rest v k = k v

  client_events-GoesOn :
      (fuel i : ℕ) (s : Server Str Mem Net)
      → ReadsWithin m n
      → IsSound s.mq
      → GoesOn (client_events m n fuel i s)
  unfolding client_events
  client_events-GoesOn zero i s law v = v
  client_events-GoesOn (suc fuel) i s law v =
      elim (get_elem? s.fdstate.fds i)
        as (λ o. GoesOn (elim o [
          | none ↦ some s
          | some event ↦
              let (code, s') = handle_client_event m n event s in
              unless_exits m n code (client_events m n fuel (i + 1) s')
        ])) [
          | none ↦ v
          | some event ↦
              let (code, s') = handle_client_event m n event s in
              unless_exits-GoesOn code s' (client_events m n fuel (i + 1) s')
                (handle_client_event-Fine m n event s law v)
                (λ v'. client_events-GoesOn fuel (i + 1) s' law v')
        ]

  -- A flush of a queue that may be NULL.
  abbrev Sent : Option (Status × Option (MessageQueue Str) × Net) → Type 0
  Sent none = ⊥
  Sent (some (status, o, net)) = IsSound o

  put_back-Sent :
      (r : Option (Status × MessageQueue Str × Net))
      → Flushed m n.write r
      → Sent (elim r [ none ↦ none | some (status, mq', net') ↦ some (status, some mq', net') ])
  put_back-Sent none v = absurd v
  put_back-Sent (some (status, mq, net)) v = v

  flush-Sent :
      (o : Option (MessageQueue Str)) (fd : ℤ) (net : Net)
      → IsSound o
      → Sent (Nullable.flush m n.write o fd net)
  unfolding Nullable.flush
  flush-Sent none fd net v = tt
  flush-Sent (some mq) fd net v =
      put_back-Sent (MessageQueue.flush m n.write mq fd net) (flush-Flushed m n.write mq fd net v)

  flush-GoesOn :
      (s : Server Str Mem Net) (r : Option (Status × Option (MessageQueue Str) × Net))
      (rest : Server Str Mem Net → Option (Server Str Mem Net))
      → Sent r
      → ((s' : Server Str Mem Net) → IsSound s'.mq → GoesOn (rest s'))
      → GoesOn
          (elim r [ none ↦ none | some (status, mq, net) ↦ rest (record s { mq = mq; net = net }) ])
  flush-GoesOn s none rest v k = absurd v
  flush-GoesOn s (some (status, mq, net)) rest v k = k (record s { mq = mq; net = net }) v

  flush_all-GoesOn :
      (ps : List Pollfd) (s : Server Str Mem Net) → IsSound s.mq → GoesOn (flush_all m n ps s)
  unfolding flush_all
  flush_all-GoesOn [] s v = v
  flush_all-GoesOn (p ∷ ps) s v =
      flush-GoesOn s (Nullable.flush m n.write s.mq p.fd s.net) (flush_all m n ps)
        (flush-Sent s.mq p.fd s.net v) (flush_all-GoesOn ps)

  continues-Runs :
      (r : Option (Server Str Mem Net))
      → GoesOn r
      → Runs (elim r [ none ↦ exited | some s'' ↦ continues s'' ])
  continues-Runs none v = absurd v
  continues-Runs (some s) v = v

  flush_all-Runs :
      (r : Option (Server Str Mem Net))
      → GoesOn r
      → Runs (elim r [
        | none ↦ exited
        | some s' ↦ elim (flush_all m n (drop 1 s'.fdstate.fds) s') [
          | none ↦ exited
          | some s'' ↦ continues s''
        ]
      ])
  flush_all-Runs none v = absurd v
  flush_all-Runs (some s) v =
      continues-Runs (flush_all m n (drop 1 s.fdstate.fds) s)
        (flush_all-GoesOn (drop 1 s.fdstate.fds) s v)

  round_clients-Runs :
      (s : Server Str Mem Net) → ReadsWithin m n → IsSound s.mq → Runs (round_clients m n s)
  unfolding round_clients
  round_clients-Runs s law v =
      flush_all-Runs (client_events m n (length s.fdstate.fds) 1 s)
        (client_events-GoesOn (length s.fdstate.fds) 1 s law v)

  unless_minus_1-Runs :
      (code : Code) (s : Server Str Mem Net) (rest : Round Str Mem Net)
      → IsSound s.mq
      → Runs rest
      → Runs (unless_minus_1 m n code s rest)
  unfolding unless_minus_1
  unless_minus_1-Runs minus_1 s rest v k = v
  unless_minus_1-Runs exits s rest v k = k
  unless_minus_1-Runs zero_code s rest v k = k
  unless_minus_1-Runs minus_2 s rest v k = k
  unless_minus_1-Runs minus_3 s rest v k = k
  unless_minus_1-Runs minus_55 s rest v k = k

  round_events-Runs :
      (events : List Pollfd) (s : Server Str Mem Net)
      → ReadsWithin m n
      → IsSound s.mq
      → Runs (round_events m n events s)
  unfolding round_events
  round_events-Runs [] s law v = v
  round_events-Runs (event ∷ events) s law v =
      let (code, s') = handle_server_event m n event s in
      let joined = server_event-IsSound event s v in
      unless_minus_1-Runs code s' (round_clients m n s') joined (round_clients-Runs s' law joined)

  round-Runs : (s : Server Str Mem Net) → ReadsWithin m n → IsSound s.mq → Runs (round m n s)
  unfolding round
  round-Runs s law v =
      let (polled, net) = n.ppoll s.fdstate.fds s.net in
      elim polled
        as (λ o. Runs (elim o [
          | none ↦ stops (record s { net = net })
          | some fds ↦
              round_events m n fds
                (record s { fdstate = record s.fdstate { fds = fds }; net = net })
        ])) [
          | none ↦ v
          | some fds ↦
              round_events-Runs fds
                (record s { fdstate = record s.fdstate { fds = fds }; net = net }) law v
        ]

  rounds-Runs :
      (r : Round Str Mem Net) (rest : Server Str Mem Net → Round Str Mem Net)
      → Runs r
      → ((s : Server Str Mem Net) → IsSound s.mq → Runs (rest s))
      → Runs (elim r [ continues s' ↦ rest s' | stops s' ↦ stops s' | exited ↦ exited ])
  rounds-Runs (continues s) rest v k = k s v
  rounds-Runs (stops s) rest v k = v
  rounds-Runs exited rest v k = absurd v

  serve-Runs :
      (rounds : ℕ) (s : Server Str Mem Net)
      → ReadsWithin m n
      → IsSound s.mq
      → Runs (serve m n rounds s)
  unfolding serve
  serve-Runs zero s law v = v
  serve-Runs (suc rounds) s law v =
      rounds-Runs (round m n s) (serve m n rounds) (round-Runs s law v)
        (λ s' v'. serve-Runs rounds s' law v')

  -- Where fds_state__init was granted its blocks and read(2) answers no more bytes than it is asked
  -- for, whatever else the network and the memory answer: behind any number of rounds the server
  -- has not ended its process, as long as no signal ends it (SIGPIPE, at a write to a peer that is
  -- gone, has to be ignored). No message is too long for the queue, every flush comes to its end
  -- within the rounds that the capacity gives it, and `start`, `end` and the offsets of all clients
  -- stay in the ring.
  pub serve-start-Runs :
      (rounds : ℕ) (server_fd : ℤ) (mem : Mem) (net : Net) (watched : Bool) (s : Server Str Mem Net)
      → ReadsWithin m n
      → start m n server_fd mem net ≡ some (watched, s)
      → Runs (serve m n rounds s)
  serve-start-Runs rounds server_fd mem net watched s law started =
      let (ready, _) = start-IsReady m n server_fd mem net watched s started in
      serve-Runs rounds s law (subst IsSound ready.mq (init-IsSound m max_num_of_clients mem))
