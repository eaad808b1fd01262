-- ===== src/PollServer/Table/Progress.antt =====
-- Whether the loop of a server that has started goes on. Signals are not modelled.
use sys_programming_explorat.Base.{
  ℕ, zero, suc, ◌≡◌, ◌≢◌, inl, inr, refl, ap, subst, ◌∙◌, List, [], ◌∷◌, ◌||◌, Bool, true, false,
  Option, none, some, arith, length, ℤ, drop, Bool-cases, Option-cases,
}
use sys_programming_explorat.MessageQueue.Nullable
use sys_programming_explorat.MessageQueue.{
  Memory, Status, done, mqerr_full, mqerr_message_too_long, mqerr_null_pointer, mqerr_alloc_fail,
  failed,
}
use sys_programming_explorat.Fds.{Pollfd, watch}
use sys_programming_explorat.Fds.Watch.{fds_of}
use sys_programming_explorat.PollServer.{
  Network, Code, zero_code, minus_1, minus_2, minus_3, minus_55, exits, Server, Round, continues,
  stops, exited, welcome, handle_server_event, client_events, flush_all, unless_minus_1,
  round_clients, round_events, round, start, serve,
}
use sys_programming_explorat.PollServer.Ready.{start-IsReady}
use sys_programming_explorat.PollServer.Sound.{ReadsWithin}
use sys_programming_explorat.PollServer.Endless.{Runs, serve-start-Runs}
use sys_programming_explorat.PollServer.Rounds.{Round-cases}
use sys_programming_explorat.PollServer.Delivery.{IsNetwork}
use sys_programming_explorat.PollServer.Table.Handlers.{TableIn}
use sys_programming_explorat.PollServer.Table.Rounds.{serve-TableIn}
use sys_programming_explorat.PollServer.Table.Start.{start-TableIn}

-- ppoll(2) does not fail, and reports no error of the first descriptor.
abbrev pub IsQuiet : Option (List Pollfd) → Type 0
IsQuiet none = ⊥
IsQuiet (some []) = Unit {0}
IsQuiet (some (p ∷ ps)) = (p.revents.pollerr || p.revents.pollnval) ≡ false

abbrev pub PollsQuietly : {Net : Type 0} → Network Net → Type 0
PollsQuietly {Net} n = (fds : List Pollfd) (net : Net) → IsQuiet (n.ppoll fds net).0

abbrev joined_code : Status → Option Code
joined_code status = elim status [ failed ↦ some minus_3 | _ ↦ none ]

joined-ne : (status : Status) → joined_code status ≢ some minus_1
joined-ne done e = cc e
joined-ne mqerr_full e = cc e
joined-ne mqerr_message_too_long e = cc e
joined-ne mqerr_null_pointer e = cc e
joined-ne mqerr_alloc_fail e = cc e
joined-ne failed e = grind (arith, e)

module _ {Str Mem Net : Type 0} (m : Memory Str Mem) (n : Network Net) where
  welcome-ne : (fd : ℤ) (s : Server Str Mem Net) → (welcome m n fd s).0 ≢ some minus_1
  unfolding welcome
  welcome-ne fd s = elim (Bool-cases (watch s.fdstate fd).0) [
    | inl watched ↦ rw watched (joined-ne (Nullable.register_client m s.mq fd s.mem).0)
    | inr refused ↦ rw refused (λ e. cc e)
  ]

  handle_server_event-ne :
      (event : Pollfd) (s : Server Str Mem Net)
      → (event.revents.pollerr || event.revents.pollnval) ≡ false
      → (handle_server_event m n event s).0 ≢ minus_1
  unfolding handle_server_event
  handle_server_event-ne event s quiet =
      let (client_fd, net) = n.accept event.fd s.net in
      let joined = welcome-ne client_fd (record s { net = net }) in
      λ e. elim (Bool-cases event.revents.pollin) [
        | inl readable ↦ elim (Option-cases (welcome m n client_fd (record s { net = net })).0) [
          | inl silent ↦ ground (arith, e, quiet, readable, silent)
          | inr (code, at) ↦
              let same : code ≡ minus_1 = ground (arith, e, quiet, readable, at) in
              joined (at ∙ ap some same)
        ]
        | inr unread ↦ ground (arith, e, quiet, unread)
      ]

  unless_minus_1-stops :
      (code : Code) (s t : Server Str Mem Net) (rest : Round Str Mem Net)
      → code ≢ minus_1
      → unless_minus_1 m n code s rest ≡ stops t
      → rest ≡ stops t
  unfolding unless_minus_1
  unless_minus_1-stops minus_1 s t rest other e = absurd (other refl)
  unless_minus_1-stops zero_code s t rest other e = e
  unless_minus_1-stops minus_2 s t rest other e = e
  unless_minus_1-stops minus_3 s t rest other e = e
  unless_minus_1-stops minus_55 s t rest other e = e
  unless_minus_1-stops exits s t rest other e = e

  round_clients-ne : (s t : Server Str Mem Net) → round_clients m n s ≢ stops t
  unfolding round_clients
  round_clients-ne s t run = elim (Option-cases (client_events m n (length s.fdstate.fds) 1 s)) [
    | inl out ↦ ground (arith, run, out)
    | inr (u, at) ↦ elim (Option-cases (flush_all m n (drop 1 u.fdstate.fds) u)) [
      | inl out ↦ ground (arith, run, at, out)
      | inr (v, sent) ↦ ground (arith, run, at, sent)
    ]
  ]

  round_events-ne :
      (events : List Pollfd) (server_fd : ℤ) (rest : List ℤ) (s t : Server Str Mem Net)
      → fds_of events ≡ server_fd ∷ rest
      → IsQuiet (some events)
      → round_events m n events s ≢ stops t
  unfolding round_events
  round_events-ne [] server_fd rest s t names quiet run = cc names
  round_events-ne (event ∷ events) server_fd rest s t names quiet run =
      let (code, s') = handle_server_event m n event s in
      round_clients-ne s' t (
        unless_minus_1-stops code s' t (round_clients m n s') (handle_server_event-ne event s quiet)
          run)

  module _ (handed : ℤ → Net → List (List ℕ)) (is_open : ℤ → Net → Bool)
      (law : IsNetwork handed is_open n) (server_fd : ℤ) (quietly : PollsQuietly n)
      (within : ReadsWithin m n) where
    abbrev Good : Server Str Mem Net → Type 0
    Good = TableIn m n handed is_open law server_fd

    round-ne : (s t : Server Str Mem Net) → Good s → round m n s ≢ stops t
    unfolding round
    round-ne s t good run = elim (Option-cases (n.ppoll s.fdstate.fds s.net).0) [
      | inl out ↦ absurd (subst IsQuiet out (quietly s.fdstate.fds s.net))
      | inr (fds, at) ↦
          round_events-ne fds server_fd good.rest
            (record s {
              fdstate = record s.fdstate { fds = fds };
              net = (n.ppoll s.fdstate.fds s.net).1;
            })
            t (law.keeps_fds s.fdstate.fds fds s.net at ∙ good.head)
            (subst IsQuiet at (quietly s.fdstate.fds s.net)) (ground (arith, run, at))
    ]

    serve_step :
        (k : ℕ) (s t : Server Str Mem Net)
        → round m n s ≡ continues t
        → serve m n (suc k) s ≡ serve m n k t
    unfolding serve
    serve_step k s t at =
        ap (λ r. elim r [ continues u ↦ serve m n k u | stops u ↦ stops u | exited ↦ exited ]) at

    serve_goes_on :
        (rounds : ℕ) (s : Server Str Mem Net)
        → Good s
        → ((k : ℕ) → serve m n k s ≢ exited)
        → (t : Server Str Mem Net) × (serve m n rounds s ≡ continues t)
    unfolding serve
    serve_goes_on zero s good alive = (s, refl)
    serve_goes_on (suc rounds) s good alive = elim (Round-cases m n (round m n s)) [
      | inl (t, at) ↦
          let one : serve m n 1 s ≡ continues t = serve_step 0 s t at in
          let (u, e) =
            serve_goes_on rounds t (serve-TableIn m n handed is_open law server_fd 1 s t good one)
              (λ k e. alive (suc k) (serve_step k s t at ∙ e)) in
          (u, serve_step rounds s t at ∙ e)
      | inr (inl (t, at)) ↦ absurd (round-ne s t good at)
      | inr (inr at) ↦ absurd (alive 1 (ground (arith, at)))
    ]

    -- From a start on that was granted its blocks, with an open listening descriptor, the server
    -- goes on for any number of rounds, whatever its clients and the memory then do, where ppoll(2)
    -- does not fail and reports no error of the first descriptor, and as long as no signal ends the
    -- process (SIGPIPE, at a write to a peer that is gone, has to be ignored). Assumed of the
    -- network: accept(2) does not fail and answers a descriptor that is not open, only close(2)
    -- closes one, ppoll(2) keeps the descriptors, and read(2) answers no more than it is asked for.
    pub serve-continues :
        (rounds : ℕ) (mem : Mem) (net : Net) (watched : Bool) (first : Server Str Mem Net)
        → is_open server_fd net ≡ true
        → start m n server_fd mem net ≡ some (watched, first)
        → (s : Server Str Mem Net) × (serve m n rounds first ≡ continues s)
    serve-continues rounds mem net watched first live started =
        serve_goes_on rounds first
          (start-TableIn m n handed is_open law server_fd mem net first live
            (start-IsReady m n server_fd mem net watched first started).0)
          (λ k e.
            subst (Runs m n) e
              (serve-start-Runs m n k server_fd mem net watched first within started))
