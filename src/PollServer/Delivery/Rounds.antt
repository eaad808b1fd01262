-- ===== src/PollServer/Delivery/Rounds.antt =====
-- Whole rounds: what every client has been handed behind them.
use sys_programming_explorat.Base.{
  ℕ, zero, suc, ◌≡◌, ◌⊎◌, inl, inr, refl, sym, subst, List, [], ◌∷◌, Bool, Option, none, some,
  arith, ℤ, Option-cases, length, drop,
}
use sys_programming_explorat.MessageQueue
use sys_programming_explorat.MessageQueue.Nullable
use sys_programming_explorat.MessageQueue.{MessageQueue, Memory, Client, Status}
use sys_programming_explorat.Fds.{Pollfd}
use sys_programming_explorat.PollServer.{
  Network, Server, continues, handle_server_event, client_events, flush_all, round_clients,
  round_events, round, serve,
}
use sys_programming_explorat.PollServer.Handlers.{IsFull}
use sys_programming_explorat.PollServer.Invariants.{client_events-invariant}
use sys_programming_explorat.PollServer.Rounds.{
  IsFull-ring, flush_all-ring, unless_minus_1_continues, Round-cases,
}
use sys_programming_explorat.PollServer.Delivery.{IsNetwork, DeliveredIn, IsGood}
use sys_programming_explorat.PollServer.Delivery.Flush.{
  IsHealthy, CaughtUp, FlushedFor, flush-FlushedFor,
}
use sys_programming_explorat.PollServer.Delivery.Handlers.{
  In-Same, handle_client_event-IsGood, handle_server_event-IsGood,
}

-- A descriptor is among those that are polled.
abbrev pub IsPolled : ℤ → List Pollfd → Type 0
IsPolled fd [] = ⊥
IsPolled fd (p ∷ ps) = (p.fd ≡ fd) ⊎ IsPolled fd ps

module _ {Str Mem Net : Type 0} (m : Memory Str Mem) (n : Network Net)
    (handed : ℤ → Net → List (List ℕ)) (is_open : ℤ → Net → Bool)
    (law : IsNetwork handed is_open n) where
  abbrev In : Net → Option (MessageQueue Str) → Type 0
  In = DeliveredIn handed is_open m

  abbrev Good : Server Str Mem Net → Type 0
  Good = IsGood handed is_open m

  -- The clients of the descriptor are up to the end of the queue.
  abbrev pub CaughtUpIn : ℤ → Option (MessageQueue Str) → Type 0
  CaughtUpIn fd none = Unit {0}
  CaughtUpIn fd (some mq) = CaughtUp m n handed is_open law fd mq.end mq.clients

  -- Behind a flush for `p`.
  abbrev pub StepFor :
      ℤ → Option (MessageQueue Str) → Option (Status × Option (MessageQueue Str) × Net) → Type 0
  StepFor p o none = ⊥
  StepFor p o (some (status, o', net)) =
      In net o'
      × ((fd : ℤ) → CaughtUpIn fd o → CaughtUpIn fd o')
      × (IsHealthy m n handed is_open law p → CaughtUpIn p o')

  step_of :
      (p : ℤ) (mq : MessageQueue Str) (r : Option (Status × MessageQueue Str × Net))
      → FlushedFor m n handed is_open law p mq r
      → StepFor p
          (some mq)
          (elim r [ none ↦ none | some (status, mq', net') ↦ some (status, some mq', net') ])
  step_of p mq none f = absurd f
  step_of p mq (some (status, mq', net')) (d, same, others, here) = (
    d,
    (λ fd up.
        subst (λ e. CaughtUp m n handed is_open law fd e mq'.clients) (sym same) (others fd up)),
    (λ healthy.
        subst (λ e. CaughtUp m n handed is_open law p e mq'.clients) (sym same) (here healthy)),
  )

  pub flush-StepFor :
      (p : ℤ) (o : Option (MessageQueue Str)) (net : Net)
      → In net o
      → StepFor p o (Nullable.flush m n.write o p net)
  unfolding Nullable.flush
  flush-StepFor p none net d = (tt, (λ fd up. tt), λ healthy. tt)
  flush-StepFor p (some mq) net d =
      step_of p mq (MessageQueue.flush m n.write mq p net)
        (flush-FlushedFor m n handed is_open law net mq p d)

  abbrev Healthy : ℤ → Type 0
  Healthy = IsHealthy m n handed is_open law

  flush_all-In :
      (ps : List Pollfd) (s s' : Server Str Mem Net)
      → In s.net s.mq
      → flush_all m n ps s ≡ some s'
      → In s'.net s'.mq
        × (s'.fdstate ≡ s.fdstate)
        × ((fd : ℤ) → Healthy fd → IsPolled fd ps ⊎ CaughtUpIn fd s.mq → CaughtUpIn fd s'.mq)
  unfolding flush_all
  flush_all-In [] s s' d run =
      let same : s ≡ s' = grind (arith, run) in
      subst
        (λ t.
          In t.net t.mq
          × (t.fdstate ≡ s.fdstate)
          × ((fd : ℤ) → Healthy fd → IsPolled fd [] ⊎ CaughtUpIn fd s.mq → CaughtUpIn fd t.mq))
        same (d, refl, λ fd healthy up. elim up [ inl never ↦ absurd never | inr there ↦ there ])
  flush_all-In (p ∷ ps) s s' d run =
      let step = flush-StepFor p.fd s.mq s.net d in
      elim (Option-cases (Nullable.flush m n.write s.mq p.fd s.net)) [
        | inl out ↦ grind (arith, run, out)
        | inr ((status, mq, net), at) ↦
            let (d', others, here) = subst (StepFor p.fd s.mq) at step in
            let rest : flush_all m n ps (record s { mq = mq; net = net }) ≡ some s' =
              ground (arith, run, at) in
            let (d'', same, later) = flush_all-In ps (record s { mq = mq; net = net }) s' d' rest in
            (
              d'',
              same,
              (λ fd healthy up. later fd healthy (elim up [
                | inl (inl e) ↦
                    inr (subst (λ x. CaughtUpIn x mq) e (here (subst Healthy (sym e) healthy)))
                | inl (inr more) ↦ inl more
                | inr there ↦ inr (others fd there)
              ])),
            )
      ]

  -- Behind a round: the queue is full, or the polled descriptors that take their writes are up to
  -- its end.
  abbrev pub HasDelivered : Server Str Mem Net → Type 0
  HasDelivered s =
      IsFull s.mq
      ⊎ (In s.net s.mq
          × ((fd : ℤ) → Healthy fd → IsPolled fd (drop 1 s.fdstate.fds) → CaughtUpIn fd s.mq))

  HasDelivered-IsGood : (s : Server Str Mem Net) → HasDelivered s → Good s
  HasDelivered-IsGood s (inl full) = inl full
  HasDelivered-IsGood s (inr (d, up)) = inr d

  flush_all-HasDelivered :
      (s s' : Server Str Mem Net)
      → Good s
      → flush_all m n (drop 1 s.fdstate.fds) s ≡ some s'
      → HasDelivered s'
  flush_all-HasDelivered s s' (inl full) run =
      inl (IsFull-ring m n s.mq s'.mq (flush_all-ring m n (drop 1 s.fdstate.fds) s s' run) full)
  flush_all-HasDelivered s s' (inr d) run =
      let (d', same, up) = flush_all-In (drop 1 s.fdstate.fds) s s' d run in
      inr (
        d',
        (λ fd healthy polled.
            up fd healthy (inl (subst (λ t. IsPolled fd (drop 1 t.fds)) same polled))),
      )

  round_clients-HasDelivered :
      (s s' : Server Str Mem Net) → Good s → round_clients m n s ≡ continues s' → HasDelivered s'
  unfolding round_clients
  round_clients-HasDelivered s s' good run =
      elim (Option-cases (client_events m n (length s.fdstate.fds) 1 s)) [
        | inl out ↦ ground (arith, run, out)
        | inr (t, at) ↦ elim (Option-cases (flush_all m n (drop 1 t.fdstate.fds) t)) [
          | inl out ↦ ground (arith, run, at, out)
          | inr (u, sent) ↦
              let last : u ≡ s' = ground (arith, run, at, sent) in
              subst HasDelivered last (
                flush_all-HasDelivered t u
                  (client_events-invariant m n Good (length s.fdstate.fds) 0 s t
                    (λ i event v kept there.
                      handle_client_event-IsGood m n handed is_open law event v kept)
                    good at)
                  sent)
        ]
      ]

  round_events-HasDelivered :
      (events : List Pollfd) (s s' : Server Str Mem Net)
      → Good s
      → round_events m n events s ≡ continues s'
      → HasDelivered s'
  unfolding round_events
  round_events-HasDelivered [] s s' good run = cc run
  round_events-HasDelivered (event ∷ events) s s' good run =
      let (code, t) = handle_server_event m n event s in
      round_clients-HasDelivered t s'
        (handle_server_event-IsGood m n handed is_open law event s good)
        (unless_minus_1_continues m n code t s' (round_clients m n t) run)

  pub polled-IsGood :
      (s : Server Str Mem Net) (fds : List Pollfd)
      → Good s
      → Good (record s {
        fdstate = record s.fdstate { fds = fds };
        net = (n.ppoll s.fdstate.fds s.net).1;
      })
  polled-IsGood s fds (inl full) = inl full
  polled-IsGood s fds (inr d) = inr (
      In-Same m n handed is_open law s.net (n.ppoll s.fdstate.fds s.net).1 s.mq
        (law.polls s.fdstate.fds s.net) d)

  round-HasDelivered :
      (s s' : Server Str Mem Net) → Good s → round m n s ≡ continues s' → HasDelivered s'
  unfolding round
  round-HasDelivered s s' good run = elim (Option-cases (n.ppoll s.fdstate.fds s.net).0) [
    | inl out ↦ ground (arith, run, out)
    | inr (fds, at) ↦
        round_events-HasDelivered fds
          (record s {
            fdstate = record s.fdstate { fds = fds };
            net = (n.ppoll s.fdstate.fds s.net).1;
          })
          s' (polled-IsGood s fds good) (ground (arith, run, at))
  ]

  serve_next :
      (rounds : ℕ) (s t s' : Server Str Mem Net)
      → round m n s ≡ continues t
      → serve m n (suc (suc rounds)) s ≡ continues s'
      → serve m n (suc rounds) t ≡ continues s'
  unfolding serve
  serve_next rounds s t s' at run = ground (arith, run, at)

  pub serve-HasDelivered :
      (rounds : ℕ) (s s' : Server Str Mem Net)
      → Good s
      → serve m n (suc rounds) s ≡ continues s'
      → HasDelivered s'
  unfolding serve
  serve-HasDelivered zero s s' good run = elim (Round-cases m n (round m n s)) [
    | inl (t, at) ↦
        let same : t ≡ s' = ground (arith, run, at) in
        subst HasDelivered same (round-HasDelivered s t good at)
    | inr (inl (t, at)) ↦ ground (arith, run, at)
    | inr (inr at) ↦ ground (arith, run, at)
  ]
  serve-HasDelivered (suc rounds) s s' good run = elim (Round-cases m n (round m n s)) [
    | inl (t, at) ↦
        serve-HasDelivered rounds t s' (HasDelivered-IsGood t (round-HasDelivered s t good at))
          (serve_next rounds s t s' at run)
    | inr (inl (t, at)) ↦ ground (arith, run, at)
    | inr (inr at) ↦ ground (arith, run, at)
  ]
