-- ===== src/PollServer/Delivery/Served.antt =====
-- What the server has handed to each client, from its start on.
use mathlib.Core.List.{Mem, mem-cons, not-mem-nil, Mem-prop}
use mathlib.Core.Logic.Or
use sys_programming_explorat.Base.{
  ℕ, suc, ◌≡◌, ◌≢◌, ◌⊎◌, inl, inr, refl, sym, ap, subst, ◌∙◌, List, [], ◌∷◌, Bool, true, Option,
  none, some, arith, length, take, take-all, drop, ℤ, Option-cases, eq_int, eq_int_iff, Bool-cases,
}
use sys_programming_explorat.MessageQueue
use sys_programming_explorat.MessageQueue.{MessageQueue, Memory, Client, first_offset}
use sys_programming_explorat.MessageQueue.Fifo.{init-IsValid, init-fresh}
use sys_programming_explorat.MessageQueue.Clients.{Each, eq_int-ne}
use sys_programming_explorat.Fds.{Fds, Pollfd}
use sys_programming_explorat.Fds.Watch.{fds_of}
use sys_programming_explorat.PollServer.{
  Network, Server, continues, start, serve, max_num_of_clients,
}
use sys_programming_explorat.PollServer.Ready.{IsReady, start-IsReady}
use sys_programming_explorat.PollServer.Handlers.{IsFull}
use sys_programming_explorat.PollServer.Delivery.{
  posted, IsNetwork, IsClient, AllClients, DeliveredIn, IsGood,
}
use sys_programming_explorat.PollServer.Delivery.Sending.{length-posted}
use sys_programming_explorat.PollServer.Delivery.Flush.{IsHealthy, CaughtUp}
use sys_programming_explorat.PollServer.Delivery.Rounds.{
  IsPolled, CaughtUpIn, HasDelivered, serve-HasDelivered,
}
use sys_programming_explorat.PollServer.Table.{clients_of, IsListed, TableOf, IsTable}
use sys_programming_explorat.PollServer.Table.Start.{serve-IsTable}

mem-IsPolled : (fd : ℤ) (ps : List Pollfd) → Mem fd (fds_of ps) → IsPolled fd ps
mem-IsPolled fd [] there = absurd (not-mem-nil there)
mem-IsPolled fd (p ∷ ps) there = elim (Bool-cases (eq_int p.fd fd)) [
  | inl e ↦ inl ((eq_int_iff p.fd fd).0 e)
  | inr e ↦ inr (
      mem-IsPolled fd ps
        (Or.elim Mem-prop (mem-cons.0 there) (λ q. absurd (eq_int-ne p.fd fd e (sym q))) (λ q. q)))
]

behind-IsPolled :
    (ps : List Pollfd) (server_fd fd : ℤ) (rest : List ℤ)
    → fds_of ps ≡ server_fd ∷ rest
    → fd ≢ server_fd
    → Mem fd (fds_of ps)
    → IsPolled fd (drop 1 ps)
behind-IsPolled [] server_fd fd rest head other there = absurd (not-mem-nil there)
behind-IsPolled (p ∷ ps) server_fd fd rest head other there =
    let first : p.fd ≡ server_fd = grind (arith, head) in
    elim (mem-IsPolled fd (p ∷ ps) there) [
      | inl e ↦ absurd (other (sym e ∙ first))
      | inr polled ↦ polled
    ]

module _ {Str Heap Net : Type 0} (m : Memory Str Heap) (n : Network Net)
    (handed : ℤ → Net → List (List ℕ)) (is_open : ℤ → Net → Bool)
    (law : IsNetwork handed is_open n) where
  init-DeliveredIn :
      (mem : Heap) (net : Net)
      → DeliveredIn handed is_open m net (MessageQueue.init m max_num_of_clients mem).0
  init-DeliveredIn mem net =
      let made = MessageQueue.init m max_num_of_clients mem in
      elim (Option-cases made.0) [
        | inl e ↦ subst (DeliveredIn handed is_open m net) (sym e) tt
        | inr (mq, e) ↦
            let run : made ≡ (some mq, made.1) = ap (λ o. (o, made.1)) e in
            let (positive, same) = init-fresh m max_num_of_clients mem made.1 mq run in
            let (valid, aligned, empty) =
              init-IsValid m max_num_of_clients mem made.1 mq (omega arith) run in
            (subst (DeliveredIn handed is_open m net) (sym e) record {
              valid = valid;
              aligned = aligned;
              first = ap first_offset (sym same);
              room = λ full. cc (full, ap (λ r. r.start) same);
              clients =
                  subst (AllClients handed is_open net (posted m mq)) (ap (λ r. r.clients) same) tt;
            })
      ]

  pub start-IsGood :
      (server_fd : ℤ) (mem : Heap) (net : Net) (s : Server Str Heap Net)
      → IsReady m n server_fd mem net s
      → IsGood handed is_open m s
  start-IsGood server_fd mem net s ready = inr (
      subst (λ w. DeliveredIn handed is_open m w s.mq) ready.net_kept
        (subst (DeliveredIn handed is_open m net) ready.mq (init-DeliveredIn mem net)))

  -- Of the messages that were queued, a client has been handed the first ones, in order; all of
  -- them, if its writes are not refused.
  abbrev pub IsServed : Net → MessageQueue Str → Client → Type 0
  IsServed net mq c =
      (handed c.fd net ≡ take c.roff (posted m mq))
      × (IsHealthy m n handed is_open law c.fd → handed c.fd net ≡ posted m mq)

  abbrev pub AllServed : Net → Option (MessageQueue Str) → Type 0
  AllServed net none = Unit {0}
  AllServed net (some mq) = Each (IsServed net mq) mq.clients

  all-IsServed :
      (names : List ℤ) (server_fd : ℤ) (net : Net) (mq : MessageQueue Str) (cs : List Client)
      → length (posted m mq) ≡ mq.end
      → ((c : Client)
          → IsListed server_fd names c
          → IsHealthy m n handed is_open law c.fd
          → CaughtUp m n handed is_open law c.fd mq.end cs)
      → Each (IsListed server_fd names) cs
      → Each (IsClient handed is_open net (posted m mq)) cs
      → Each (IsServed net mq) cs
  all-IsServed names server_fd net mq [] all up listed clients = tt
  all-IsServed names server_fd net mq (c ∷ cs) all up (here, apart, listed)
        ((below, got, live), apart', clients) =
      (
        (
          got,
          λ healthy. elim ((up c here healthy).0) [
            | inl differs ↦ absurd (eq_int-ne c.fd c.fd differs refl)
            | inr e ↦ got ∙ take-all c.roff (posted m mq) (omega arith)
          ],
        ),
        apart,
        all-IsServed names server_fd net mq cs all (λ d own healthy. (up d own healthy).1) listed
            clients,
      )

  served_in :
      (server_fd : ℤ) (state : Fds) (o : Option (MessageQueue Str)) (net : Net)
      → IsTable server_fd (λ x. is_open x net) state (clients_of o)
      → DeliveredIn handed is_open m net o
      → ((fd : ℤ)
          → IsHealthy m n handed is_open law fd
          → IsPolled fd (drop 1 state.fds)
          → CaughtUpIn m n handed is_open law fd o)
      → AllServed net o
  served_in server_fd state none net t d up = tt
  served_in server_fd state (some mq) net t d up =
      all-IsServed (fds_of state.fds) server_fd net mq mq.clients
        (length-posted m n handed is_open law net mq d).1
        (λ c (there, own) healthy.
          up c.fd healthy (behind-IsPolled state.fds server_fd c.fd t.rest t.head own there))
        t.listed d.clients

  served_of :
      (server_fd : ℤ) (s : Server Str Heap Net)
      → TableOf is_open server_fd s
      → HasDelivered m n handed is_open law s
      → IsFull s.mq ⊎ AllServed s.net s.mq
  served_of server_fd s t (inl full) = inl full
  served_of server_fd s t (inr (d, up)) = inr (served_in server_fd s.fdstate s.mq s.net t d up)

  -- Behind a round or more the queue is full, or its messages have been handed to its clients.
  pub serve-delivers :
      (rounds : ℕ) (server_fd : ℤ) (mem : Heap) (net : Net) (watched : Bool)
      (first s : Server Str Heap Net)
      → is_open server_fd net ≡ true
      → start m n server_fd mem net ≡ some (watched, first)
      → serve m n (suc rounds) first ≡ continues s
      → IsFull s.mq ⊎ AllServed s.net s.mq
  serve-delivers rounds server_fd mem net watched first s live started run =
      served_of server_fd s
        (serve-IsTable m n handed is_open law (suc rounds) server_fd mem net watched first s live
          started run)
        (serve-HasDelivered m n handed is_open law rounds first s
          (start-IsGood server_fd mem net first
            (start-IsReady m n server_fd mem net watched first started).0)
          run)
