-- ===== src/PollServer/Delivery/Backlog.antt =====
-- What waits in the queue against what was read.
use sys_programming_explorat.Base.{
  ◌≤◌, length, List, Bool, refl, ℕ, ◌≡◌, ◌⊎◌, inl, inr, sym, ap, subst, ◌∙◌, [], map, arith,
  Option-cases, Option, some, ℤ,
}
use sys_programming_explorat.MessageQueue
use sys_programming_explorat.MessageQueue.Nullable
use sys_programming_explorat.MessageQueue.{MessageQueue, Memory, Client, Status}
use sys_programming_explorat.MessageQueue.Fifo.{init-IsValid, init-fresh}
use sys_programming_explorat.MessageQueue.Writes.{HoldsAfter, flush_holds}
use sys_programming_explorat.Fds.{Pollfd}
use sys_programming_explorat.PollServer.{
  Network, Server, continues, handle_client_event, handle_server_event, start, serve,
  max_num_of_clients,
}
use sys_programming_explorat.PollServer.Sound.{ReadsWithin}
use sys_programming_explorat.PollServer.Ready.{start-IsReady}
use sys_programming_explorat.PollServer.Handlers.{IsFull}
use sys_programming_explorat.PollServer.Rounds.{
  ring, IsFull-ring, flush-ring, ring-handle_client_event, ring-handle_server_event,
}
use sys_programming_explorat.PollServer.Invariants.{IsInvariant, serve-invariant}
use sys_programming_explorat.PollServer.Delivery.{IsNetwork, DeliveredIn, IsGood, text_of}
use sys_programming_explorat.PollServer.Delivery.Handlers.{
  In-Same, handle_client_event-IsGood, handle_server_event-IsGood,
}
use sys_programming_explorat.PollServer.Delivery.Rounds.{StepFor, flush-StepFor}
use sys_programming_explorat.PollServer.Delivery.Served.{start-IsGood}
use sys_programming_explorat.PollServer.Delivery.Heard.{
  KeepsTexts, IsHearing, Holds, full-Holds, Holds-ring, heard-handle_server_event,
  handle_client_event-IsHeard,
}
use sys_programming_explorat.PollServer.Delivery.Growing.{handle_client_event_grows}

module _ {Str Mem Net : Type 0} (m : Memory Str Mem) (n : Network Net)
    (handed : ℤ → Net → List (List ℕ)) (is_open : ℤ → Net → Bool) (law : IsNetwork handed is_open n)
    (heard : Net → List (List ℕ)) (hearing : IsHearing heard n) (texts : KeepsTexts m)
    (within : ReadsWithin m n) where
  abbrev pub In : Net → Option (MessageQueue Str) → Type 0
  In = DeliveredIn handed is_open m

  -- A full queue, of as many messages as there is room for.
  abbrev pub IsCrowded : Net → Option (MessageQueue Str) → Type 0
  IsCrowded net o = IsFull o × (max_num_of_clients ≤ length (heard net))

  abbrev pub Inv : Server Str Mem Net → Type 0
  Inv s = IsCrowded s.net s.mq ⊎ (In s.net s.mq × Holds m (heard s.net) s.mq)

  and_heard :
      (s : Server Str Mem Net) → IsGood handed is_open m s → Holds m (heard s.net) s.mq → Inv s
  and_heard s (inl full) holds = inl (full, full-Holds m (heard s.net) s.mq full holds)
  and_heard s (inr d) holds = inr (d, holds)

  still-IsCrowded :
      (net net' : Net) (o o' : Option (MessageQueue Str))
      → ring o' ≡ ring o
      → length (heard net) ≤ length (heard net')
      → IsCrowded net o
      → IsCrowded net' o'
  still-IsCrowded net net' o o' same more (full, many) =
      (IsFull-ring m n o o' same full, omega arith)

  Holds-step :
      (net net' : Net) (o o' : Option (MessageQueue Str))
      → ring o' ≡ ring o
      → heard net' ≡ heard net
      → Holds m (heard net) o
      → Holds m (heard net') o'
  Holds-step net net' o o' same silent holds =
      subst (λ l. Holds m l o') (sym silent) (Holds-ring m (heard net) o o' same holds)

  polls-Inv :
      (s : Server Str Mem Net) (fds : List Pollfd)
      → Inv s
      → Inv (record s {
        fdstate = record s.fdstate { fds = fds };
        net = (n.ppoll s.fdstate.fds s.net).1;
      })
  polls-Inv s fds inv =
      let net = (n.ppoll s.fdstate.fds s.net).1 in
      let silent = hearing.polls s.fdstate.fds s.net in
      elim inv [
        | inl crowded ↦
            inl (still-IsCrowded s.net net s.mq s.mq refl (omega (arith, ap length silent)) crowded)
        | inr (d, holds) ↦ inr (
          In-Same m n handed is_open law s.net net s.mq (law.polls s.fdstate.fds s.net) d,
          Holds-step s.net net s.mq s.mq refl silent holds,
        )
      ]

  accepts-Inv :
      (event : Pollfd) (s : Server Str Mem Net) → Inv s → Inv (handle_server_event m n event s).1
  accepts-Inv event s inv =
      let s' = (handle_server_event m n event s).1 in
      let same = ring-handle_server_event m n event s in
      let silent =
        heard-handle_server_event m n handed is_open law heard hearing texts within event s in
      elim inv [
        | inl crowded ↦
            inl (
              still-IsCrowded s.net s'.net s.mq s'.mq same (omega (arith, ap length silent))
                crowded)
        | inr (d, holds) ↦
            and_heard s' (handle_server_event-IsGood m n handed is_open law event s (inr d))
              (Holds-step s.net s'.net s.mq s'.mq same silent holds)
      ]

  handles-Inv :
      (event : Pollfd) (s : Server Str Mem Net) → Inv s → Inv (handle_client_event m n event s).1
  handles-Inv event s inv =
      let s' = (handle_client_event m n event s).1 in
      elim inv [
        | inl (full, many) ↦ inl (
            still-IsCrowded s.net s'.net s.mq s'.mq (ring-handle_client_event m n event s full)
              (handle_client_event_grows m n heard hearing event s) (full, many))
        | inr (d, holds) ↦
            and_heard s' (handle_client_event-IsGood m n handed is_open law event s (inr d)) (
              handle_client_event-IsHeard m n handed is_open law heard hearing texts within event s
                d holds)
      ]

  flush-heard :
      (o o' : Option (MessageQueue Str)) (fd : ℤ) (net net' : Net) (status : Status)
      → Nullable.flush m n.write o fd net ≡ some (status, o', net')
      → heard net' ≡ heard net
  flush-heard o o' fd net net' status at =
      let silent : Net → Type 0 = λ w. heard w ≡ heard net in
      let step : (x : ℤ) (bs : List ℕ) (w : Net) → silent w → silent (n.write x bs w).1 =
        λ x bs w e. hearing.writes x bs w ∙ e in
      subst (HoldsAfter m n.write silent step) at (flush_holds m n.write silent step o fd net refl)

  flushes-Inv :
      (s : Server Str Mem Net) (fd : ℤ) (status : Status) (mq : Option (MessageQueue Str))
      (net : Net)
      → Inv s
      → Nullable.flush m n.write s.mq fd s.net ≡ some (status, mq, net)
      → Inv (record s { mq = mq; net = net })
  flushes-Inv s fd status mq net inv at =
      let same = flush-ring m n s.mq mq fd s.net net status at in
      let silent = flush-heard s.mq mq fd s.net net status at in
      elim inv [
        | inl crowded ↦
            inl (still-IsCrowded s.net net s.mq mq same (omega (arith, ap length silent)) crowded)
        | inr (d, holds) ↦ inr (
          (subst (StepFor m n handed is_open law fd s.mq) at
              (flush-StepFor m n handed is_open law fd s.mq s.net d)).0,
          Holds-step s.net net s.mq mq same silent holds,
        )
      ]

  Inv-IsInvariant : IsInvariant m n Inv
  Inv-IsInvariant = record {
    polls = λ s fds inv at. polls-Inv s fds inv;
    accepts = accepts-Inv;
    handles = λ i event s inv at. handles-Inv event s inv;
    flushes = flushes-Inv;
  }

  init-Holds : (mem : Mem) → Holds m [] (MessageQueue.init m max_num_of_clients mem).0
  init-Holds mem =
      let made = MessageQueue.init m max_num_of_clients mem in
      elim (Option-cases made.0) [
        | inl e ↦ subst (Holds m []) (sym e) tt
        | inr (mq, e) ↦
            let run : made ≡ (some mq, made.1) = ap (λ o. (o, made.1)) e in
            let (positive, same) = init-fresh m max_num_of_clients mem made.1 mq run in
            let (valid, aligned, empty) =
              init-IsValid m max_num_of_clients mem made.1 mq (omega arith) run in
            subst (Holds m []) (sym e) (ap (map (text_of m)) empty, sym (ap (λ r. r.capacity) same))
      ]

  pub serve-Inv :
      (rounds : ℕ) (server_fd : ℤ) (mem : Mem) (net : Net) (watched : Bool)
      (first s : Server Str Mem Net)
      → heard net ≡ []
      → start m n server_fd mem net ≡ some (watched, first)
      → serve m n rounds first ≡ continues s
      → Inv s
  serve-Inv rounds server_fd mem net watched first s silent started run =
      let (ready, _) = start-IsReady m n server_fd mem net watched first started in
      serve-invariant m n Inv Inv-IsInvariant rounds first s
        (and_heard first (start-IsGood m n handed is_open law server_fd mem net first ready) (
          subst (λ l. Holds m l first.mq) (sym silent ∙ ap heard ready.net_kept)
            (subst (Holds m []) ready.mq (init-Holds mem))))
        run
