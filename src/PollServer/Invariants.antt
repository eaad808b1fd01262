-- ===== src/PollServer/Invariants.antt =====
-- Invariants of the server: from the steps of a round to any number of rounds.
use sys_programming_explorat.Base.{
  ℕ, zero, suc, ◌≡◌, inl, inr, subst, List, [], ◌∷◌, Option, some, arith, length, ℤ, get_elem?,
  drop, Option-cases,
}
use sys_programming_explorat.MessageQueue.Nullable
use sys_programming_explorat.MessageQueue.{MessageQueue, Memory, Status}
use sys_programming_explorat.Fds.{Pollfd}
use sys_programming_explorat.PollServer.{
  Network, Server, continues, handle_client_event, handle_server_event, client_events, unless_exits,
  flush_all, round_clients, round_events, round, serve,
}
use sys_programming_explorat.PollServer.Rounds.{
  unless_exits-some, unless_minus_1_continues, Round-cases,
}

module _ {Str Mem Net : Type 0} (m : Memory Str Mem) (n : Network Net)
    (Inv : Server Str Mem Net → Type 0) where
  -- The handler of a client's event, which is one behind the first entry.
  abbrev pub HandlesClients : Type 0
  HandlesClients =
      (i : ℕ) (event : Pollfd) (s : Server Str Mem Net)
      → Inv s
      → get_elem? s.fdstate.fds (suc i) ≡ some event
      → Inv (handle_client_event m n event s).1

  -- The steps of a round.
  pub record IsInvariant : Type 0 where
    pub polls :
        (s : Server Str Mem Net) (fds : List Pollfd)
        → Inv s
        → (n.ppoll s.fdstate.fds s.net).0 ≡ some fds
        → Inv (record s {
          fdstate = record s.fdstate { fds = fds };
          net = (n.ppoll s.fdstate.fds s.net).1;
        })
    pub accepts :
        (event : Pollfd) (s : Server Str Mem Net) → Inv s → Inv (handle_server_event m n event s).1
    pub handles : HandlesClients
    pub flushes :
        (s : Server Str Mem Net) (fd : ℤ) (status : Status) (mq : Option (MessageQueue Str))
        (net : Net)
        → Inv s
        → Nullable.flush m n.write s.mq fd s.net ≡ some (status, mq, net)
        → Inv (record s { mq = mq; net = net })

  pub client_events-invariant :
      (fuel i : ℕ) (s s' : Server Str Mem Net)
      → HandlesClients
      → Inv s
      → client_events m n fuel (suc i) s ≡ some s'
      → Inv s'
  unfolding client_events
  client_events-invariant zero i s s' handles good run =
      let same : s ≡ s' = grind (arith, run) in subst Inv same good
  client_events-invariant (suc fuel) i s s' handles good run =
      elim (Option-cases (get_elem? s.fdstate.fds (suc i))) [
        | inl out ↦ let same : s ≡ s' = grind (arith, run, out) in subst Inv same good
        | inr (event, at) ↦
            let (code, t) = handle_client_event m n event s in
            let rest : unless_exits m n code (client_events m n fuel (suc (suc i)) t) ≡ some s' =
              ground (arith, run, at) in
            client_events-invariant fuel (suc i) t s' handles (handles i event s good at)
              (unless_exits-some m n code _ s' rest)
      ]

  module _ (kept : IsInvariant) where
    flush_all-invariant :
        (ps : List Pollfd) (s s' : Server Str Mem Net)
        → Inv s
        → flush_all m n ps s ≡ some s'
        → Inv s'
    unfolding flush_all
    flush_all-invariant [] s s' t run = let same : s ≡ s' = grind (arith, run) in subst Inv same t
    flush_all-invariant (p ∷ ps) s s' t run =
        elim (Option-cases (Nullable.flush m n.write s.mq p.fd s.net)) [
          | inl out ↦ grind (arith, run, out)
          | inr ((status, mq, net), at) ↦
              flush_all-invariant ps (record s { mq = mq; net = net }) s'
                (kept.flushes s p.fd status mq net t at) (ground (arith, run, at))
        ]

    round_clients-invariant :
        (s s' : Server Str Mem Net) → Inv s → round_clients m n s ≡ continues s' → Inv s'
    unfolding round_clients
    round_clients-invariant s s' good run =
        elim (Option-cases (client_events m n (length s.fdstate.fds) 1 s)) [
          | inl out ↦ ground (arith, run, out)
          | inr (t, at) ↦ elim (Option-cases (flush_all m n (drop 1 t.fdstate.fds) t)) [
            | inl out ↦ ground (arith, run, at, out)
            | inr (u, sent) ↦
                let last : u ≡ s' = ground (arith, run, at, sent) in
                subst Inv last (
                  flush_all-invariant (drop 1 t.fdstate.fds) t u
                    (client_events-invariant (length s.fdstate.fds) 0 s t kept.handles good at)
                    sent)
          ]
        ]

    round_events-invariant :
        (events : List Pollfd) (s s' : Server Str Mem Net)
        → Inv s
        → round_events m n events s ≡ continues s'
        → Inv s'
    unfolding round_events
    round_events-invariant [] s s' good run = cc run
    round_events-invariant (event ∷ events) s s' good run =
        let (code, t) = handle_server_event m n event s in
        round_clients-invariant t s' (kept.accepts event s good)
          (unless_minus_1_continues m n code t s' (round_clients m n t) run)

    round-invariant : (s s' : Server Str Mem Net) → Inv s → round m n s ≡ continues s' → Inv s'
    unfolding round
    round-invariant s s' good run = elim (Option-cases (n.ppoll s.fdstate.fds s.net).0) [
      | inl out ↦ ground (arith, run, out)
      | inr (fds, at) ↦
          round_events-invariant fds
            (record s {
              fdstate = record s.fdstate { fds = fds };
              net = (n.ppoll s.fdstate.fds s.net).1;
            })
            s' (kept.polls s fds good at) (ground (arith, run, at))
    ]

    pub serve-invariant :
        (rounds : ℕ) (s s' : Server Str Mem Net)
        → Inv s
        → serve m n rounds s ≡ continues s'
        → Inv s'
    unfolding serve
    serve-invariant zero s s' good run =
        let same : s ≡ s' = grind (arith, run) in subst Inv same good
    serve-invariant (suc rounds) s s' good run = elim (Round-cases m n (round m n s)) [
      | inl (t, at) ↦
          serve-invariant rounds t s' (round-invariant s t good at) (ground (arith, run, at))
      | inr (inl (t, at)) ↦ ground (arith, run, at)
      | inr (inr at) ↦ ground (arith, run, at)
    ]
