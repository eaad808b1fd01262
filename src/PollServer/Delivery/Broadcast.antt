-- ===== src/PollServer/Delivery/Broadcast.antt =====
-- What was read from the clients against what is handed to them, from the start of the server on.
use sys_programming_explorat.Base.{
  ◌<◌, length, List, Bool, ℕ, suc, ◌≡◌, inl, inr, ap, ◌∙◌, [], arith, true, Option, none, some, ℤ,
  take,
}
use sys_programming_explorat.MessageQueue.{MessageQueue, Memory, Client}
use sys_programming_explorat.MessageQueue.Clients.{Each, Each-map}
use sys_programming_explorat.PollServer.{
  Network, Server, continues, start, serve, max_num_of_clients,
}
use sys_programming_explorat.PollServer.Sound.{ReadsWithin}
use sys_programming_explorat.PollServer.Delivery.{IsNetwork}
use sys_programming_explorat.PollServer.Delivery.Flush.{IsHealthy}
use sys_programming_explorat.PollServer.Delivery.Served.{IsServed, AllServed, serve-delivers}
use sys_programming_explorat.PollServer.Delivery.Heard.{KeepsTexts, IsHearing, Holds, full-Holds}
use sys_programming_explorat.PollServer.Delivery.Backlog.{serve-Inv}

module _ {Str Mem Net : Type 0} (m : Memory Str Mem) (n : Network Net)
    (handed : ℤ → Net → List (List ℕ)) (is_open : ℤ → Net → Bool) (law : IsNetwork handed is_open n)
    (heard : Net → List (List ℕ)) (hearing : IsHearing heard n) (texts : KeepsTexts m)
    (within : ReadsWithin m n) where
  -- Of what was read from all clients, a client has been handed the first messages, in order; all
  -- of them, if its writes are not refused.
  abbrev pub HasHeard : Net → Client → Type 0
  HasHeard net c =
      (handed c.fd net ≡ take c.roff (heard net))
      × (IsHealthy m n handed is_open law c.fd → handed c.fd net ≡ heard net)

  abbrev pub AllHaveHeard : Net → Option (MessageQueue Str) → Type 0
  AllHaveHeard net none = Unit {0}
  AllHaveHeard net (some mq) = Each (HasHeard net) mq.clients

  with_heard :
      (net : Net) (o : Option (MessageQueue Str))
      → AllServed m n handed is_open law net o
      → Holds m (heard net) o
      → AllHaveHeard net o
  with_heard net none served holds = tt
  with_heard net (some mq) served holds =
      Each-map (IsServed m n handed is_open law net mq) (HasHeard net) mq.clients
        (λ c (first, all). (first ∙ ap (take c.roff) holds.0, λ healthy. all healthy ∙ holds.0))
        served

  -- Behind one round or more of the server, from a start on that was granted its blocks, with an
  -- open listening descriptor and nothing read yet, and where fewer than MAX_NUM_OF_CLIENTS
  -- messages have been read so far: every client of the queue, if there is one, has a descriptor of
  -- its own and has been handed the first `roff` of the messages that were read from any client, in
  -- the order in which they were read and each of them once, and all of them if no write on its
  -- descriptor is refused. Assumed: read, write, close, accept and ppoll do what they say to the
  -- open descriptors, to what was handed to each and to what was read, and a read answers no more
  -- than it is asked for; accept(2) and sdsnewlen do not fail.
  pub serve-broadcasts :
      (rounds : ℕ) (server_fd : ℤ) (mem : Mem) (net : Net) (watched : Bool)
      (first s : Server Str Mem Net)
      → is_open server_fd net ≡ true
      → heard net ≡ []
      → start m n server_fd mem net ≡ some (watched, first)
      → serve m n (suc rounds) first ≡ continues s
      → length (heard s.net) < max_num_of_clients
      → AllHaveHeard s.net s.mq
  serve-broadcasts rounds server_fd mem net watched first s live silent started run few =
      elim (serve-Inv m n handed is_open law heard hearing texts within (suc rounds) server_fd mem
        net watched first s silent started run) [
          | inl (full, many) ↦ absurd (omega arith)
          | inr (d, holds) ↦
              elim (serve-delivers m n handed is_open law rounds server_fd mem net watched first s
                live started run) [
                  | inl full ↦ absurd (omega (arith, full-Holds m (heard s.net) s.mq full holds))
                  | inr served ↦ with_heard s.net s.mq served holds
                ]
        ]
