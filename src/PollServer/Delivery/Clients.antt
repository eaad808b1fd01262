-- ===== src/PollServer/Delivery/Clients.antt =====
-- The clients of the queue, as the network and the log change.
use sys_programming_explorat.Base.{
  ℕ, ◌≡◌, sym, ap, ◌∙◌, List, ◌∷◌, ◌++◌, Bool, false, arith, length-append, take-append_less, ℤ,
}
use sys_programming_explorat.MessageQueue.{Client}
use sys_programming_explorat.MessageQueue.Flush.{NoClient}
use sys_programming_explorat.MessageQueue.Clients.{
  Each-map, Each-map_but, Each-replace, Each-NoClient,
}
use sys_programming_explorat.PollServer.Delivery.{Kept, Same, SameBut, IsClient, AllClients}

module _ {Net : Type 0} (handed : ℤ → Net → List (List ℕ)) (is_open : ℤ → Net → Bool) where
  IsClient-Kept :
      (net net' : Net) (log : List (List ℕ)) (c : Client)
      → Kept handed is_open net net' c.fd
      → IsClient handed is_open net log c
      → IsClient handed is_open net' log c
  IsClient-Kept net net' log c (same, up) (below, got, live) = (below, same ∙ got, up ∙ live)

  pub AllClients-Same :
      (net net' : Net) (log : List (List ℕ)) (cs : List Client)
      → Same handed is_open net net'
      → AllClients handed is_open net log cs
      → AllClients handed is_open net' log cs
  AllClients-Same net net' log cs same =
      Each-map (IsClient handed is_open net log) (IsClient handed is_open net' log) cs
        (λ c. IsClient-Kept net net' log c (same c.fd))

  pub AllClients-SameBut :
      (fd : ℤ) (net net' : Net) (log : List (List ℕ)) (cs : List Client)
      → SameBut handed is_open fd net net'
      → NoClient fd cs
      → AllClients handed is_open net log cs
      → AllClients handed is_open net' log cs
  AllClients-SameBut fd net net' log cs but =
      Each-map_but (IsClient handed is_open net log) (IsClient handed is_open net' log) fd cs
        (λ c differs. IsClient-Kept net net' log c (but c.fd differs))

  -- A longer log.
  pub AllClients-append :
      (net : Net) (log new : List (List ℕ)) (cs : List Client)
      → AllClients handed is_open net log cs
      → AllClients handed is_open net (log ++ new) cs
  AllClients-append net log new cs =
      Each-map (IsClient handed is_open net log) (IsClient handed is_open net (log ++ new)) cs
        (λ c (below, got, live). (
          omega (arith, length-append log new),
          got ∙ sym (take-append_less c.roff log new below),
          live,
        ))

  -- A descriptor that is not open has no client.
  pub NoClient-closed :
      (fd : ℤ) (net : Net) (log : List (List ℕ)) (cs : List Client)
      → is_open fd net ≡ false
      → AllClients handed is_open net log cs
      → NoClient fd cs
  NoClient-closed fd net log cs down =
      Each-NoClient (IsClient handed is_open net log) fd cs
        (λ c (below, got, live) same. cc (sym (ap (λ x. is_open x net) same) ∙ live, down))

  -- One client has moved on, and the network changed for it alone.
  pub AllClients-replace :
      (net net' : Net) (log : List (List ℕ)) (before after : List Client) (c c' : Client)
      → NoClient c.fd before
      → SameBut handed is_open c.fd net net'
      → c'.fd ≡ c.fd
      → IsClient handed is_open net' log c'
      → AllClients handed is_open net log (before ++ c ∷ after)
      → AllClients handed is_open net' log (before ++ c' ∷ after)
  AllClients-replace net net' log before after c c' others but =
      Each-replace (IsClient handed is_open net log) (IsClient handed is_open net' log) before after
        c c' (λ d differs. IsClient-Kept net net' log d (but d.fd differs)) others
