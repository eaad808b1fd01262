-- ===== src/PollServer/Table.antt =====
-- The polled descriptors and the clients of the queue.
pub mod Operations
pub mod Handlers
pub mod Rounds
pub mod Start
pub mod Progress
use mathlib.Core.List.{Mem, Nodup}
use sys_programming_explorat.Base.{
  ℕ, ◌≤◌, ◌≡◌, ◌≢◌, List, [], ◌∷◌, Bool, true, Option, none, some, length, ℤ,
}
use sys_programming_explorat.MessageQueue.{MessageQueue, Client}
use sys_programming_explorat.MessageQueue.Clients.{Each}
use sys_programming_explorat.Fds.{Fds}
use sys_programming_explorat.Fds.Watch.{fds_of}
use sys_programming_explorat.PollServer.{Server}

abbrev pub clients_of : {Str : Type 0} → Option (MessageQueue Str) → List Client
clients_of none = []
clients_of (some mq) = mq.clients

-- A client has one of these descriptors, and not the listening one.
abbrev pub IsListed : ℤ → List ℤ → Client → Type 0
IsListed server_fd names c = Mem c.fd names × (c.fd ≢ server_fd)

-- The first of the polled descriptors is the listening one. They are open, within the capacity, and
-- none is there twice. Each client has one of the others, of its own.
pub record IsTable (server_fd : ℤ) (is_live : ℤ → Bool) (state : Fds) (cs : List Client)
    : Type 0 where
  pub rest : List ℤ
  pub head : fds_of state.fds ≡ server_fd ∷ rest
  pub distinct : Nodup (fds_of state.fds)
  pub fits : length state.fds ≤ state.capacity
  pub live : (x : ℤ) → Mem x (fds_of state.fds) → is_live x ≡ true
  pub listed : Each (IsListed server_fd (fds_of state.fds)) cs

module _ {Net : Type 0} (is_open : ℤ → Net → Bool) where
  abbrev pub TableOf : {Str Mem : Type 0} → ℤ → Server Str Mem Net → Type 0
  TableOf server_fd s = IsTable server_fd (λ x. is_open x s.net) s.fdstate (clients_of s.mq)
