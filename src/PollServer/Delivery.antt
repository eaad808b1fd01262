-- ===== src/PollServer/Delivery.antt =====
-- What the clients of the chat server are sent, while the queue has room.
pub mod Clients
pub mod Queue
pub mod Sending
pub mod Flush
pub mod Handlers
pub mod Rounds
pub mod Served
pub mod Heard
pub mod Growing
pub mod Backlog
pub mod Broadcast
pub mod Wire
mod Tests
use sys_programming_explorat.Base.{
  ℕ, ◌≤◌, ◌≡◌, ◌≢◌, ◌⊎◌, List, [], ◌∷◌, ◌++◌, map, Bool, true, false, Option, none, some, length,
  take, ℤ, negsuc,
}
use sys_programming_explorat.MessageQueue.{MessageQueue, Memory, Client, first_offset}
use sys_programming_explorat.MessageQueue.Validity.{IsValid, IsAligned, waiting}
use sys_programming_explorat.MessageQueue.Clients.{Each}
use sys_programming_explorat.Fds.{Pollfd}
use sys_programming_explorat.Fds.Watch.{fds_of}
use sys_programming_explorat.PollServer.{Network, Server}
use sys_programming_explorat.PollServer.Handlers.{IsFull}

module _ {Str Mem : Type 0} (m : Memory Str Mem) where
  abbrev pub text_of : Option Str → List ℕ
  text_of none = []
  text_of (some s) = m.text s

  -- All messages that were queued, the oldest first.
  abbrev pub posted : MessageQueue Str → List (List ℕ)
  posted mq = map text_of (waiting mq)

-- What is seen of a network: the messages that write(2) did not refuse on a descriptor since it was
-- accepted, and whether the descriptor is open.
module _ {Net : Type 0} (handed : ℤ → Net → List (List ℕ)) (is_open : ℤ → Net → Bool) where
  abbrev pub Kept : Net → Net → ℤ → Type 0
  Kept net net' fd = (handed fd net' ≡ handed fd net) × (is_open fd net' ≡ is_open fd net)

  abbrev pub Same : Net → Net → Type 0
  Same net net' = (fd : ℤ) → Kept net net' fd

  abbrev pub SameBut : ℤ → Net → Net → Type 0
  SameBut fd net net' = (fd' : ℤ) → fd' ≢ fd → Kept net net' fd'

  abbrev pub Takes : ℤ → List ℕ → Net → Option ℕ × Net → Type 0
  Takes fd bs net (none, net') = Same net net'
  Takes fd bs net (some k, net') =
      (handed fd net' ≡ handed fd net ++ (bs ∷ []))
      × (is_open fd net' ≡ is_open fd net)
      × SameBut fd net net'

  -- accept(2) does not fail, and answers a descriptor that is not open.
  abbrev pub Accepts : Net → ℤ × Net → Type 0
  Accepts net (client, net') =
      (is_open client net ≡ false)
      × (is_open client net' ≡ true)
      × (handed client net' ≡ [])
      × SameBut client net net'

  pub record IsNetwork (n : Network Net) : Type 0 where
    pub reads : (fd : ℤ) (size : ℕ) (net : Net) → Same net (n.read fd size net).1
    pub writes : (fd : ℤ) (bs : List ℕ) (net : Net) → Takes fd bs net (n.write fd bs net)
    pub closes : (fd : ℤ) (net : Net) → SameBut fd net (n.close fd net)
    pub accepts : (fd : ℤ) (net : Net) → Accepts net (n.accept fd net)
    pub polls : (fds : List Pollfd) (net : Net) → Same net (n.ppoll fds net).1
    pub keeps_fds :
        (fds fds' : List Pollfd) (net : Net)
        → (n.ppoll fds net).0 ≡ some fds'
        → fds_of fds' ≡ fds_of fds
    -- Negative numbers are not descriptors.
    pub signed : (k : ℕ) (net : Net) → is_open (negsuc k) net ≡ false

  -- Of a log of messages, a client has been handed those before its offset.
  abbrev pub IsClient : Net → List (List ℕ) → Client → Type 0
  IsClient net log c =
      (c.roff ≤ length log) × (handed c.fd net ≡ take c.roff log) × (is_open c.fd net ≡ true)

  -- All clients, which have descriptors of their own.
  abbrev pub AllClients : Net → List (List ℕ) → List Client → Type 0
  AllClients net log = Each (IsClient net log)

  module _ {Str Mem : Type 0} (m : Memory Str Mem) where
    -- A queue with room, from which nothing was taken.
    pub record Delivered (net : Net) (mq : MessageQueue Str) : Type 0 where
      pub valid : IsValid mq
      pub aligned : IsAligned mq.start mq.end
      pub first : first_offset mq ≡ 0
      pub room : mq.start ≢ some mq.end
      pub clients : AllClients net (posted m mq) mq.clients

    abbrev pub DeliveredIn : Net → Option (MessageQueue Str) → Type 0
    DeliveredIn net none = Unit {0}
    DeliveredIn net (some mq) = Delivered net mq

    -- The queue is full, or was so far delivered from.
    abbrev pub IsGood : Server Str Mem Net → Type 0
    IsGood s = IsFull s.mq ⊎ DeliveredIn s.net s.mq
