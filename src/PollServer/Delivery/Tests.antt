-- ===== src/PollServer/Delivery/Tests.antt =====
-- A run of the server from its start on, with what its clients are handed.
use sys_programming_explorat.Base.{
  ℕ, ◌≡◌, refl, ap, arith, length, List, [], ◌∷◌, pos, ◌==◌, some, true,
}
use sys_programming_explorat.PollServer
use sys_programming_explorat.Fds
use sys_programming_explorat.MessageQueue
use sys_programming_explorat.MessageQueue.Nullable
use sys_programming_explorat.PollServer.{Server, Round, continues, stops, exited, serve, start}
use sys_programming_explorat.PollServer.Sample.{plain}
use sys_programming_explorat.PollServer.Delivery.Wire.{
  Wire, log_of, is_up, heard_of, wired, wired-IsNetwork, wired-IsHearing, wired-ReadsWithin,
  wired-PollsQuietly, plain-KeepsTexts,
}
use sys_programming_explorat.PollServer.Delivery.Broadcast.{AllHaveHeard, serve-broadcasts}
use sys_programming_explorat.PollServer.Table.{TableOf}
use sys_programming_explorat.PollServer.Table.Progress.{serve-continues}
use sys_programming_explorat.PollServer.Table.Start.{serve-IsTable}

-- The listening descriptor is 3.
abbrev listening : Wire
listening = record { next = 4; opened = λ k. k == 3; log = λ x. []; heard = [] }

abbrev started : Server (List ℕ) ℕ Wire
started = record {
  fdstate = (Fds.watch Fds.empty (pos 3)).1;
  mq = (MessageQueue.init plain 64000 0).0;
  mem = 0;
  net = listening;
}

started-start : start plain wired (pos 3) 0 listening ≡ some (true, started)
unfolding start Fds.init Fds.watch Fds.empty MessageQueue.init
started-start = refl

abbrev state_of : Round (List ℕ) ℕ Wire → Server (List ℕ) ℕ Wire
state_of (continues s) = s
state_of (stops s) = s
state_of exited = started

-- Behind three rounds: three connections were accepted, and the first two of them have sent bytes.
abbrev three_rounds : Server (List ℕ) ℕ Wire
three_rounds = state_of (serve plain wired 3 started)

abbrev GoesOn : Round (List ℕ) ℕ Wire → Type 0
GoesOn (continues s) = Unit {0}
GoesOn (stops s) = ⊥
GoesOn exited = ⊥

continues_of : (r : Round (List ℕ) ℕ Wire) → GoesOn r → r ≡ continues (state_of r)
continues_of (continues s) goes_on = refl
continues_of (stops s) goes_on = absurd goes_on
continues_of exited goes_on = absurd goes_on

three_rounds-GoesOn : GoesOn (serve plain wired 3 started)
unfolding serve PollServer.round PollServer.handle_server_event PollServer.handle_client_event
    Fds.empty Fds.watch Nullable.register_client MessageQueue.register_client Nullable.q
    MessageQueue.q Nullable.drop_slow_consumers MessageQueue.drop_slow_consumers Nullable.flush
    MessageQueue.flush MessageQueue.init MessageQueue.store
three_rounds-GoesOn = tt

serve-three_rounds : serve plain wired 3 started ≡ continues three_rounds
serve-three_rounds = continues_of (serve plain wired 3 started) three_rounds-GoesOn

-- The first client sent twice, and then the second one once.
abbrev sent : List (List ℕ)
sent = (4 ∷ []) ∷ (4 ∷ []) ∷ (5 ∷ []) ∷ []

three_rounds-heard : heard_of three_rounds.net ≡ sent
unfolding serve PollServer.round PollServer.handle_server_event PollServer.handle_client_event
    Fds.empty Fds.watch Nullable.register_client MessageQueue.register_client Nullable.q
    MessageQueue.q Nullable.drop_slow_consumers MessageQueue.drop_slow_consumers Nullable.flush
    MessageQueue.flush MessageQueue.init MessageQueue.store
three_rounds-heard = refl

-- All three clients have been handed this.
three_rounds-handed :
    (log_of (pos 4) three_rounds.net ≡ sent)
    × (log_of (pos 5) three_rounds.net ≡ sent)
    × (log_of (pos 6) three_rounds.net ≡ sent)
unfolding serve PollServer.round PollServer.handle_server_event PollServer.handle_client_event
    Fds.empty Fds.watch Nullable.register_client MessageQueue.register_client Nullable.q
    MessageQueue.q Nullable.drop_slow_consumers MessageQueue.drop_slow_consumers Nullable.flush
    MessageQueue.flush MessageQueue.init MessageQueue.store
three_rounds-handed = (refl, refl, refl)

serve-broadcasts_example :
    AllHaveHeard plain wired log_of is_up wired-IsNetwork heard_of wired-IsHearing plain-KeepsTexts
      wired-ReadsWithin three_rounds.net three_rounds.mq
serve-broadcasts_example =
    serve-broadcasts plain wired log_of is_up wired-IsNetwork heard_of wired-IsHearing
      plain-KeepsTexts wired-ReadsWithin 2 (pos 3) 0 listening true started three_rounds refl refl
      started-start serve-three_rounds (omega (arith, ap length three_rounds-heard))

serve-IsTable_example : TableOf is_up (pos 3) three_rounds
serve-IsTable_example =
    serve-IsTable plain wired log_of is_up wired-IsNetwork 3 (pos 3) 0 listening true started
      three_rounds refl started-start serve-three_rounds

serve-continues_example : (s : Server (List ℕ) ℕ Wire) × (serve plain wired 5 started ≡ continues s)
serve-continues_example =
    serve-continues plain wired log_of is_up wired-IsNetwork (pos 3) wired-PollsQuietly
      wired-ReadsWithin 5 0 listening true started refl started-start
