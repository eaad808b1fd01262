-- ===== src/PollServer/Tests.antt =====
-- Runs of the server at small inputs.
use sys_programming_explorat.Base.{
  true, take, length-take, ℕ, ◌≡◌, refl, List, [], ◌∷◌, some, pos, arith,
}
use sys_programming_explorat.PollServer
use sys_programming_explorat.Fds
use sys_programming_explorat.MessageQueue
use sys_programming_explorat.MessageQueue.Nullable
use sys_programming_explorat.MessageQueue.{MessageQueue, Memory, Writer}
use sys_programming_explorat.Fds.{no_events, Pollfd}
use sys_programming_explorat.PollServer.{
  Network, Received, got, Server, Round, continues, Code, minus_55, serve, handle_message,
}
use sys_programming_explorat.PollServer.Sound.{ReadsWithin}
use sys_programming_explorat.PollServer.Endless.{Runs, serve-start-Runs}
use sys_programming_explorat.PollServer.Sample.{plain, readable, busy}
use sys_programming_explorat.PollServer.{client_events}
use sys_programming_explorat.PollServer.Walk.{client_events-enough}
use sys_programming_explorat.PollServer.Handlers.{IsFull}
use sys_programming_explorat.PollServer.Rounds.{serve-IsFull, ring}

-- A queue of three slots, all taken, and one client, which has been sent everything.
abbrev full_server : Server (List ℕ) ℕ ℕ
full_server = record {
  fdstate = record {
    capacity = 8;
    fds =
        record { fd = pos 3; revents = no_events }
        ∷ record { fd = pos 5; revents = no_events }
        ∷ [];
  };
  mq = some (record {
    capacity = 3;
    messages = some (8 ∷ []) ∷ some (9 ∷ []) ∷ some (7 ∷ []) ∷ [];
    start = some 2;
    end = 2;
    clients = record { fd = pos 5; roff = 2 } ∷ [];
  });
  mem = 0;
  net = 0;
}

-- Behind two rounds: two connections were accepted.
abbrev two_rounds : Server (List ℕ) ℕ ℕ
two_rounds = record full_server {
  fdstate = record {
    capacity = 8;
    fds =
        readable (record { fd = pos 3; revents = no_events })
        ∷ readable (record { fd = pos 5; revents = no_events })
        ∷ readable (record { fd = pos 10; revents = no_events })
        ∷ record { fd = pos 11; revents = no_events }
        ∷ [];
  };
  mq = some (record {
    capacity = 3;
    messages = some (8 ∷ []) ∷ some (9 ∷ []) ∷ some (7 ∷ []) ∷ [];
    start = some 2;
    end = 2;
    clients = [];
  });
  net = 2;
}

serve-two_rounds : serve plain busy 2 full_server ≡ continues two_rounds
unfolding serve PollServer.round PollServer.handle_server_event PollServer.handle_client_event
    Fds.watch Nullable.register_client MessageQueue.register_client Nullable.q MessageQueue.q
    Nullable.drop_slow_consumers MessageQueue.drop_slow_consumers Nullable.flush MessageQueue.flush
serve-two_rounds = refl

serve-IsFull_example :
    (ring two_rounds.mq ≡ ring full_server.mq)
    × IsFull two_rounds.mq
    × ((handle_message plain busy (66 ∷ []) two_rounds).0 ≡ minus_55)
serve-IsFull_example =
    serve-IsFull plain busy 2 full_server two_rounds (66 ∷ []) refl serve-two_rounds

client_events-enough_example :
    client_events plain busy 2 1 full_server ≡ client_events plain busy 7 1 full_server
client_events-enough_example =
    client_events-enough plain busy 2 7 1 full_server (omega arith) (omega arith)

-- A network on which every read answers as much of one byte as is asked for.
abbrev chatty : Network ℕ
chatty = record busy { read = λ fd size k. (got (take size (65 ∷ [])), k) }

chatty-ReadsWithin : ReadsWithin plain chatty
chatty-ReadsWithin fd size k = omega (arith, length-take {A = ℕ} size (65 ∷ []))

abbrev chatty_start : Server (List ℕ) ℕ ℕ
chatty_start = record {
  fdstate = (Fds.watch Fds.empty (pos 3)).1;
  mq = (MessageQueue.init plain 64000 0).0;
  mem = 0;
  net = 0;
}

chatty_starts : PollServer.start plain chatty (pos 3) 0 0 ≡ some (true, chatty_start)
unfolding PollServer.start Fds.init Fds.watch Fds.empty MessageQueue.init
chatty_starts = refl

serve-start-Runs_example : Runs plain chatty (serve plain chatty 3 chatty_start)
serve-start-Runs_example =
    serve-start-Runs plain chatty 3 (pos 3) 0 0 true chatty_start chatty-ReadsWithin chatty_starts
