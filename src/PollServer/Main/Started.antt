-- ===== src/PollServer/Main/Started.antt =====
-- What the chat server does up to its first round, and behind its last one.
use sys_programming_explorat.Base.{
  Bool, ℕ, ◌<◌, ◌≡◌, ◌⊎◌, List, [], ◌∷◌, Option, none, some, ℤ, pos,
}
use sys_programming_explorat.Posix.{History, System, M}
use sys_programming_explorat.Port.{chat_port_of_args}
use sys_programming_explorat.Port.Decimal.{strtol}
use sys_programming_explorat.ListenSocket.{get_listening_socket}
use sys_programming_explorat.ListenSocket.Ownership.{Listening}
use sys_programming_explorat.Fds.{no_events}
use sys_programming_explorat.MessageQueue.{Memory}
use sys_programming_explorat.PollServer.{Network, Code, zero_code, Server, Round, start, serve}
use sys_programming_explorat.PollServer.Main.{poll_server_impl, close_server, main}

module _ {Str Mem Net : Type 0} (m : Memory Str Mem) (n : Network Net) where
  module _ (sys : System) (rounds : ℕ) (argv : List (List ℕ)) (mem : Mem) (net : Net)
      (h : History) where
    abbrev run : Option (Code × Round Str Mem Net) × History
    run = main m n sys rounds argv mem net h

    -- No socket is asked for, or none is had, or fds_state__init is denied a block: the process
    -- ends.
    abbrev pub NotStarted : Type 0
    NotStarted =
        ((chat_port_of_args argv ≡ none) × (run ≡ (none, h)))
        ⊎ ((port : List ℕ) × (portno : ℤ) × (h' : History) × (chat_port_of_args argv
              ≡ some (port, portno))
            × (get_listening_socket sys port h ≡ (none, h'))
            × (run ≡ (none, h')))
        ⊎ ((port : List ℕ) × (portno : ℤ) × (server_fd : ℤ) × (h' : History) × (chat_port_of_args
                argv
              ≡ some (port, portno))
            × (get_listening_socket sys port h ≡ (some server_fd, h'))
            × (start m n server_fd mem net ≡ none)
            × (run ≡ (none, h')))

    -- The rounds begin with one polled descriptor, which listens, for a port that was given in
    -- full.
    abbrev pub Started : Type 0
    Started =
        (port : List ℕ) × (number : ℕ) × (server_fd : ℤ) × (h' : History) × (watched : Bool)
        × (first : Server Str Mem Net) × (strtol port ≡ (pos number, []))
        × (1024 < number)
        × (number < 65535)
        × (get_listening_socket sys port h ≡ (some server_fd, h'))
        × Listening sys (some server_fd, h')
        × (start m n server_fd mem net ≡ some (watched, first))
        × (first.fdstate.fds ≡ record { fd = server_fd; revents = no_events } ∷ [])
        × (run ≡ close_server m n server_fd (zero_code, serve m n rounds first) h')

    abbrev serving : ℤ → M (Code × Round Str Mem Net)
    serving server_fd = close_server m n server_fd (poll_server_impl m n rounds server_fd mem net)
