-- ===== src/PollServer/Main.antt =====
-- poll_server_impl as a whole, and tcp/polling/main.c: from the arguments to the rounds of the
-- chat server. Usage and log lines are left out, and so is the freeing of the descriptors.
pub mod Started
mod Tests
use sys_programming_explorat.Base.{
  ℕ, ◌<◌, ◌≡◌, ◌⊎◌, inl, inr, refl, sym, ap, ◌∙◌, List, [], ◌∷◌, Bool, true, false, Option, none,
  some, ℤ, pos, negsuc, arith, if◌then◌else◌,
}
use sys_programming_explorat.Posix.{
  Event, History, System, M, ◌>>=◌, ◌>>◌, >>=-some, >>=-none, pure, exit, perform,
}
use sys_programming_explorat.Port.{chat_port_of_args}
use sys_programming_explorat.Port.Decimal.{strtol}
use sys_programming_explorat.Port.Range.{chat_port_of_args-some}
use sys_programming_explorat.ListenSocket.{get_listening_socket}
use sys_programming_explorat.ListenSocket.Ownership.{Listening, get_listening_socket-Listening}
use sys_programming_explorat.Fds
use sys_programming_explorat.Fds.{Pollfd, no_events, watch}
use sys_programming_explorat.MessageQueue.{Memory}
use sys_programming_explorat.PollServer.{
  Network, Code, zero_code, minus_1, exits, Server, Round, continues, stops, exited, start, serve,
}

module _ {Str Mem Net : Type 0} (m : Memory Str Mem) (n : Network Net) where
  -- What follows `start`.
  unfoldable pub answered : ℕ → Option (Bool × Server Str Mem Net) → Code × Round Str Mem Net
  answered rounds none = (exits, exited)
  answered rounds (some (watched, s)) =
      let served = serve m n rounds s in if watched then (zero_code, served) else (minus_1, stops s)

  -- The code that is returned where the rounds end, and how they end.
  unfoldable pub poll_server_impl : ℕ → ℤ → Mem → Net → Code × Round Str Mem Net
  unfolding answered
  poll_server_impl rounds server_fd mem net = answered rounds (start m n server_fd mem net)

  -- The close behind poll_server_impl, where that returns.
  pub close_server : ℤ → Code × Round Str Mem Net → M (Code × Round Str Mem Net)
  close_server server_fd (code, continues s) = pure (code, continues s)
  close_server server_fd (code, stops s) = perform (Event.close server_fd) >> pure (code, stops s)
  close_server server_fd (code, exited) = exit

  -- What follows the checks of the arguments.
  pub from_port : System → ℕ → Mem → Net → Option (List ℕ × ℤ) → M (Code × Round Str Mem Net)
  from_port sys rounds mem net none = exit
  from_port sys rounds mem net (some (port, portno)) =
      get_listening_socket sys port >>= λ server_fd.
      close_server server_fd (poll_server_impl rounds server_fd mem net)

  -- At most `rounds` rounds of the loop.
  unfoldable pub main : System → ℕ → List (List ℕ) → Mem → Net → M (Code × Round Str Mem Net)
  unfolding poll_server_impl close_server from_port
  main sys rounds argv mem net = from_port sys rounds mem net (chat_port_of_args argv)
