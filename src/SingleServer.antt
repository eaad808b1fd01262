-- ===== src/SingleServer.antt =====
-- tcp/single_connection/single_connection_server.c: one connection at a time is sent back what it
-- sends. The address that is printed when a connection ends is left out.
pub mod Echo
mod Tests
use sys_programming_explorat.Base.{
  ℕ, zero, suc, List, [], ◌∷◌, Bool, true, false, Option, none, some, if◌then◌else◌, ℤ,
}
use sys_programming_explorat.Posix.{
  Received, got, recv_error, Event, History, System, M, ◌>>=◌, ◌>>◌, pure, exit, perform, call,
  is_minus_1,
}
use sys_programming_explorat.ListenSocket.{start_single_server}
use sys_programming_explorat.Port.{port_of_args, print_port}
use sys_programming_explorat.EchoServer.{receive, send_bytes}

-- "hello\n"
abbrev pub hello : List ℕ
hello = 104 ∷ 101 ∷ 108 ∷ 108 ∷ 111 ∷ 10 ∷ []

module _ (sys : System) where
  -- What follows recv; `again` is the rest of the loop. A send that fails is passed over, and where
  -- recv fails the descriptor is not closed.
  pub send_back : M Bool → ℤ → Received → M Bool
  send_back again client_socketfd recv_error = pure true
  send_back again client_socketfd (got []) = perform (Event.close client_socketfd) >> pure true
  send_back again client_socketfd (got (b ∷ bs)) = send_bytes sys client_socketfd (b ∷ bs) >> again

  -- The inner `while (1)`, at most `fuel` rounds; `false` means that it goes on behind them.
  unfoldable pub serve_connection : ℕ → ℤ → M Bool
  unfolding send_back
  serve_connection zero client_socketfd = pure false
  serve_connection (suc fuel) client_socketfd =
      receive sys client_socketfd
      >>= send_back (serve_connection fuel client_socketfd) client_socketfd

  pub greet : ℕ → ℤ → M Bool
  greet fuel client_socketfd =
      send_bytes sys client_socketfd hello >> serve_connection fuel client_socketfd

  -- One round of the outer `while (1)`. Where accept fails, the process ends.
  unfoldable pub accept_connection : ℕ → ℤ → M Bool
  unfolding greet
  accept_connection fuel socketfd = do
    client_socketfd ← call (Event.accept socketfd) (λ h. sys.accepts h socketfd)
    if is_minus_1 client_socketfd
        then perform Event.freeaddrinfo >> perform (Event.close socketfd) >> exit
        else greet fuel client_socketfd

  -- Rounds one after another; a connection that goes on behind its `fuel` ends the run.
  unfoldable pub accept_rounds : ℕ → ℕ → ℤ → M Bool
  accept_rounds fuel zero socketfd = pure true
  accept_rounds fuel (suc rounds) socketfd = do
    ended ← accept_connection fuel socketfd
    if ended then accept_rounds fuel rounds socketfd else pure false

  -- server_loop and main
  unfoldable pub server_loop : ℕ → ℕ → ℕ → M Bool
  server_loop fuel rounds portno1 =
      start_single_server sys (print_port portno1) >>= accept_rounds fuel rounds

  unfoldable pub main : ℕ → ℕ → List (List ℕ) → M Bool
  main fuel rounds argv = elim (port_of_args argv) [
    | none ↦ exit
    | some port ↦ server_loop fuel rounds port
  ]
