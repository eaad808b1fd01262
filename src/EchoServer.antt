-- ===== src/EchoServer.antt =====
-- tcp/pthreads/tcp_pthread.c: a server that sends back what it receives, with a thread or a process
-- for each client. The attributes of a thread, and the line printed for each connection, are left
-- out.
pub mod Echo
pub mod Accounts
mod Tests
use sys_programming_explorat.Base.{
  ℕ, zero, suc, List, [], ◌∷◌, Bool, true, false, Option, none, some, if◌then◌else◌, ℤ,
}
use sys_programming_explorat.Posix.{
  Received, got, recv_error, Event, History, System, M, ◌>>=◌, ◌>>◌, pure, exit, perform, call,
  is_minus_1, is_zero,
}
use sys_programming_explorat.ListenSocket.{get_tcp_server_socket, listen_socket, somaxconn}
use sys_programming_explorat.Port.{port_of_args, print_port}

module _ (sys : System) where
  abbrev pub receive : ℤ → M Received
  receive fd = call (Event.recv fd) (λ h. sys.receives h fd)

  abbrev pub send_bytes : ℤ → List ℕ → M (Option ℕ)
  send_bytes fd bs = call (Event.send fd bs) (λ h. sys.sends h fd bs)

  -- What follows send; `again` is the rest of the loop. A send to a peer that is gone answers -1,
  -- as it does where SIGPIPE is ignored.
  pub after_send : M Bool → Option ℕ → M Bool
  after_send again none = pure true
  after_send again (some n) = again

  -- What follows recv.
  pub send_back : M Bool → ℤ → Received → M Bool
  send_back again client_socketfd recv_error = pure true
  send_back again client_socketfd (got []) = pure true
  send_back again client_socketfd (got (b ∷ bs)) =
      send_bytes client_socketfd (b ∷ bs) >>= after_send again

  -- `while (1)`, at most `fuel` rounds; `false` means that it goes on behind them.
  unfoldable pub handle_client_request : ℕ → ℤ → M Bool
  unfolding send_back after_send
  handle_client_request zero client_socketfd = pure false
  handle_client_request (suc fuel) client_socketfd =
      receive client_socketfd
      >>= send_back (handle_client_request fuel client_socketfd) client_socketfd

  -- A request, and close behind its end.
  close_after : ℤ → Bool → M Bool
  close_after client_socketfd true = perform (Event.close client_socketfd) >> pure true
  close_after client_socketfd false = pure false

  -- The thread of a client, which frees its arguments first.
  unfoldable pub thread_worker : ℕ → ℤ → M Bool
  unfolding close_after
  thread_worker fuel csockfd =
      perform Event.free >> handle_client_request fuel csockfd >>= close_after csockfd

  child : Bool → M (Unit {0})
  child true = exit
  child false = pure tt

  -- In the process that goes on behind fork: the child (answer 0), or the parent.
  unfoldable pub fork_server_impl : ℕ → ℤ → ℤ → M (Unit {0})
  unfolding child close_after
  fork_server_impl fuel server_socketfd client_socketfd = do
    pid ← call Event.fork (λ h. sys.forks h)
    if is_zero pid
        then perform (Event.close server_socketfd)
          >> handle_client_request fuel client_socketfd
          >>= close_after client_socketfd
          >>= child
        else perform (Event.close client_socketfd)

  pub create_thread : ℤ → M (Unit {0})
  create_thread client_socketfd = do
    created ← call (Event.pthread_create client_socketfd) (λ h. sys.creates h client_socketfd)
    if created then pure tt else perform Event.free >> perform (Event.close client_socketfd)

  unfoldable pub pthread_impl : ℤ → M (Unit {0})
  unfolding create_thread
  pthread_impl client_socketfd = do
    granted ← call Event.malloc (λ h. sys.grants h)
    if granted then create_thread client_socketfd else pure tt

  -- One round of the loop of server_loop.
  unfoldable pub accept_client : ℤ → M (Unit {0})
  unfolding pthread_impl
  accept_client socketfd = do
    client_socketfd ← call (Event.accept socketfd) (λ h. sys.accepts h socketfd)
    if is_minus_1 client_socketfd then pure tt else pthread_impl client_socketfd

  unfoldable pub accept_rounds : ℕ → ℤ → M (Unit {0})
  accept_rounds zero socketfd = pure tt
  accept_rounds (suc rounds) socketfd = accept_client socketfd >> accept_rounds rounds socketfd

  -- server_loop, for a number of rounds.
  unfoldable pub server_loop : ℕ → ℕ → M (Unit {0})
  unfolding listen_socket
  server_loop rounds portno1 = do
    socketfd ← get_tcp_server_socket sys (print_port portno1)
    listening ← listen_socket sys socketfd somaxconn
    if listening then accept_rounds rounds socketfd else exit

  unfoldable pub main : ℕ → List (List ℕ) → M (Unit {0})
  main rounds argv = elim (port_of_args argv) [ none ↦ exit | some port ↦ server_loop rounds port ]
