-- ===== src/ListenSocket.antt =====
-- How the TCP servers come by the socket that they accept on: get_tcp_server_socket of
-- tcp/polling/utils.c, its version in tcp/pthreads/tcp_pthread.c with the listen of its caller, and
-- the first part of server_loop in tcp/single_connection/single_connection_server.c.
pub mod Ownership
pub mod Single
pub mod Sample
mod Tests
use sys_programming_explorat.Base.{
  ℕ, List, [], ◌∷◌, Bool, true, false, Option, none, some, if◌then◌else◌, ℤ, negsuc,
}
use sys_programming_explorat.Posix.{
  Event, History, System, M, ◌>>=◌, ◌>>◌, pure, exit, perform, call, is_positive, is_negative,
}

-- SOMAXCONN
abbrev pub somaxconn : ℕ
somaxconn = 4096

module _ (sys : System) where
  or_exit : Option (List ℕ) → M (List ℕ)
  or_exit none = exit
  or_exit (some servinfo) = pure servinfo

  -- getaddrinfo for a port; the process ends where it fails.
  pub resolve : List ℕ → M (List ℕ)
  unfolding or_exit
  resolve port = do
    resolved ← call (Event.getaddrinfo port) (λ h. sys.resolves h port)
    or_exit resolved

  pub open_socket : ℕ → M ℤ
  open_socket addr = call (Event.socket addr) (λ h. sys.opens h addr)

  pub bind_socket : ℤ → ℕ → M Bool
  bind_socket socketfd addr = call (Event.bind socketfd addr) (λ h. sys.binds h socketfd addr)

  unfoldable pub listen_socket : ℤ → ℕ → M Bool
  listen_socket socketfd backlog =
      call (Event.listen socketfd backlog) (λ h. sys.listens h socketfd)

  -- `socketfd` and `validaddr` behind the loop over the addresses; `none` is a NULL `validaddr`.
  pub find_address : List ℕ → ℤ → M (ℤ × Option ℕ)
  find_address [] socketfd = pure (socketfd, none)
  find_address (addr ∷ servinfo) socketfd = do
    opened ← open_socket addr
    let later = find_address servinfo opened
    if is_positive opened
        then perform (Event.setsockopt opened) >> pure (opened, some addr)
        else later

  -- What follows the loop: no address, or bind on the one that was found.
  pub bind_found : ℤ × Option ℕ → M ℤ
  bind_found (socketfd, none) = perform Event.freeaddrinfo >> exit
  bind_found (socketfd, some addr) = do
    bound ← bind_socket socketfd addr
    if bound
        then perform Event.freeaddrinfo >> pure socketfd
        else perform Event.freeaddrinfo >> exit

  -- The part that utils.c and tcp_pthread.c share, up to the freeaddrinfo behind bind.
  pub bind_address : List ℕ → M ℤ
  bind_address port = do
    servinfo ← resolve port
    found ← find_address servinfo (negsuc 0)
    bind_found found

  -- get_tcp_server_socket of tcp/polling/utils.c
  unfoldable pub get_listening_socket : List ℕ → M ℤ
  unfolding bind_address bind_found resolve find_address open_socket bind_socket listen_socket
  get_listening_socket port = do
    socketfd ← bind_address port
    listening ← listen_socket socketfd somaxconn
    if listening then pure socketfd else exit

  -- get_tcp_server_socket of tcp_pthread.c
  unfoldable pub get_tcp_server_socket : List ℕ → M ℤ
  unfolding bind_address bind_found resolve find_address open_socket bind_socket
  get_tcp_server_socket port = do
    socketfd ← bind_address port
    if is_negative socketfd then perform Event.freeaddrinfo >> exit else pure socketfd

  -- The loop of the single-connection server sets no option.
  pub find_plain_address : List ℕ → ℤ → M (ℤ × Option ℕ)
  find_plain_address [] socketfd = pure (socketfd, none)
  find_plain_address (addr ∷ servinfo) socketfd = do
    opened ← open_socket addr
    let later = find_plain_address servinfo opened
    if is_positive opened then pure (opened, some addr) else later

  pub listen_single : ℤ → M ℤ
  listen_single socketfd = do
    listening ← listen_socket socketfd 1
    if listening then pure socketfd else exit

  pub bind_single : ℤ → ℕ → M ℤ
  bind_single socketfd addr = do
    bound ← bind_socket socketfd addr
    if bound then listen_single socketfd else perform Event.freeaddrinfo >> exit

  pub bind_plain : ℤ × Option ℕ → M ℤ
  bind_plain (socketfd, validaddr) =
      if is_negative socketfd then perform Event.freeaddrinfo >> exit else elim validaddr [
        | none ↦ perform Event.freeaddrinfo >> exit
        | some addr ↦ bind_single socketfd addr
      ]

  -- server_loop of the single-connection server, up to its first accept.
  unfoldable pub start_single_server : List ℕ → M ℤ
  unfolding resolve find_plain_address open_socket bind_socket listen_single listen_socket
      bind_plain bind_single
  start_single_server port = do
    servinfo ← resolve port
    found ← find_plain_address servinfo (negsuc 0)
    bind_plain found
