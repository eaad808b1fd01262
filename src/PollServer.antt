-- ===== src/PollServer.antt =====
-- tcp/polling/poll_server_impl.c: the handlers of the chat server, and one round of its loop.
-- read(2), accept(2), close(2) and ppoll(2) act on a network that is a parameter, with write(2).
pub mod Handlers
pub mod Rounds
pub mod Ready
pub mod Invariants
pub mod Walk
pub mod Main
pub mod Sound
pub mod Endless
pub mod Delivery
pub mod Table
pub mod Sample
mod Tests
use sys_programming_explorat.Base.{
  ℕ, zero, suc, ◌+◌, ◌*◌, List, [], ◌∷◌, Bool, true, false, ◌||◌, Option, none, some, if◌then◌else◌,
  length, get_elem?, ℤ, drop,
}
use sys_programming_explorat.MessageQueue
use sys_programming_explorat.MessageQueue.{
  MessageQueue, Memory, Writer, Status, done, mqerr_full, mqerr_message_too_long,
  mqerr_null_pointer, mqerr_alloc_fail, failed, max_message_length,
}
use sys_programming_explorat.MessageQueue.Nullable
use sys_programming_explorat.Fds
use sys_programming_explorat.Fds.{Events, Pollfd, Fds, watch, unwatch}

-- What read(2) answers: bytes (none at end of file), or -1.
pub data Received : Type 0 where
  got : List ℕ → Received
  read_error : Received

pub record Network (Net : Type 0) : Type 0 where
  pub read : ℤ → ℕ → Net → Received × Net
  pub write : Writer Net
  pub close : ℤ → Net → Net
  -- The descriptor of a new connection; negative if accept(2) fails.
  pub accept : ℤ → Net → ℤ × Net
  -- The events of each descriptor that is polled; `none` for -1.
  pub ppoll : List Pollfd → Net → Option (List Pollfd) × Net

-- What a handler returns: 0, or a negative code. `exits` stands for err_exit.
pub data Code : Type 0 where
  zero_code minus_1 minus_2 minus_3 minus_55 exits : Code

-- What the handlers share: the polled descriptors, the queue (NULL if it could not be made), the
-- memory and the network.
pub record Server (Str Mem Net : Type 0) : Type 0 where
  pub fdstate : Fds
  pub mq : Option (MessageQueue Str)
  pub mem : Mem
  pub net : Net

-- What one round of `while (1)` leads to: another round, the end of the loop, or the end of the
-- process in err_exit. A flush whose fuel is not enough counts as the latter.
pub data Round (Str Mem Net : Type 0) : Type 0 where
  continues : Server Str Mem Net → Round Str Mem Net
  stops : Server Str Mem Net → Round Str Mem Net
  exited : Round Str Mem Net

-- MAX_NUM_OF_CLIENTS
abbrev pub max_num_of_clients : ℕ
max_num_of_clients = 64000

-- The tests of `mq_err` behind the one for MQERR_FULL.
pub last_tests : Status → Code
last_tests mqerr_alloc_fail = minus_3
last_tests mqerr_message_too_long = exits
last_tests done = zero_code
last_tests mqerr_full = zero_code
last_tests mqerr_null_pointer = zero_code
last_tests failed = zero_code

pub retry_tests : Status → Code
retry_tests mqerr_full = minus_55
retry_tests status = last_tests status

module _ {Str Mem Net : Type 0} (m : Memory Str Mem) (n : Network Net) where
  -- What a handler does for a client that is gone.
  pub disconnect : ℤ → Server Str Mem Net → Server Str Mem Net
  disconnect clientfd s =
      let (_, mq, mem) = Nullable.unregister_client m s.mq clientfd s.mem in
      record s {
        fdstate = unwatch s.fdstate clientfd;
        mq = mq;
        mem = mem;
        net = n.close clientfd s.net;
      }

  abbrev pub enqueue : List ℕ → Server Str Mem Net → Status × Server Str Mem Net
  enqueue msg s =
      let (status, mq, mem) = Nullable.q m s.mq msg s.mem in
      (status, record s { mq = mq; mem = mem })

  abbrev pub drop_slow : Server Str Mem Net → Server Str Mem Net
  drop_slow s =
      let (mq, mem) = Nullable.drop_slow_consumers m s.mq s.mem in record s { mq = mq; mem = mem }

  -- The tests of `mq_err` behind `message_queue__q`, with the retry where the queue is full.
  pub after_q :
      Status → Server Str Mem Net → Status × Server Str Mem Net → Code × Server Str Mem Net
  after_q mqerr_null_pointer s again = (minus_2, s)
  after_q mqerr_full s (status, s') = (retry_tests status, s')
  after_q mqerr_alloc_fail s again = (last_tests mqerr_alloc_fail, s)
  after_q mqerr_message_too_long s again = (last_tests mqerr_message_too_long, s)
  after_q done s again = (last_tests done, s)
  after_q failed s again = (last_tests failed, s)

  -- From `message_queue__q` on, with the bytes that were read.
  pub handle_message : List ℕ → Server Str Mem Net → Code × Server Str Mem Net
  handle_message msg s =
      let (status, s') = enqueue msg s in after_q status s' (enqueue msg (drop_slow s'))

  pub handle_read : ℤ → Received → Server Str Mem Net → Code × Server Str Mem Net
  handle_read clientfd read_error s = (zero_code, disconnect clientfd s)
  handle_read clientfd (got []) s = (zero_code, disconnect clientfd s)
  handle_read clientfd (got (b ∷ bs)) s = handle_message (b ∷ bs) s

  unfoldable pub handle_client_event : Pollfd → Server Str Mem Net → Code × Server Str Mem Net
  unfolding handle_read handle_message after_q retry_tests last_tests disconnect
  handle_client_event event s =
      let (received, net) = n.read event.fd max_message_length s.net in
      if event.revents.pollin
      then handle_read event.fd received (record s { net = net })
      else if event.revents.pollhup || event.revents.pollrdhup
      then (zero_code, disconnect event.fd s)
      else (zero_code, s)

  -- The branch of POLLIN; `none` where the handler goes on. The descriptor is not tested for -1.
  pub welcome : ℤ → Server Str Mem Net → Option Code × Server Str Mem Net
  welcome client_fd s =
      let (watched, fdstate) = watch s.fdstate client_fd in
      let (status, mq, mem) = Nullable.register_client m s.mq client_fd s.mem in
      if watched
      then (
        elim status [ failed ↦ some minus_3 | _ ↦ none ],
        record s { fdstate = fdstate; mq = mq; mem = mem },
      )
      else (some minus_2, record s { fdstate = fdstate })

  unfoldable pub handle_server_event : Pollfd → Server Str Mem Net → Code × Server Str Mem Net
  unfolding welcome
  handle_server_event event s =
      let (client_fd, net) = n.accept event.fd s.net in
      let (code, s') = welcome client_fd (record s { net = net }) in
      if event.revents.pollerr || event.revents.pollnval
      then (minus_1, s)
      else if event.revents.pollin
      then (elim code [ none ↦ zero_code | some c ↦ c ], s')
      else (zero_code, s)

  -- The process ends in err_exit, or goes on.
  pub unless_exits : Code → Option (Server Str Mem Net) → Option (Server Str Mem Net)
  unless_exits exits rest = none
  unless_exits zero_code rest = rest
  unless_exits minus_1 rest = rest
  unless_exits minus_2 rest = rest
  unless_exits minus_3 rest = rest
  unless_exits minus_55 rest = rest

  -- `for (i = 1; i < length; i++) handle_client_event(fds + i)`: the length is read anew each time,
  -- since a handler may take entries out. `none`: the process has ended in err_exit.
  pub client_events : ℕ → ℕ → Server Str Mem Net → Option (Server Str Mem Net)
  client_events zero i s = some s
  client_events (suc fuel) i s = elim (get_elem? s.fdstate.fds i) [
    | none ↦ some s
    | some event ↦
        let (code, s') = handle_client_event event s in
        unless_exits code (client_events fuel (i + 1) s')
  ]

  -- `for (i = 1; …) message_queue__flush(mq, fds[i].fd)`; a flush that fails is passed over.
  pub flush_all : List Pollfd → Server Str Mem Net → Option (Server Str Mem Net)
  flush_all [] s = some s
  flush_all (p ∷ ps) s = elim (Nullable.flush m n.write s.mq p.fd s.net) [
    | none ↦ none
    | some (_, mq, net) ↦ flush_all ps (record s { mq = mq; net = net })
  ]

  pub round_clients : Server Str Mem Net → Round Str Mem Net
  round_clients s = elim (client_events (length s.fdstate.fds) 1 s) [
    | none ↦ exited
    | some s' ↦ elim (flush_all (drop 1 s'.fdstate.fds) s') [
      | none ↦ exited
      | some s'' ↦ continues s''
    ]
  ]

  -- -1 ends the loop.
  pub unless_minus_1 : Code → Server Str Mem Net → Round Str Mem Net → Round Str Mem Net
  unless_minus_1 minus_1 s rest = stops s
  unless_minus_1 zero_code s rest = rest
  unless_minus_1 minus_2 s rest = rest
  unless_minus_1 minus_3 s rest = rest
  unless_minus_1 minus_55 s rest = rest
  unless_minus_1 exits s rest = rest

  -- The events of entry 0, the server's, are handled first. It is there: see `start`.
  pub round_events : List Pollfd → Server Str Mem Net → Round Str Mem Net
  round_events [] s = stops s
  round_events (event ∷ events) s =
      let (code, s') = handle_server_event event s in unless_minus_1 code s' (round_clients s')

  -- One round of `while (1)`.
  unfoldable pub round : Server Str Mem Net → Round Str Mem Net
  unfolding round_events unless_minus_1 round_clients client_events unless_exits flush_all
  round s =
      let (polled, net) = n.ppoll s.fdstate.fds s.net in
      elim polled [
        | none ↦ stops (record s { net = net })
        | some fds ↦
            round_events fds (record s { fdstate = record s.fdstate { fds = fds }; net = net })
      ]

  -- The lines before the loop; `none` is err_exit in fds_state__init.
  unfoldable pub start : ℤ → Mem → Net → Option (Bool × Server Str Mem Net)
  start server_fd mem net =
      let (mq, mem') = MessageQueue.init m max_num_of_clients mem in
      let (made, mem'') = Fds.init m.malloc m.free mem' in
      elim made [
        | none ↦ none
        | some fresh ↦
            let (watched, fdstate) = watch fresh server_fd in
            some (watched, record { fdstate = fdstate; mq = mq; mem = mem''; net = net })
      ]

  -- At most `rounds` rounds; a server that stopped or exited stays so.
  unfoldable pub serve : ℕ → Server Str Mem Net → Round Str Mem Net
  serve zero s = continues s
  serve (suc rounds) s = elim (round s) [
    | continues s' ↦ serve rounds s'
    | stops s' ↦ stops s'
    | exited ↦ exited
  ]
