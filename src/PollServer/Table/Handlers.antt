-- ===== src/PollServer/Table/Handlers.antt =====
-- The handlers and the table of descriptors and clients.
use mathlib.Core.List.{Mem, mem-cons_self}
use sys_programming_explorat.Base.{
  ℕ, ◌≡◌, ◌≢◌, inl, inr, refl, sym, subst, List, [], ◌∷◌, ◌||◌, Bool, Option, none, some, ℤ,
  Bool-cases,
}
use sys_programming_explorat.MessageQueue.Nullable
use sys_programming_explorat.MessageQueue.{
  done, mqerr_full, mqerr_message_too_long, mqerr_null_pointer, mqerr_alloc_fail, failed,
  max_message_length, MessageQueue, Memory, Status,
}
use sys_programming_explorat.MessageQueue.Flush.{NoClient}
use sys_programming_explorat.MessageQueue.Clients.{Each, Each-NoClient}
use sys_programming_explorat.MessageQueue.Keeps.{q-clients, drop_slow_consumers-Each}
use sys_programming_explorat.Fds.{Pollfd, watch}
use sys_programming_explorat.Fds.Watch.{fds_of}
use sys_programming_explorat.PollServer.{
  drop_slow, Network, Received, got, read_error, Server, disconnect, after_q, handle_message,
  handle_read, handle_client_event, welcome, handle_server_event,
}
use sys_programming_explorat.PollServer.Delivery.{Accepts, IsNetwork}
use sys_programming_explorat.PollServer.Table.Operations.{
  Table, Table-Same, Table-clients, Table-disconnect, Table-watch, register_client-Joins,
}
use sys_programming_explorat.PollServer.Table.{clients_of, IsListed}

module _ {Str Heap Net : Type 0} (m : Memory Str Heap) (n : Network Net)
    (handed : ℤ → Net → List (List ℕ)) (is_open : ℤ → Net → Bool) (law : IsNetwork handed is_open n)
    (server_fd : ℤ) where
  abbrev pub TableIn : Server Str Heap Net → Type 0
  TableIn s = Table m n handed is_open law server_fd s.net s.fdstate (clients_of s.mq)

  welcome-TableIn :
      (net : Net) (fd : ℤ) (s : Server Str Heap Net)
      → Accepts handed is_open net (fd, s.net)
      → Table m n handed is_open law server_fd net s.fdstate (clients_of s.mq)
      → TableIn (welcome m n fd s).1
  unfolding welcome
  welcome-TableIn net fd s fresh t =
      let (t', there) =
        Table-watch m n handed is_open law server_fd net s.net s.fdstate (clients_of s.mq) fd fresh
          t in
      let apart : NoClient fd (clients_of s.mq) =
        Each-NoClient (IsListed server_fd (fds_of s.fdstate.fds)) fd (clients_of s.mq)
          (λ c (listed, own) e. cc (t.live c.fd listed, fresh.0, e)) t.listed in
      elim (Bool-cases (watch s.fdstate fd).0) [
        | inl accepted ↦ rw accepted (
            Table-clients m n handed is_open law server_fd s.net (watch s.fdstate fd).1
              (clients_of s.mq) (clients_of (Nullable.register_client m s.mq fd s.mem).1) t'
              (register_client-Joins m n handed is_open law server_fd
                (fds_of (watch s.fdstate fd).1.fds) s.mq fd s.mem (there accepted)
                (λ e.
                  cc (
                    t.live server_fd (subst (Mem server_fd) (sym t.head) mem-cons_self),
                    fresh.0,
                    e,
                  ))
                apart t'.listed))
        | inr refused ↦ rw refused t'
      ]

  pub handle_server_event-TableIn :
      (event : Pollfd) (s : Server Str Heap Net)
      → TableIn s
      → TableIn (handle_server_event m n event s).1
  unfolding handle_server_event
  handle_server_event-TableIn event s t =
      let (client_fd, net) = n.accept event.fd s.net in
      let joined =
        welcome-TableIn s.net client_fd (record s { net = net }) (law.accepts event.fd s.net) t in
      elim (Bool-cases (event.revents.pollerr || event.revents.pollnval)) [
        | inl broken ↦ rw broken t
        | inr sound ↦ elim (Bool-cases event.revents.pollin) [
          | inl readable ↦ rw (sound, readable) joined
          | inr quiet ↦ rw (sound, quiet) t
        ]
      ]

  q-clients_of :
      (o : Option (MessageQueue Str)) (msg : List ℕ) (mem : Heap)
      → clients_of (Nullable.q m o msg mem).1 ≡ clients_of o
  unfolding Nullable.q
  q-clients_of none msg mem = refl
  q-clients_of (some mq) msg mem = q-clients m mq msg mem

  drop_slow-Listed :
      (names : List ℤ) (o : Option (MessageQueue Str)) (mem : Heap)
      → Each (IsListed server_fd names) (clients_of o)
      → Each (IsListed server_fd names) (clients_of (Nullable.drop_slow_consumers m o mem).0)
  unfolding Nullable.drop_slow_consumers
  drop_slow-Listed names none mem all = tt
  drop_slow-Listed names (some mq) mem all =
      drop_slow_consumers-Each m (IsListed server_fd names) mq mem all

  q-TableIn :
      (s : Server Str Heap Net) (msg : List ℕ)
      → TableIn s
      → let (status, mq, mem) = Nullable.q m s.mq msg s.mem in
        TableIn (record s { mq = mq; mem = mem })
  q-TableIn s msg t =
      subst (Table m n handed is_open law server_fd s.net s.fdstate)
        (sym (q-clients_of s.mq msg s.mem)) t

  drop_slow-TableIn : (s : Server Str Heap Net) → TableIn s → TableIn (drop_slow m n s)
  drop_slow-TableIn s t =
      Table-clients m n handed is_open law server_fd s.net s.fdstate (clients_of s.mq)
        (clients_of (Nullable.drop_slow_consumers m s.mq s.mem).0) t
        (drop_slow-Listed (fds_of s.fdstate.fds) s.mq s.mem t.listed)

  after_q-TableIn :
      (status : Status) (s : Server Str Heap Net) (again : Status × Server Str Heap Net)
      → TableIn s
      → TableIn again.1
      → TableIn (after_q m n status s again).1
  unfolding after_q
  after_q-TableIn mqerr_full s again t t' = t'
  after_q-TableIn mqerr_null_pointer s again t t' = t
  after_q-TableIn mqerr_alloc_fail s again t t' = t
  after_q-TableIn mqerr_message_too_long s again t t' = t
  after_q-TableIn done s again t t' = t
  after_q-TableIn failed s again t t' = t

  handle_message-TableIn :
      (msg : List ℕ) (s : Server Str Heap Net) → TableIn s → TableIn (handle_message m n msg s).1
  unfolding handle_message
  handle_message-TableIn msg s t =
      let (status, mq, mem) = Nullable.q m s.mq msg s.mem in
      let s' = record s { mq = mq; mem = mem } in
      let queued : TableIn s' = q-TableIn s msg t in
      after_q-TableIn status s' _ queued
        (q-TableIn (drop_slow m n s') msg (drop_slow-TableIn s' queued))

  disconnect-TableIn :
      (fd : ℤ) (s : Server Str Heap Net)
      → server_fd ≢ fd
      → TableIn s
      → TableIn (disconnect m n fd s)
  unfolding disconnect
  disconnect-TableIn fd s other t =
      Table-disconnect m n handed is_open law server_fd s.net (n.close fd s.net) s.fdstate s.mq fd
        s.mem other (law.closes fd s.net) t

  handle_read-TableIn :
      (fd : ℤ) (received : Received) (s : Server Str Heap Net)
      → server_fd ≢ fd
      → TableIn s
      → TableIn (handle_read m n fd received s).1
  unfolding handle_read
  handle_read-TableIn fd read_error s other t = disconnect-TableIn fd s other t
  handle_read-TableIn fd (got []) s other t = disconnect-TableIn fd s other t
  handle_read-TableIn fd (got (b ∷ bs)) s other t = handle_message-TableIn (b ∷ bs) s t

  pub handle_client_event-TableIn :
      (event : Pollfd) (s : Server Str Heap Net)
      → server_fd ≢ event.fd
      → TableIn s
      → TableIn (handle_client_event m n event s).1
  unfolding handle_client_event
  handle_client_event-TableIn event s other t =
      let (received, net) = n.read event.fd max_message_length s.net in
      let moved =
        handle_read-TableIn event.fd received (record s { net = net }) other
          (Table-Same m n handed is_open law server_fd s.net net s.fdstate (clients_of s.mq)
            (law.reads event.fd max_message_length s.net) t) in
      let gone = disconnect-TableIn event.fd s other t in
      elim (Bool-cases event.revents.pollin) [
        | inl readable ↦ rw readable moved
        | inr quiet ↦ elim (Bool-cases (event.revents.pollhup || event.revents.pollrdhup)) [
          | inl hangs_up ↦ rw (quiet, hangs_up) gone
          | inr idle ↦ rw (quiet, idle) t
        ]
      ]
