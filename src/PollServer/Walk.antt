-- ===== src/PollServer/Walk.antt =====
-- The walk of a round over the clients: how many steps it takes. A handler only takes entries out;
-- the entry that moves into a place that was freed waits for the next round.
use sys_programming_explorat.Base.{
  ℕ, zero, suc, ◌+◌, ◌≤◌, ◌≡◌, refl, sym, ap, List, [], ◌∷◌, ◌||◌, none, some, arith, length, ℤ,
  Bool-cases, Option-cases, get_elem?, inl, inr,
}
use sys_programming_explorat.MessageQueue.{
  Memory, Status, done, mqerr_full, mqerr_message_too_long, mqerr_null_pointer, mqerr_alloc_fail,
  failed, max_message_length,
}
use sys_programming_explorat.Fds.{Pollfd, Fds, unwatch}
use sys_programming_explorat.Fds.Watch.{length-remove_fd}
use sys_programming_explorat.PollServer.{
  Received, got, read_error, Network, Server, disconnect, handle_message, after_q, enqueue,
  drop_slow, handle_read, handle_client_event, client_events, unless_exits,
}

module _ {Str Mem Net : Type 0} (m : Memory Str Mem) (n : Network Net) where
  after_q-fdstate :
      (status : Status) (s : Server Str Mem Net) (again : Status × Server Str Mem Net) (f : Fds)
      → s.fdstate ≡ f
      → again.1.fdstate ≡ f
      → (after_q m n status s again).1.fdstate ≡ f
  unfolding after_q
  after_q-fdstate mqerr_null_pointer s again f e e' = e
  after_q-fdstate mqerr_full s again f e e' = e'
  after_q-fdstate mqerr_alloc_fail s again f e e' = e
  after_q-fdstate mqerr_message_too_long s again f e e' = e
  after_q-fdstate done s again f e e' = e
  after_q-fdstate failed s again f e e' = e

  handle_message-fdstate :
      (msg : List ℕ) (s : Server Str Mem Net) → (handle_message m n msg s).1.fdstate ≡ s.fdstate
  unfolding handle_message
  handle_message-fdstate msg s =
      let (status, s') = enqueue m n msg s in
      after_q-fdstate status s' (enqueue m n msg (drop_slow m n s')) s.fdstate refl refl

  length-handle_read :
      (fd : ℤ) (received : Received) (s : Server Str Mem Net)
      → length (handle_read m n fd received s).1.fdstate.fds ≤ length s.fdstate.fds
  unfolding handle_read disconnect unwatch
  length-handle_read fd read_error s = length-remove_fd s.fdstate.fds fd
  length-handle_read fd (got []) s = length-remove_fd s.fdstate.fds fd
  length-handle_read fd (got (b ∷ bs)) s =
      omega (arith, ap (λ f. length f.fds) (handle_message-fdstate (b ∷ bs) s))

  length-handle_client_event :
      (event : Pollfd) (s : Server Str Mem Net)
      → length (handle_client_event m n event s).1.fdstate.fds ≤ length s.fdstate.fds
  unfolding handle_client_event disconnect unwatch
  length-handle_client_event event s =
      let (received, net) = n.read event.fd max_message_length s.net in
      let taken = length-handle_read event.fd received (record s { net = net }) in
      elim (Bool-cases event.revents.pollin) [
        | inl readable ↦ rw readable taken
        | inr quiet ↦ elim (Bool-cases (event.revents.pollhup || event.revents.pollrdhup)) [
          | inl hung ↦ rw (quiet, hung) (length-remove_fd s.fdstate.fds event.fd)
          | inr alive ↦ rw (quiet, alive) (omega arith)
        ]
      ]

  get_elem?-none : (ps : List Pollfd) (i : ℕ) → length ps ≤ i → get_elem? ps i ≡ none
  get_elem?-none [] i h = refl
  get_elem?-none (p ∷ ps) zero h = absurd (omega arith)
  get_elem?-none (p ∷ ps) (suc i) h = get_elem?-none ps i (omega arith)

  client_events_over :
      (fuel i : ℕ) (s : Server Str Mem Net)
      → length s.fdstate.fds ≤ i
      → client_events m n fuel i s ≡ some s
  unfolding client_events
  client_events_over zero i s h = refl
  client_events_over (suc fuel) i s h = ground (arith, get_elem?-none s.fdstate.fds i h)

  -- The walk over the clients from an index on has the same result for all numbers of steps that
  -- reach the end of the entries that are there at its start, whatever the handlers take out.
  pub client_events-enough :
      (fuel fuel' i : ℕ) (s : Server Str Mem Net)
      → length s.fdstate.fds ≤ fuel + i
      → length s.fdstate.fds ≤ fuel' + i
      → client_events m n fuel i s ≡ client_events m n fuel' i s
  unfolding client_events
  client_events-enough zero fuel' i s h h' = sym (client_events_over fuel' i s (omega arith))
  client_events-enough (suc fuel) zero i s h h' = client_events_over (suc fuel) i s (omega arith)
  client_events-enough (suc fuel) (suc fuel') i s h h' =
      elim (Option-cases (get_elem? s.fdstate.fds i)) [
        | inl out ↦ ground (arith, out)
        | inr (event, at) ↦
            let (code, t) = handle_client_event m n event s in
            let fewer = length-handle_client_event event s in
            let rest = client_events-enough fuel fuel' (i + 1) t (omega arith) (omega arith) in
            let same : unless_exits m n code (client_events m n fuel (i + 1) t)
                ≡ unless_exits m n code (client_events m n fuel' (i + 1) t) =
              ap (unless_exits m n code) rest in
            ground (arith, at, same)
      ]
