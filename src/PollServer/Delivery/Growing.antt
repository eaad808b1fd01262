-- ===== src/PollServer/Delivery/Growing.antt =====
-- What was read, through the rounds.
use sys_programming_explorat.Base.{
  ℕ, ◌≤◌, ◌≡◌, refl, ap, ◌∙◌, List, [], ◌∷◌, ◌||◌, arith, length, length-append, ℤ, Bool-cases, inl,
  inr,
}
use sys_programming_explorat.MessageQueue.{
  Memory, Status, done, mqerr_full, mqerr_message_too_long, mqerr_null_pointer, mqerr_alloc_fail,
  failed, max_message_length,
}
use sys_programming_explorat.Fds.{Pollfd}
use sys_programming_explorat.PollServer.{
  Network, Received, got, read_error, Server, disconnect, after_q, handle_message, handle_read,
  handle_client_event,
}
use sys_programming_explorat.PollServer.Delivery.Heard.{Hears, IsHearing}

module _ {Str Mem Net : Type 0} (m : Memory Str Mem) (n : Network Net) (heard : Net → List (List ℕ))
    (hearing : IsHearing heard n) where
  after_q-net :
      (status : Status) (s : Server Str Mem Net) (again : Status × Server Str Mem Net)
      → again.1.net ≡ s.net
      → (after_q m n status s again).1.net ≡ s.net
  unfolding after_q
  after_q-net mqerr_full s again same = same
  after_q-net mqerr_null_pointer s again same = refl
  after_q-net mqerr_alloc_fail s again same = refl
  after_q-net mqerr_message_too_long s again same = refl
  after_q-net done s again same = refl
  after_q-net failed s again same = refl

  handle_message-net :
      (msg : List ℕ) (s : Server Str Mem Net) → (handle_message m n msg s).1.net ≡ s.net
  unfolding handle_message
  handle_message-net msg s = after_q-net _ _ _ refl

  disconnect_grows :
      (net : Net) (fd : ℤ) (s : Server Str Mem Net)
      → heard s.net ≡ heard net
      → length (heard net) ≤ length (heard (disconnect m n fd s).net)
  unfolding disconnect
  disconnect_grows net fd s same = omega (arith, ap length (hearing.closes fd s.net ∙ same))

  handle_read_grows :
      (net : Net) (fd : ℤ) (received : Received) (s : Server Str Mem Net)
      → Hears heard net (received, s.net)
      → length (heard net) ≤ length (heard (handle_read m n fd received s).1.net)
  unfolding handle_read
  handle_read_grows net fd read_error s same = disconnect_grows net fd s same
  handle_read_grows net fd (got []) s same = disconnect_grows net fd s same
  handle_read_grows net fd (got (b ∷ bs)) s more = omega (
    arith,
    ap length (ap heard (handle_message-net (b ∷ bs) s) ∙ more),
    length-append (heard net) ((b ∷ bs) ∷ []),
  )

  pub handle_client_event_grows :
      (event : Pollfd) (s : Server Str Mem Net)
      → length (heard s.net) ≤ length (heard (handle_client_event m n event s).1.net)
  unfolding handle_client_event
  handle_client_event_grows event s =
      let (received, net) = n.read event.fd max_message_length s.net in
      let moved =
        handle_read_grows s.net event.fd received (record s { net = net })
          (hearing.reads event.fd max_message_length s.net) in
      let gone = disconnect_grows s.net event.fd s refl in
      elim (Bool-cases event.revents.pollin) [
        | inl readable ↦ rw readable moved
        | inr quiet ↦ elim (Bool-cases (event.revents.pollhup || event.revents.pollrdhup)) [
          | inl hangs_up ↦ rw (quiet, hangs_up) gone
          | inr idle ↦ rw (quiet, idle) (omega arith)
        ]
      ]
