-- ===== src/EchoServer/Accounts.antt =====
-- Who closes the descriptor of a connection.
use sys_programming_explorat.Base.{
  ℕ, zero, suc, ◌+◌, ◌≡◌, ◌⊎◌, inl, inr, refl, subst, ◌∙◌, [], ◌∷◌, Bool, true, false, Option, none,
  some, arith, ℤ, Bool-cases, Option-cases,
}
use sys_programming_explorat.Posix.{
  Received, got, recv_error, Event, History, System, M, ◌>>=◌, >>=-some, is_minus_1, is_zero,
}
use sys_programming_explorat.Posix.Log.{closed, accepted_as, closed_as, threads_for, denied_for}
use sys_programming_explorat.EchoServer.{
  after_send, send_back, handle_client_request, thread_worker, close_after, create_thread,
  pthread_impl, accept_client, accept_rounds, fork_server_impl, child,
}

module _ (sys : System) where
  -- The run of a request closes nothing.
  abbrev Open : History → Option Bool × History → Type 0
  Open h r = (ended : Bool) × (h' : History) × (r ≡ (some ended, h')) × (closed h' ≡ closed h)

  send_back-Open :
      (again : M Bool) (fd : ℤ) (received : Received) (h : History)
      → ((k : History) → Open k (again k))
      → Open h (send_back sys again fd received (Event.recv fd received ∷ h))
  unfolding send_back after_send
  send_back-Open again fd recv_error h rest = (true, _, refl, refl)
  send_back-Open again fd (got []) h rest = (true, _, refl, refl)
  send_back-Open again fd (got (b ∷ bs)) h rest =
      elim (Option-cases (sys.sends (Event.recv fd (got (b ∷ bs)) ∷ h) fd (b ∷ bs))) [
        | inl failed ↦
            rw failed
              (true, Event.send fd (b ∷ bs) none ∷ Event.recv fd (got (b ∷ bs)) ∷ h, refl, refl)
        | inr (n, took) ↦
            rw took (rest (Event.send fd (b ∷ bs) (some n) ∷ Event.recv fd (got (b ∷ bs)) ∷ h))
      ]

  handle_client_request-Open :
      (fuel : ℕ) (fd : ℤ) (h : History) → Open h (handle_client_request sys fuel fd h)
  unfolding handle_client_request
  handle_client_request-Open zero fd h = (false, h, refl, refl)
  handle_client_request-Open (suc fuel) fd h =
      send_back-Open (handle_client_request sys fuel fd) fd (sys.receives h fd) h
        (handle_client_request-Open fuel fd)

  -- A request that is at its end has closed its descriptor last, and nothing but it.
  abbrev pub ClosedLast : ℤ → ℕ → Option Bool × History → Type 0
  ClosedLast fd before (none, h) = ⊥
  ClosedLast fd before (some true, h) =
      (k : History) × (h ≡ Event.close fd ∷ k) × (closed k ≡ before)
  ClosedLast fd before (some false, h) = closed h ≡ before

  close_after-ClosedLast :
      (fd : ℤ) (ended : Bool) (h : History) → ClosedLast fd (closed h) (close_after sys fd ended h)
  unfolding close_after
  close_after-ClosedLast fd true h = (h, refl, refl)
  close_after-ClosedLast fd false h = refl

  request-ClosedLast :
      (fuel : ℕ) (fd : ℤ) (h : History)
      → ClosedLast fd (closed h) ((handle_client_request sys fuel fd >>= close_after sys fd) h)
  request-ClosedLast fuel fd h =
      let (ended, h', run, same) = handle_client_request-Open fuel fd h in
      rw (>>=-some (handle_client_request sys fuel fd) (close_after sys fd) h h' ended run) (
        subst (λ n. ClosedLast fd n (close_after sys fd ended h')) same
          (close_after-ClosedLast fd ended h'))

  -- As long as no signal ends the process (a SIGPIPE, at a send to a peer that is gone, has to be
  -- ignored), and whatever the system answers, the thread of a client does not end the process.
  -- Once its request has ended, its last call is the close of its descriptor, and it has closed
  -- nothing else; before that it has closed nothing.
  pub thread_worker-ClosedLast :
      (fuel : ℕ) (fd : ℤ) (h : History) → ClosedLast fd (closed h) (thread_worker sys fuel fd h)
  unfolding thread_worker
  thread_worker-ClosedLast fuel fd h = request-ClosedLast fuel fd (Event.free ∷ h)

  -- Each time that `x` was accepted, it was closed, or given to a thread, or malloc denied the
  -- block of its thread right after.
  abbrev pub Accounted : ℤ → History → History → Type 0
  Accounted x h h' =
      accepted_as x h' + (closed_as x h + threads_for x h + denied_for x h)
      ≡ accepted_as x h + (closed_as x h' + threads_for x h' + denied_for x h')

  pthread_impl-Accounted :
      (x fd socketfd : ℤ) (h : History)
      → is_minus_1 fd ≡ false
      → (h' : History) × (pthread_impl sys fd (Event.accept socketfd fd ∷ h) ≡ (some tt, h'))
        × Accounted x h h'
  unfolding pthread_impl create_thread
  pthread_impl-Accounted x fd socketfd h came =
      let k : History = Event.accept socketfd fd ∷ h in
      let made : History = Event.malloc true ∷ k in
      let left : Accounted x h (Event.malloc false ∷ k) = ground (arith, came) in
      let running : Accounted x h (Event.pthread_create fd true ∷ made) = ground (arith, came) in
      let gone : Accounted x h
          (Event.close fd ∷ Event.free ∷ Event.pthread_create fd false ∷ made) =
        ground (arith, came) in
      elim (Bool-cases (sys.grants k)) [
        | inr no_block ↦ rw no_block (Event.malloc false ∷ k, refl, left)
        | inl block ↦ elim (Bool-cases (sys.creates made fd)) [
          | inl created ↦ rw (block, created) (Event.pthread_create fd true ∷ made, refl, running)
          | inr failed ↦
              rw (block, failed)
                (Event.close fd ∷ Event.free ∷ Event.pthread_create fd false ∷ made, refl, gone)
        ]
      ]

  accept_client-Accounted :
      (x socketfd : ℤ) (h : History)
      → (h' : History) × (accept_client sys socketfd h ≡ (some tt, h')) × Accounted x h h'
  unfolding accept_client
  accept_client-Accounted x socketfd h =
      let fd = sys.accepts h socketfd in
      elim (Bool-cases (is_minus_1 fd)) [
        | inl failed ↦ rw failed (Event.accept socketfd fd ∷ h, refl, rw failed (omega arith))
        | inr came ↦
            let (h', run, same) = pthread_impl-Accounted x fd socketfd h came in
            (h', (rw came run), same)
      ]

  -- Whatever the system answers, in any number of rounds of server_loop, and for every descriptor:
  -- as often as a connection was accepted on it, the loop closed it, or created a thread for it, or
  -- malloc denied the block of a thread right after the accept. So a connection is left open
  -- without a thread only where malloc denied that block.
  pub accept_rounds-Accounted :
      (x : ℤ) (rounds : ℕ) (socketfd : ℤ) (h : History)
      → (h' : History) × (accept_rounds sys rounds socketfd h ≡ (some tt, h')) × Accounted x h h'
  unfolding accept_rounds
  accept_rounds-Accounted x zero socketfd h = (h, refl, refl)
  accept_rounds-Accounted x (suc rounds) socketfd h =
      let (mid, first, one) = accept_client-Accounted x socketfd h in
      let (h', rest, more) = accept_rounds-Accounted x rounds socketfd mid in
      (
        h',
        >>=-some (accept_client sys socketfd) (λ _. accept_rounds sys rounds socketfd) h mid tt
              first
            ∙ rest,
        omega arith,
      )

  -- What the process that goes on behind fork does: the parent closes the client's descriptor and
  -- goes on; a child whose request has ended has closed the server's descriptor, then at the end
  -- the client's, and is gone; another child has closed the server's alone.
  abbrev pub Forked : ℤ → History → Option (Unit {0}) × History → Type 0
  Forked client h r =
      ((is_zero (sys.forks h) ≡ false)
        × (r ≡ (some tt, Event.close client ∷ Event.fork (sys.forks h) ∷ h)))
      ⊎ ((is_zero (sys.forks h) ≡ true)
          × (((r.0 ≡ none)
                × ((k : History) × (r.1 ≡ Event.close client ∷ k) × (closed k ≡ closed h + 1)))
              ⊎ ((r.0 ≡ some tt) × (closed r.1 ≡ closed h + 1))))

  child_lem :
      (client : ℤ) (n : ℕ) (o : Option Bool × History)
      → ClosedLast client n o
      → let r = elim o.0 as (λ x. Option (Unit {0}) × History) [
        | none ↦ (none, o.1)
        | some ended ↦ child sys ended o.1
      ] in
        ((r.0 ≡ none) × ((k : History) × (r.1 ≡ Event.close client ∷ k) × (closed k ≡ n)))
        ⊎ ((r.0 ≡ some tt) × (closed r.1 ≡ n))
  unfolding child
  child_lem client n (none, h) c = absurd c
  child_lem client n (some true, h) c = inl (refl, c)
  child_lem client n (some false, h) c = inr (refl, c)

  pub fork_server_impl-Forked :
      (fuel : ℕ) (server client : ℤ) (h : History)
      → Forked client h (fork_server_impl sys fuel server client h)
  unfolding fork_server_impl
  fork_server_impl-Forked fuel server client h = elim (Bool-cases (is_zero (sys.forks h))) [
    | inr parent ↦ rw parent (inl (refl, refl))
    | inl zero_pid ↦ rw zero_pid (
        inr (
          refl,
          child_lem client (closed h + 1)
              ((handle_client_request sys fuel client >>= close_after sys client)
                (Event.close server ∷ Event.fork (sys.forks h) ∷ h))
              (request-ClosedLast fuel client (Event.close server ∷ Event.fork (sys.forks h) ∷ h)),
        ))
  ]
