-- ===== src/SingleServer/Echo.antt =====
-- What a connection is sent, and whether its descriptor is closed.
use sys_programming_explorat.Base.{
  ℕ, zero, suc, ◌+◌, ◌≡◌, ◌⊎◌, inl, inr, refl, sym, ap, ◌∙◌, List, [], ◌∷◌, ◌++◌, append-nil,
  append_assoc, Bool, true, false, Option, some, arith, length, take-all, ℤ,
}
use sys_programming_explorat.Posix.{Received, got, recv_error, Event, History, System, M}
use sys_programming_explorat.Posix.Log.{one_round_more, incoming, outgoing, recvs, closed}
use sys_programming_explorat.EchoServer.Echo.{same_fd}
use sys_programming_explorat.SingleServer.{send_back, serve_connection}

-- Every send takes all bytes.
abbrev pub SendsAll : System → Type 0
SendsAll sys =
    (h : History) (fd : ℤ) (b : ℕ) (bs : List ℕ) → sys.sends h fd (b ∷ bs) ≡ some (length (b ∷ bs))

-- The last call: recv answered the end, and the descriptor was closed; or recv failed, and it was
-- not; or, for an unfinished run, nothing is said of it.
abbrev pub Left : ℤ → History → Bool → History → Type 0
Left fd h true h' =
    ((k : History) × (h' ≡ Event.close fd ∷ Event.recv fd (got []) ∷ k) × (closed k ≡ closed h))
    ⊎ ((k : History) × (h' ≡ Event.recv fd recv_error ∷ k) × (closed k ≡ closed h))
Left fd h false h' = closed h' ≡ closed h

abbrev pub Served : ℕ → ℤ → History → Option Bool × History → Type 0
Served fuel fd h r =
    (ended : Bool) × (h' : History) × (r ≡ (some ended, h'))
    × ((bytes : List ℕ) × (incoming fd h' ≡ incoming fd h ++ bytes)
        × (outgoing fd h' ≡ outgoing fd h ++ bytes))
    × Left fd h ended h'
    × ((ended ≡ true) ⊎ (recvs h' ≡ recvs h + fuel))

-- The calls before do not matter for how a run leaves the descriptor, if they close nothing.
Left-closed :
    (fd : ℤ) (h mid : History) (ended : Bool) (h' : History)
    → closed mid ≡ closed h
    → Left fd mid ended h'
    → Left fd h ended h'
Left-closed fd h mid true h' same (inl (k, e, c)) = inl (k, e, c ∙ same)
Left-closed fd h mid true h' same (inr (k, e, c)) = inr (k, e, c ∙ same)
Left-closed fd h mid false h' same c = c ∙ same

module _ (sys : System) (whole : SendsAll sys) where
  send_back-Served :
      (again : M Bool) (fuel : ℕ) (fd : ℤ) (received : Received) (h : History)
      → ((k : History) → Served fuel fd k (again k))
      → Served (suc fuel) fd h (send_back sys again fd received (Event.recv fd received ∷ h))
  unfolding send_back
  send_back-Served again fuel fd recv_error h rest = (
    true,
    Event.recv fd recv_error ∷ h,
    refl,
    ([], sym (append-nil (incoming fd h)), sym (append-nil (outgoing fd h))),
    inr (h, refl, refl),
    inl refl,
  )
  send_back-Served again fuel fd (got []) h rest = (
    true,
    Event.close fd ∷ Event.recv fd (got []) ∷ h,
    refl,
    ([], rw (same_fd fd) refl, sym (append-nil (outgoing fd h))),
    inl (h, refl, refl),
    inl refl,
  )
  send_back-Served again fuel fd (got (b ∷ bs)) h rest =
      let before : History = Event.recv fd (got (b ∷ bs)) ∷ h in
      let all : sys.sends before fd (b ∷ bs) ≡ some (length (b ∷ bs)) = whole before fd b bs in
      let mid : History = Event.send fd (b ∷ bs) (some (length (b ∷ bs))) ∷ before in
      let came : incoming fd mid ≡ incoming fd h ++ (b ∷ bs) = rw (same_fd fd) refl in
      let went : outgoing fd mid ≡ outgoing fd h ++ (b ∷ bs) =
        rw (same_fd fd)
          (ap (λ l. outgoing fd h ++ l) (take-all (length (b ∷ bs)) (b ∷ bs) (omega arith))) in
      let (ended, h', run, (bytes, i, o), left, why) = rest mid in
      rw all (
        ended,
        h',
        run,
        (
          (b ∷ bs) ++ bytes,
          i ∙ ap (λ l. l ++ bytes) came ∙ append_assoc (incoming fd h) (b ∷ bs) bytes,
          o ∙ ap (λ l. l ++ bytes) went ∙ append_assoc (outgoing fd h) (b ∷ bs) bytes,
        ),
        Left-closed fd h mid ended h' refl left,
        one_round_more fuel ended (recvs h) (recvs h') why,
      )

  -- As long as no signal ends the process, where every send takes all it is given, and for any
  -- number of rounds and whatever else the system answers: a connection is sent exactly what came
  -- in on it, in order. It ends, or each of its rounds was a further recv. Where it ends because
  -- the peer closed it, its descriptor is closed, and nothing else was; where it ends because recv
  -- failed, nothing was closed.
  pub serve_connection-Served :
      (fuel : ℕ) (fd : ℤ) (h : History) → Served fuel fd h (serve_connection sys fuel fd h)
  unfolding serve_connection
  serve_connection-Served zero fd h = (
    false,
    h,
    refl,
    ([], sym (append-nil (incoming fd h)), sym (append-nil (outgoing fd h))),
    refl,
    inr (omega arith),
  )
  serve_connection-Served (suc fuel) fd h =
      send_back-Served (serve_connection sys fuel fd) fuel fd (sys.receives h fd) h
        (serve_connection-Served fuel fd)
