-- ===== src/ListenSocket/Single.antt =====
-- The listening socket of the single-connection server, and the address list that it keeps.
use sys_programming_explorat.Base.{
  ℕ, ◌+◌, ◌≡◌, inl, inr, refl, ap, List, [], ◌∷◌, true, false, Option, none, some, arith, ℤ, pos,
  negsuc, Bool-cases,
}
use sys_programming_explorat.Posix.{
  Event, History, System, >>=-some, >>=-none, is_positive, is_negative,
}
use sys_programming_explorat.Posix.Log.{resolved, freed}
use sys_programming_explorat.ListenSocket.{
  resolve, open_socket, find_plain_address, start_single_server, bind_socket, listen_socket,
  listen_single, bind_single, bind_plain,
}
use sys_programming_explorat.ListenSocket.Ownership.{resolve_cases}

abbrev Found : ℤ × Option ℕ → History → Type 0
Found (socketfd, none) h = Unit {0}
Found (socketfd, some addr) h =
    (is_positive socketfd ≡ true) × ((h' : History) × (h ≡ Event.socket addr socketfd ∷ h'))

not_negative : (fd : ℤ) → is_positive fd ≡ true → is_negative fd ≡ false
not_negative (pos n) e = refl
not_negative (negsuc n) e = cc e

module _ (sys : System) where
  find_plain_address-Found :
      (servinfo : List ℕ) (socketfd : ℤ) (h : History)
      → (r : ℤ × Option ℕ) × (h' : History) × (find_plain_address sys servinfo socketfd h
          ≡ (some r, h'))
        × (resolved h' ≡ resolved h)
        × (freed h' ≡ freed h)
        × Found r h'
  unfolding find_plain_address open_socket
  find_plain_address-Found [] socketfd h = ((socketfd, none), h, refl, refl, refl, tt)
  find_plain_address-Found (addr ∷ servinfo) socketfd h =
      let fd = sys.opens h addr in
      elim (Bool-cases (is_positive fd)) [
        | inl good ↦
            rw good ((fd, some addr), Event.socket addr fd ∷ h, refl, refl, refl, (good, (h, refl)))
        | inr bad ↦ rw bad (find_plain_address-Found servinfo fd (Event.socket addr fd ∷ h))
      ]

  -- A server that starts holds on to the list of getaddrinfo.
  abbrev pub Started : History → Option ℤ × History → Type 0
  Started h (none, h') = Unit {0}
  Started h (some fd, h') =
      (is_positive fd ≡ true)
      × (resolved h' + freed h ≡ resolved h + freed h' + 1)
      × ((addr : ℕ) × (before : History) × (h'
            ≡ Event.listen fd 1 true ∷ Event.bind fd addr true ∷ Event.socket addr fd ∷ before))

  listen_single-Started :
      (fd : ℤ) (addr : ℕ) (start h before : History)
      → is_positive fd ≡ true
      → resolved h + freed start ≡ resolved start + freed h + 1
      → h ≡ Event.bind fd addr true ∷ Event.socket addr fd ∷ before
      → Started start (listen_single sys fd h)
  unfolding listen_single listen_socket
  listen_single-Started fd addr start h before good held e = elim (Bool-cases (sys.listens h fd)) [
    | inl up ↦ rw up (good, held, (addr, before, ap (λ k. Event.listen fd 1 true ∷ k) e))
    | inr down ↦ rw down tt
  ]

  bind_single-Started :
      (fd : ℤ) (addr : ℕ) (start h before : History)
      → is_positive fd ≡ true
      → resolved h + freed start ≡ resolved start + freed h + 1
      → h ≡ Event.socket addr fd ∷ before
      → Started start (bind_single sys fd addr h)
  unfolding bind_single bind_socket
  bind_single-Started fd addr start h before good held e = elim (Bool-cases (sys.binds h fd addr)) [
    | inl bound ↦ rw bound (
        listen_single-Started fd addr start (Event.bind fd addr true ∷ h) before good held
          (ap (λ k. Event.bind fd addr true ∷ k) e))
    | inr refused ↦ rw refused tt
  ]

  bind_plain-Started :
      (r : ℤ × Option ℕ) (start h : History)
      → resolved h + freed start ≡ resolved start + freed h + 1
      → Found r h
      → Started start (bind_plain sys r h)
  unfolding bind_plain
  bind_plain-Started (pos n, none) start h held found = tt
  bind_plain-Started (negsuc n, none) start h held found = tt
  bind_plain-Started (fd, some addr) start h held (good, (before, e)) =
      rw (not_negative fd good) (bind_single-Started fd addr start h before good held e)

  -- For every port and whatever the system answers: where the single-connection server comes to its
  -- loop, its descriptor is positive, was opened for an address, bound to it and made to listen, in
  -- this order, and the list of getaddrinfo has not been given back.
  pub start_single_server-Started :
      (port : List ℕ) (h : History) → Started h (start_single_server sys port h)
  unfolding start_single_server
  start_single_server-Started port h = elim (resolve_cases sys port h) [
    | inl failed ↦ rw (>>=-none (resolve sys port) _ h _ failed) tt
    | inr (servinfo, run) ↦
        let (r, h', run', same, same', found) =
          find_plain_address-Found servinfo (negsuc 0)
            (Event.getaddrinfo port (some servinfo) ∷ h) in
        rw
          (
            >>=-some (resolve sys port) _ h _ servinfo run,
            >>=-some (find_plain_address sys servinfo (negsuc 0)) (bind_plain sys) _ h' r run',
          )
          (bind_plain-Started r h h' (omega arith) found)
  ]
