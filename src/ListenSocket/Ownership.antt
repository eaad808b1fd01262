-- ===== src/ListenSocket/Ownership.antt =====
-- What the three ways to a listening socket leave behind: which calls made it, and whether the list
-- of getaddrinfo is given back.
use sys_programming_explorat.Base.{
  ℕ, ◌+◌, ◌≡◌, ◌⊎◌, inl, inr, refl, sym, ap, subst, List, [], ◌∷◌, true, Option, none, some, arith,
  if◌then◌else◌, ℤ, pos, negsuc, Bool-cases, Option-cases,
}
use sys_programming_explorat.Posix.{Event, History, System, ◌>>=◌, >>=-some, >>=-none, is_positive}
use sys_programming_explorat.Posix.Log.{resolved, freed}
use sys_programming_explorat.ListenSocket.{
  somaxconn, resolve, open_socket, find_address, bind_address, bind_found, get_listening_socket,
  get_tcp_server_socket, bind_socket, listen_socket,
}

-- The lists that were handed out and not given back are as many as before.
abbrev pub Balanced : History → History → Type 0
Balanced h h' = resolved h' + freed h ≡ resolved h + freed h'

-- What the loop over the addresses finds: nothing, or the address of a positive descriptor, which
-- was just opened.
abbrev Found : ℤ × Option ℕ → History → Type 0
Found (socketfd, none) h = Unit {0}
Found (socketfd, some addr) h =
    (is_positive socketfd ≡ true)
    × ((h' : History) × (h ≡ Event.setsockopt socketfd ∷ Event.socket addr socketfd ∷ h'))

module _ (sys : System) where
  find_address-Found :
      (servinfo : List ℕ) (socketfd : ℤ) (h : History)
      → (r : ℤ × Option ℕ) × (h' : History) × (find_address sys servinfo socketfd h ≡ (some r, h'))
        × (resolved h' ≡ resolved h)
        × (freed h' ≡ freed h)
        × Found r h'
  unfolding find_address open_socket
  find_address-Found [] socketfd h = ((socketfd, none), h, refl, refl, refl, tt)
  find_address-Found (addr ∷ servinfo) socketfd h =
      let fd = sys.opens h addr in
      elim (Bool-cases (is_positive fd)) [
        | inl good ↦ rw good (
          (fd, some addr),
          Event.setsockopt fd ∷ Event.socket addr fd ∷ h,
          refl,
          refl,
          refl,
          (good, (h, refl)),
        )
        | inr bad ↦ rw bad (find_address-Found servinfo fd (Event.socket addr fd ∷ h))
      ]

  -- The calls that make a bound socket, the latest last: nothing else is called behind its
  -- socket(2).
  abbrev pub Bound : Option ℤ × History → Type 0
  Bound (none, h) = Unit {0}
  Bound (some fd, h) =
      (is_positive fd ≡ true)
      × ((addr : ℕ) × (h' : History) × (h
            ≡ Event.freeaddrinfo
              ∷ Event.bind fd addr true
              ∷ Event.setsockopt fd
              ∷ Event.socket addr fd
              ∷ h'))

  -- A step gives back the one list that is held, and ends with a bound socket or the process.
  abbrev GivesBack : History → Option ℤ × History → Type 0
  GivesBack h r = (resolved r.1 ≡ resolved h) × (freed r.1 ≡ freed h + 1) × Bound r

  bind_found-GivesBack :
      (r : ℤ × Option ℕ) (h : History) → Found r h → GivesBack h (bind_found sys r h)
  unfolding bind_found bind_socket
  bind_found-GivesBack (fd, none) h found = (refl, refl, tt)
  bind_found-GivesBack (fd, some addr) h (good, (h', e)) = elim (Bool-cases (sys.binds h fd addr)) [
    | inl bound ↦ rw bound (
      refl,
      refl,
      (good, (addr, h', ap (λ k. Event.freeaddrinfo ∷ Event.bind fd addr true ∷ k) e)),
    )
    | inr refused ↦ rw refused (refl, refl, tt)
  ]

  pub resolve_cases :
      (port : List ℕ) (h : History)
      → (resolve sys port h ≡ (none, Event.getaddrinfo port none ∷ h))
        ⊎ ((servinfo : List ℕ) × (resolve sys port h
              ≡ (some servinfo, Event.getaddrinfo port (some servinfo) ∷ h)))
  unfolding resolve
  resolve_cases port h = elim (Option-cases (sys.resolves h port)) [
    | inl e ↦ inl (rw e refl)
    | inr (servinfo, e) ↦ inr (servinfo, rw e refl)
  ]

  bind_address-Bound :
      (port : List ℕ) (h : History)
      → Balanced h (bind_address sys port h).1 × Bound (bind_address sys port h)
  unfolding bind_address
  bind_address-Bound port h = elim (resolve_cases port h) [
    | inl failed ↦ rw (>>=-none (resolve sys port) _ h _ failed) (refl, tt)
    | inr (servinfo, run) ↦
        let (r, h', run', same, same', found) =
          find_address-Found servinfo (negsuc 0) (Event.getaddrinfo port (some servinfo) ∷ h) in
        let (held, given, bound) = bind_found-GivesBack r h' found in
        rw
          (
            >>=-some (resolve sys port) _ h _ servinfo run,
            >>=-some (find_address sys servinfo (negsuc 0)) (bind_found sys) _ h' r run',
          )
          (omega arith, bound)
  ]

  -- What get_listening_socket answers: the calls behind socket(2) are these, in this order.
  abbrev pub Listening : Option ℤ × History → Type 0
  Listening (none, h) = Unit {0}
  Listening (some fd, h) =
      (is_positive fd ≡ true)
      × ((addr : ℕ) × (h' : History) × (h
            ≡ Event.listen fd somaxconn true
              ∷ Event.freeaddrinfo
              ∷ Event.bind fd addr true
              ∷ Event.setsockopt fd
              ∷ Event.socket addr fd
              ∷ h'))

  listen_socket-Listening :
      (fd : ℤ) (h : History)
      → Bound (some fd, h)
      → let r =
          (listen_socket sys fd somaxconn >>= λ listening.
          if listening then (λ k. (some fd, k)) else (λ k. (none, k)))
            h in
        (resolved r.1 ≡ resolved h) × (freed r.1 ≡ freed h) × Listening r
  unfolding listen_socket
  listen_socket-Listening fd h (good, (addr, h', e)) = elim (Bool-cases (sys.listens h fd)) [
    | inl up ↦
        rw up (refl, refl, (good, (addr, h', ap (λ k. Event.listen fd somaxconn true ∷ k) e)))
    | inr down ↦ rw down (refl, refl, tt)
  ]

  -- For every port and whatever the system answers: get_listening_socket gives back the list of
  -- getaddrinfo exactly once if it got one, also where it ends the process. Where it returns, it
  -- returns a positive descriptor, which was opened for an address, bound to that address and made
  -- to listen, in this order.
  pub get_listening_socket-Listening :
      (port : List ℕ) (h : History)
      → Balanced h (get_listening_socket sys port h).1 × Listening (get_listening_socket sys port h)
  unfolding get_listening_socket
  get_listening_socket-Listening port h =
      from (bind_address sys port h) refl (bind_address-Bound port h)
    where
      from :
          (r : Option ℤ × History)
          → bind_address sys port h ≡ r
          → Balanced h r.1 × Bound r
          → Balanced h (get_listening_socket sys port h).1
            × Listening (get_listening_socket sys port h)
      from (none, h') run (balanced, bound) =
          rw (>>=-none (bind_address sys port) _ h h' run) (balanced, tt)
      from (some fd, h') run (balanced, bound) =
          let (same, same', up) = listen_socket-Listening fd h' bound in
          rw (>>=-some (bind_address sys port) _ h h' fd run) (omega arith, up)

  -- In get_tcp_server_socket of tcp_pthread.c the test for a negative descriptor, with its second
  -- freeaddrinfo, never holds: for every port it does what is written before it, so it gives back
  -- the list exactly once, and where it returns the descriptor is positive and bound.
  pub get_tcp_server_socket-Bound :
      (port : List ℕ) (h : History)
      → (get_tcp_server_socket sys port h ≡ bind_address sys port h)
        × Balanced h (get_tcp_server_socket sys port h).1
        × Bound (get_tcp_server_socket sys port h)
  unfolding get_tcp_server_socket
  get_tcp_server_socket-Bound port h =
      let same : get_tcp_server_socket sys port h ≡ bind_address sys port h =
        from (bind_address sys port h) refl (bind_address-Bound port h).1 in
      let (balanced, bound) = bind_address-Bound port h in
      (same, subst (λ r. Balanced h r.1) (sym same) balanced, subst Bound (sym same) bound)
    where
      from :
          (r : Option ℤ × History)
          → bind_address sys port h ≡ r
          → Bound r
          → get_tcp_server_socket sys port h ≡ r
      from (none, h') run bound = rw (>>=-none (bind_address sys port) _ h h' run) refl
      from (some (pos n), h') run bound =
          rw (>>=-some (bind_address sys port) _ h h' (pos n) run) refl
      from (some (negsuc n), h') run (good, _) = cc good
