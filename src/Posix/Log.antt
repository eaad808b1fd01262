-- ===== src/Posix/Log.antt =====
-- What a history says of the calls in it.
use sys_programming_explorat.Base.{
  ℕ, suc, Bool, ◌≡◌, ◌⊎◌, inl, inr, arith, ◌+◌, List, [], ◌∷◌, ◌++◌, true, false, some, ℤ, eq_int,
  if◌then◌else◌, take,
}
use sys_programming_explorat.Posix.{Event, History, got, is_minus_1}

-- How many address lists getaddrinfo handed out.
abbrev pub resolved : History → ℕ
resolved [] = 0
resolved (Event.getaddrinfo port (some addrs) ∷ h) = resolved h + 1
resolved (e ∷ h) = resolved h

-- How many address lists were given back.
abbrev pub freed : History → ℕ
freed [] = 0
freed (Event.freeaddrinfo ∷ h) = freed h + 1
freed (e ∷ h) = freed h

-- The bytes that came in on a descriptor, in order.
abbrev pub incoming : ℤ → History → List ℕ
incoming fd [] = []
incoming fd (Event.recv fd' (got bs) ∷ h) =
    if eq_int fd' fd then incoming fd h ++ bs else incoming fd h
incoming fd (e ∷ h) = incoming fd h

-- The bytes that the system took to be sent on a descriptor, in order.
abbrev pub outgoing : ℤ → History → List ℕ
outgoing fd [] = []
outgoing fd (Event.send fd' bs (some n) ∷ h) =
    if eq_int fd' fd then outgoing fd h ++ take n bs else outgoing fd h
outgoing fd (e ∷ h) = outgoing fd h

-- How many calls of recv there were.
abbrev pub recvs : History → ℕ
recvs [] = 0
recvs (Event.recv fd received ∷ h) = recvs h + 1
recvs (e ∷ h) = recvs h

-- How often a connection was accepted on a descriptor.
abbrev pub accepted_as : ℤ → History → ℕ
accepted_as x [] = 0
accepted_as x (Event.accept fd client ∷ h) =
    if is_minus_1 client
    then accepted_as x h
    else if eq_int client x
    then accepted_as x h + 1
    else accepted_as x h
accepted_as x (e ∷ h) = accepted_as x h

-- How often a descriptor was closed.
abbrev pub closed_as : ℤ → History → ℕ
closed_as x [] = 0
closed_as x (Event.close fd ∷ h) = if eq_int fd x then closed_as x h + 1 else closed_as x h
closed_as x (e ∷ h) = closed_as x h

-- How often a thread was created for a descriptor.
abbrev pub threads_for : ℤ → History → ℕ
threads_for x [] = 0
threads_for x (Event.pthread_create fd true ∷ h) =
    if eq_int fd x then threads_for x h + 1 else threads_for x h
threads_for x (e ∷ h) = threads_for x h

-- How many threads were created.
abbrev pub threads : History → ℕ
threads [] = 0
threads (Event.pthread_create fd true ∷ h) = threads h + 1
threads (e ∷ h) = threads h

-- Whether the last call accepted a connection on a descriptor.
abbrev pub just_accepted : ℤ → History → ℕ
just_accepted x (Event.accept fd client ∷ h) = if eq_int client x then 1 else 0
just_accepted x [] = 0
just_accepted x (e ∷ h) = 0

-- How often malloc denied a block right after a connection was accepted on a descriptor.
abbrev pub denied_for : ℤ → History → ℕ
denied_for x [] = 0
denied_for x (Event.malloc false ∷ h) = denied_for x h + just_accepted x h
denied_for x (e ∷ h) = denied_for x h

-- How often any descriptor was closed.
abbrev pub closed : History → ℕ
closed [] = 0
closed (Event.close fd ∷ h) = closed h + 1
closed (e ∷ h) = closed h

-- The count of the rounds of a loop that has not ended, behind one round more.
pub one_round_more :
    (fuel : ℕ) (ended : Bool) (n n' : ℕ)
    → ((ended ≡ true) ⊎ (n' ≡ n + 1 + fuel))
    → ((ended ≡ true) ⊎ (n' ≡ n + suc fuel))
one_round_more fuel ended n n' (inl e) = inl e
one_round_more fuel ended n n' (inr e) = inr (omega arith)
