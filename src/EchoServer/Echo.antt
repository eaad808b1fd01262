-- ===== src/EchoServer/Echo.antt =====
-- handle_client_request: what is sent back of what is received.
use sys_programming_explorat.Base.{
  ℕ, ◌+◌, ◌≡◌, ◌⊎◌, refl, List, [], ◌∷◌, ◌++◌, Bool, true, Option, none, some, length, ℤ, eq_int,
  eq_int_iff,
}
use sys_programming_explorat.Posix.{Event, History, System}
use sys_programming_explorat.Posix.Log.{incoming, outgoing, recvs}

-- A send that does not fail takes all bytes.
abbrev pub SendsWhole : System → Type 0
SendsWhole sys =
    (h : History) (fd : ℤ) (b : ℕ) (bs : List ℕ) (n : ℕ)
    → sys.sends h fd (b ∷ bs) ≡ some n
    → n ≡ length (b ∷ bs)

-- From `h` on, the bytes sent on the descriptor are those received, but for the last ones if the
-- last call is a send of them that failed.
abbrev pub Echoed : ℤ → History → History → Type 0
Echoed fd h h' =
    (sent : List ℕ) × (lost : List ℕ) × (incoming fd h' ≡ incoming fd h ++ (sent ++ lost))
    × (outgoing fd h' ≡ outgoing fd h ++ sent)
    × ((lost ≡ []) ⊎ ((before : History) × (h' ≡ Event.send fd lost none ∷ before)))

abbrev Ends : ℕ → ℤ → History → Option Bool × History → Type 0
Ends fuel fd h r =
    (ended : Bool) × (h' : History) × (r ≡ (some ended, h'))
    × Echoed fd h h'
    × ((ended ≡ true) ⊎ (recvs h' ≡ recvs h + fuel))

pub same_fd : (fd : ℤ) → eq_int fd fd ≡ true
same_fd fd = (eq_int_iff fd fd).1 refl
