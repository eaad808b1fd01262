-- ===== src/SingleServer/Tests.antt =====
-- A connection on which "AB" comes in and recv fails then.
use sys_programming_explorat.Base.{ℕ, zero, suc, ◌≡◌, refl, [], ◌∷◌, true, none, some, pos, length}
use sys_programming_explorat.Posix.{Received, got, recv_error, Event, System}
use sys_programming_explorat.Posix.Log.{recvs}
use sys_programming_explorat.SingleServer.{serve_connection}
use sys_programming_explorat.SingleServer.Echo.{Served, serve_connection-Served}

abbrev chunk : ℕ → Received
chunk zero = got (65 ∷ 66 ∷ [])
chunk (suc n) = recv_error

abbrev breaker : System
breaker = record {
  resolves = λ h port. none;
  opens = λ h addr. pos 3;
  binds = λ h fd addr. true;
  listens = λ h fd. true;
  accepts = λ h fd. pos 4;
  receives = λ h fd. chunk (recvs h);
  sends = λ h fd bs. some (length bs);
  forks = λ h. pos 0;
  grants = λ h. true;
  creates = λ h fd. true;
}

-- The descriptor 4 is not closed.
serve_connection-breaker : serve_connection breaker 5 (pos 4) [] ≡ (
  some true,
  Event.recv (pos 4) recv_error
      ∷ Event.send (pos 4) (65 ∷ 66 ∷ []) (some 2)
      ∷ Event.recv (pos 4) (got (65 ∷ 66 ∷ []))
      ∷ [],
)
unfolding serve_connection
serve_connection-breaker = refl

serve_connection-Served_example : Served 5 (pos 4) [] (serve_connection breaker 5 (pos 4) [])
serve_connection-Served_example = serve_connection-Served breaker (λ h fd b bs. refl) 5 (pos 4) []
