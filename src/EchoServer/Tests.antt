-- ===== src/EchoServer/Tests.antt =====
-- A client that sends "AB" and "C" and goes, on a system with memory for one thread only.
use sys_programming_explorat.Base.{
  ℕ, zero, suc, ◌≡◌, refl, [], ◌∷◌, true, false, none, some, ltb, pos, length,
}
use sys_programming_explorat.Posix.{Received, got, Event, History, System}
use sys_programming_explorat.Posix.Log.{recvs, threads}
use sys_programming_explorat.EchoServer.{thread_worker, accept_client, accept_rounds}
use sys_programming_explorat.EchoServer.Accounts.{
  ClosedLast, Accounted, thread_worker-ClosedLast, accept_rounds-Accounted,
}

abbrev chunk : ℕ → Received
chunk zero = got (65 ∷ 66 ∷ [])
chunk (suc zero) = got (67 ∷ [])
chunk (suc (suc n)) = got []

abbrev talker : System
talker = record {
  resolves = λ h port. none;
  opens = λ h addr. pos 3;
  binds = λ h fd addr. true;
  listens = λ h fd. true;
  accepts = λ h fd. pos 4;
  receives = λ h fd. chunk (recvs h);
  sends = λ h fd bs. some (length bs);
  forks = λ h. pos 0;
  grants = λ h. ltb (threads h) 1;
  creates = λ h fd. true;
}

accept_rounds-talker : accept_rounds talker 2 (pos 3) [] ≡ (
  some tt,
  Event.malloc false
      ∷ Event.accept (pos 3) (pos 4)
      ∷ Event.pthread_create (pos 4) true
      ∷ Event.malloc true
      ∷ Event.accept (pos 3) (pos 4)
      ∷ [],
)
unfolding accept_rounds accept_client
accept_rounds-talker = refl

thread_worker-ClosedLast_example : ClosedLast talker (pos 4) 0 (thread_worker talker 3 (pos 4) [])
thread_worker-ClosedLast_example = thread_worker-ClosedLast talker 3 (pos 4) []

accept_rounds-Accounted_example :
    (h : History) × (accept_rounds talker 2 (pos 3) [] ≡ (some tt, h))
    × Accounted talker (pos 4) [] h
accept_rounds-Accounted_example = accept_rounds-Accounted talker (pos 4) 2 (pos 3) []
