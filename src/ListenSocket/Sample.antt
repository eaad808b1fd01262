-- ===== src/ListenSocket/Sample.antt =====
-- For tests: a system with two addresses for each port, of which the first cannot be opened.
use sys_programming_explorat.Base.{ℕ, zero, suc, List, [], ◌∷◌, true, none, some, ℤ, pos, negsuc}
use sys_programming_explorat.Posix.{System, got}

abbrev pub second_address : ℕ → ℤ
second_address zero = negsuc 0
second_address (suc n) = pos 3

abbrev pub sample : System
sample = record {
  resolves = λ h port. some (0 ∷ 1 ∷ []);
  opens = λ h addr. second_address addr;
  binds = λ h fd addr. true;
  listens = λ h fd. true;
  accepts = λ h fd. pos 4;
  receives = λ h fd. got [];
  sends = λ h fd bs. none;
  forks = λ h. pos 0;
  grants = λ h. true;
  creates = λ h fd. true;
}

abbrev pub port_8080 : List ℕ
port_8080 = 56 ∷ 48 ∷ 56 ∷ 48 ∷ []
