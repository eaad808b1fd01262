-- ===== src/LineStream/OneByOne.antt =====
-- A descriptor for tests: it delivers what is left of a file one byte at a time.
use sys_programming_explorat.Base.{ℕ, refl, List, [], ◌∷◌, arith}
use sys_programming_explorat.LineStream.{Device, got}
use sys_programming_explorat.LineStream.Next.{IsStream}

abbrev pub one_by_one : Device (List ℕ)
one_by_one fd n [] = (got [], [])
one_by_one fd n (b ∷ bs) = (got (b ∷ []), bs)

pub one_by_one-IsStream : IsStream (λ l. l) one_by_one
one_by_one-IsStream fd n [] p = (refl, refl)
one_by_one-IsStream fd n (b ∷ bs) p = (omega arith, refl)
