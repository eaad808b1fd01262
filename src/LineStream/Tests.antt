-- ===== src/LineStream/Tests.antt =====
-- Runs of linestream.c over a small file, and the theorems at inputs that meet their hypotheses.
use sys_programming_explorat.Base.{
  ℕ, zero, suc, ◌≡◌, ◌<◌, refl, sym, ap, List, [], ◌∷◌, true, some, arith, pos, take, drop,
  take-append-drop, length-take,
}
use sys_programming_explorat.Libc.{Allocator}
use sys_programming_explorat.ReadBuffer.Validity.{IsValid}
use sys_programming_explorat.LineStream.{ResultString, World, Device, got, buffer_of, next}
use sys_programming_explorat.LineStream.Next.{Answers, Delivers, IsStream, next-Answers}

-- A regular file: what is left of it, read in order.
abbrev regular_file : Device (List ℕ)
regular_file fd n s = (got (take n s), drop n s)

regular_file-Delivers :
    (n : ℕ) (s : List ℕ) → 0 < n → Delivers (λ l. l) n s (got (take n s), drop n s)
regular_file-Delivers zero s p = absurd (omega arith)
regular_file-Delivers (suc n) [] p = (refl, refl)
regular_file-Delivers (suc n) (x ∷ xs) p =
    (omega (arith, length-take n xs), ap (◌∷◌ x) (sym (take-append-drop n xs)))

regular_file-IsStream : IsStream (λ l. l) regular_file
regular_file-IsStream fd n s p = regular_file-Delivers n s p

abbrev generous : Allocator
generous = record { grants = λ k n. true; junk = λ k i. 0 }

-- "a" is in the buffer, and "b\nc" in the file.
abbrev world : World (List ℕ)
world = record {
  stream = record {
    self = 0;
    fd = pos 3;
    read_buffer = record {
      self = 1;
      block = some 2;
      bytes = 97 ∷ 0 ∷ [];
      capacity = 2;
      length = 1;
      offset = 0;
    };
  };
  source = 98 ∷ 10 ∷ 99 ∷ [];
  heap = record { requests = 3; live = 2 ∷ 1 ∷ 0 ∷ [] };
}

next-Answers_example :
    (out : ResultString × World (List ℕ)) × (next generous regular_file 4 world ≡ some out)
    × IsValid (buffer_of out.1)
    × Answers (λ l. l) generous regular_file (97 ∷ 98 ∷ 10 ∷ 99 ∷ []) out
next-Answers_example =
    next-Answers (λ l. l) generous regular_file 4 world regular_file-IsStream (omega arith)
      (omega arith)
