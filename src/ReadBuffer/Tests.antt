-- ===== src/ReadBuffer/Tests.antt =====
-- Runs of readbuffer.c at small inputs, and the theorems at inputs that meet their hypotheses.
use Prim.Native.String.{String}
use sys_programming_explorat.Base.{
  ℕ, ◌≤◌, ◌<◌, ◌≡◌, ◌⊎◌, refl, [], ◌∷◌, true, none, some, arith, ◌^◌, size_max,
}
use sys_programming_explorat.Libc.{Allocator, Heap}
use sys_programming_explorat.ReadBuffer.{
  ReadBuffer, success, failure, overflow, next_power_of_two, double, assure, grow, reallocate,
  destroy,
}
use sys_programming_explorat.ReadBuffer.Powers.{IsRoundUp, next_power_of_two_total}
use sys_programming_explorat.ReadBuffer.Validity.{IsValid, contents}
use sys_programming_explorat.ReadBuffer.Assure.{
  Assured, assure-Assured, assure_succeeds, assure_overflows,
}
use sys_programming_explorat.ReadBuffer.Contents.{reserve, put, get, run, IsFifo, run-IsFifo}
use sys_programming_explorat.ReadBuffer.Ownership.{Owns, assure-Owns, destroy-Owns}

-- An allocator that grants everything, and a heap in which blocks 0 and 1 are live.
abbrev generous : Allocator
generous = record { grants = λ k n. true; junk = λ k i. 0 }

abbrev heap : Heap
heap = record { requests = 2; live = 1 ∷ 0 ∷ [] }

-- Eight bytes of storage; "hi" stands at its end.
abbrev buffer : ReadBuffer
buffer = record {
  self = 0;
  block = some 1;
  bytes = 1 ∷ 2 ∷ 3 ∷ 4 ∷ 5 ∷ 6 ∷ 104 ∷ 105 ∷ [];
  capacity = 8;
  length = 2;
  offset = 6;
}

buffer-IsValid : IsValid buffer
buffer-IsValid = omega arith

buffer-Owns : Owns [] buffer heap
buffer-Owns = record { live = refl; self_old = omega arith; block_old = omega arith }

contents-buffer : contents buffer ≡ 104 ∷ 105 ∷ []
contents-buffer = refl

assure_compacts : (assure generous buffer 6 heap).1.offset ≡ 0
unfolding assure
assure_compacts = refl

assure_grows : (assure generous buffer 7 heap).1.capacity ≡ 16
unfolding assure grow reallocate next_power_of_two double
assure_grows = refl

next_power_of_two_runs : next_power_of_two 4_194_304 ≡ some 4_194_304
unfolding next_power_of_two double
next_power_of_two_runs = refl

next_power_of_two_example :
    ((1000 ≤ 2 ^ 63) × (r : ℕ) × (next_power_of_two 1000 ≡ some r) × IsRoundUp 1000 r)
    ⊎ ((2 ^ 63 < 1000) × (next_power_of_two 1000 ≡ none))
next_power_of_two_example = next_power_of_two_total 1000 (omega arith)

assure_example : Assured buffer 7 heap (assure generous buffer 7 heap)
assure_example = assure-Assured generous 7 heap buffer-IsValid (omega arith)

assure_succeeds_example : (assure generous buffer 100 heap).0 ≡ success
assure_succeeds_example =
    assure_succeeds generous 100 heap buffer-IsValid (omega arith) (omega arith) (λ k m. refl)

assure_overflows_example :
    (m : String) × (assure generous buffer size_max heap ≡ (failure overflow m, buffer, heap))
assure_overflows_example =
    assure_overflows generous size_max heap buffer-IsValid (omega arith) (omega arith) (omega arith)

run_example :
    IsFifo buffer
      (run generous (reserve 20 ∷ put 10 (33 ∷ 34 ∷ []) 1 ∷ put 0 [] 99 ∷ get 3 ∷ []) buffer heap)
run_example =
    run-IsFifo generous (reserve 20 ∷ put 10 (33 ∷ 34 ∷ []) 1 ∷ put 0 [] 99 ∷ get 3 ∷ []) heap
      buffer-IsValid (omega arith)

assure-Owns_example :
    Owns [] (assure generous buffer 100 heap).1 (assure generous buffer 100 heap).2
assure-Owns_example = assure-Owns generous buffer [] heap buffer-Owns 100

destroy_example : (destroy buffer heap).live ≡ []
destroy_example = destroy-Owns buffer-Owns
