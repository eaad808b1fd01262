-- ===== src/Fgrep/LineSearch/Tests.antt =====
-- Searches of single lines, and the theorems at inputs that meet their hypotheses.
use sys_programming_explorat.Base.{
  ℕ, ◌≡◌, ◌++◌, ◌+◌, ◌-◌, length, refl, List, [], ◌∷◌, true, none, some, arith, pos, take,
}
use sys_programming_explorat.Libc.{Allocator, Heap}
use sys_programming_explorat.Libc.Memmem.{memmem, starts_with}
use sys_programming_explorat.LineStream.OneByOne.{one_by_one, one_by_one-IsStream}
use sys_programming_explorat.Fgrep.{pattern_search}
use sys_programming_explorat.Fgrep.Scan.{walk}
use sys_programming_explorat.Fgrep.LineSearch.{search_line, stream_line_and_search, main, Files}
use sys_programming_explorat.Fgrep.LineSearch.Columns.{offsets_in, IsPast, search_line-walk}
use sys_programming_explorat.Fgrep.LineSearch.Whole.{Finished, stream_line_and_search-Finished}

-- "a", and the lines "aab" and "a".
abbrev a_pattern : List ℕ
a_pattern = 97 ∷ []

abbrev two_lines : List ℕ
two_lines = 97 ∷ 97 ∷ 98 ∷ 10 ∷ 97 ∷ []

-- A last line, up to the end of the block.
abbrev last_line : List ℕ
last_line = 98 ∷ 97 ∷ 98 ∷ []

-- Behind a place in it, the search of the last line reads past the block.
search_line-reads_past : search_line a_pattern last_line 0 3 3 0 ≡ none
unfolding search_line pattern_search memmem starts_with
search_line-reads_past = refl

-- Five bytes of memory behind a block.
abbrev behind : List ℕ
behind = 0 ∷ 0 ∷ 0 ∷ 0 ∷ 0 ∷ []

-- The search of the first line, of 3 bytes, reports the offset 5, which is in the second.
search_line-reads_on : search_line a_pattern (two_lines ++ behind) 0 3 3 0 ≡ some (1 ∷ 2 ∷ 5 ∷ [])
unfolding search_line pattern_search memmem starts_with
search_line-reads_on = refl

offsets_in-first_line : offsets_in a_pattern (take 3 two_lines) ≡ 1 ∷ 2 ∷ []
unfolding walk starts_with
offsets_in-first_line = refl

-- An empty pattern is found where the search begins, again and again.
search_line-empty_pattern : search_line [] (two_lines ++ behind) 0 3 100 0 ≡ none
unfolding search_line pattern_search memmem starts_with
search_line-empty_pattern = refl

search_line-walk_example :
    (extra : List ℕ) × (search_line a_pattern (two_lines ++ behind) 0 3 3 0
      ≡ some (walk (λ text. (3 - length text + 1) ∷ []) a_pattern 0 (take 3 two_lines) ++ extra))
    × IsPast a_pattern (take 3 two_lines) extra
search_line-walk_example =
    search_line-walk a_pattern (two_lines ++ behind) 0 3 (omega arith) (omega arith) 3 0
      (omega arith) (omega arith)

abbrev generous : Allocator
generous = record { grants = λ k n. true; junk = λ k i. 0 }

abbrev heap : Heap
heap = record { requests = 0; live = [] }

stream_line_and_search-Finished_example :
    Finished
      (λ l. l)
      generous
      one_by_one
      a_pattern
      behind
      4096
      (pos 3)
      two_lines
      heap
      (stream_line_and_search generous one_by_one a_pattern behind 4096 6 6 (pos 3) two_lines heap)
stream_line_and_search-Finished_example =
    stream_line_and_search-Finished (λ l. l) generous one_by_one a_pattern behind 4096 6 6 (pos 3)
      two_lines heap one_by_one-IsStream (omega arith) (omega arith) (omega arith) (omega arith)
      (omega arith) (omega arith)

-- Without a pattern and a path the process exits.
abbrev no_files : Files (List ℕ)
no_files = record { open_path = λ path. (pos 3, []) }

main-without_path :
    main generous one_by_one no_files behind 4096 6 6 ((103 ∷ []) ∷ (97 ∷ []) ∷ []) heap ≡ some none
unfolding main
main-without_path = refl
