-- ===== src/Fgrep/Tests.antt =====
-- Searches of small files.
use sys_programming_explorat.Base.{ℕ, ◌≡◌, refl, List, [], ◌∷◌, some, arith, pos}
use sys_programming_explorat.Libc.Memmem.{starts_with, memmem}
use sys_programming_explorat.LineStream.OneByOne.{one_by_one, one_by_one-IsStream}
use sys_programming_explorat.Fgrep.{
  Outcome, returned, read_and_search_mmap, read_and_search, pattern_search,
}
use sys_programming_explorat.Fgrep.Scan.{scan, walk}
use sys_programming_explorat.Fgrep.Mmap.{read_and_search_mmap-scan}
use sys_programming_explorat.Fgrep.Chunks.{Searched, read_and_search-Ends}

-- "ab", and a file "aabcab".
abbrev ab : List ℕ
ab = 97 ∷ 98 ∷ []

abbrev small_file : List ℕ
small_file = 97 ∷ 97 ∷ 98 ∷ 99 ∷ 97 ∷ 98 ∷ []

scan-small_file : scan ab 0 small_file ≡ 97 ∷ 98 ∷ 10 ∷ 97 ∷ 98 ∷ 10 ∷ []
unfolding walk starts_with
scan-small_file = refl

read_and_search-one_by_one :
    read_and_search one_by_one (pos 3) ab 13 small_file
    ≡ some (returned (97 ∷ 98 ∷ 10 ∷ 97 ∷ 98 ∷ 10 ∷ []))
unfolding read_and_search pattern_search memmem starts_with
read_and_search-one_by_one = refl

read_and_search_mmap-scan_example :
    read_and_search_mmap 6 (some 6) (λ n. some small_file) ab
    ≡ some (returned (scan ab 0 small_file))
read_and_search_mmap-scan_example =
    read_and_search_mmap-scan (λ n. some small_file) ab small_file (omega arith) (omega arith)
      (omega arith) refl

read_and_search-Ends_example :
    (o : Outcome) × (read_and_search one_by_one (pos 3) ab 13 small_file ≡ some o)
    × Searched one_by_one (pos 3) ab small_file o
read_and_search-Ends_example =
    read_and_search-Ends (λ l. l) one_by_one (pos 3) ab 13 small_file (omega arith) (omega arith)
      one_by_one-IsStream (omega arith)
