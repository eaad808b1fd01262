-- ===== src/Fgrep/Mmap.antt =====
-- read_and_search_mmap against a scan of the file.
use native.Mathlib.Decide.{dec_lt}
use sys_programming_explorat.Base.{
  ℕ, zero, suc, ◌+◌, ◌≤◌, ◌<◌, ◌≡◌, List, [], Option, some, arith, length, drop, Option-cases, inl,
  inr, length-drop,
}
use sys_programming_explorat.Libc.Memmem.{memmem, memmem-some}
use sys_programming_explorat.Fgrep.{
  report, returned, pattern_search, mmap_loop, read_and_search_mmap, max_pattern_len,
}
use sys_programming_explorat.Fgrep.Scan.{scan, walk-memmem-none, walk-memmem-some, walk-short}

pub mmap_loop-scan :
    (fuel : ℕ) (pattern text : List ℕ)
    → 0 < length pattern
    → length text ≤ fuel
    → mmap_loop fuel pattern text ≡ some (scan pattern 0 text)
unfolding mmap_loop pattern_search
mmap_loop-scan zero pattern text h enough =
    let nothing : scan pattern 0 text ≡ [] =
      walk-short (λ text. report pattern) pattern text (omega arith) in
    ground arith
mmap_loop-scan (suc fuel) pattern text h enough = elim (dec_lt (length text) (length pattern)) [
  | yes short ↦
      let nothing : scan pattern 0 text ≡ [] =
        walk-short (λ text. report pattern) pattern text short in
      ground arith
  | no long ↦ elim (Option-cases (memmem text pattern)) [
    | inl out ↦ ground (arith, walk-memmem-none (λ text. report pattern) pattern text out)
    | inr (i, found) ↦
        let (inside, _) = memmem-some text pattern i found in
        let rest =
          mmap_loop-scan fuel pattern (drop (i + length pattern) text) h
            (omega (arith, length-drop (i + length pattern) text)) in
        ground (arith, walk-memmem-some (λ text. report pattern) pattern text i h found)
  ]
]

-- For a pattern of 1 to 1023 bytes and a file that is not empty, and that mmap maps whole:
-- read_and_search_mmap returns, and writes the pattern once for each of its places in the file,
-- from left to right, that do not overlap. As many rounds as the file has bytes are enough.
pub read_and_search_mmap-scan :
    (mmap : ℕ → Option (List ℕ)) (pattern file : List ℕ)
    → 0 < length pattern
    → length pattern ≤ max_pattern_len
    → 0 < length file
    → mmap (length file) ≡ some file
    → read_and_search_mmap (length file) (some (length file)) mmap pattern
      ≡ some (returned (scan pattern 0 file))
unfolding read_and_search_mmap
read_and_search_mmap-scan mmap pattern file h short full mapped =
    ground (arith, mmap_loop-scan (length file) pattern file h)
