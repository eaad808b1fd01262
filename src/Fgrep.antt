-- ===== src/Fgrep.antt =====
-- fixed_grep/fgrep.c: two searches of a file for a fixed string, over the whole file in memory and
-- over chunks that read(2) delivers. `chunk` is the list of the bytes from `cursor` on, `len` many.
-- read(2), fstat(2) and mmap(2) are parameters; standard output is the list of the bytes written.
pub mod Scan
pub mod Mmap
pub mod Chunks
pub mod LineSearch
mod Tests
use sys_programming_explorat.Base.{
  ℕ, zero, suc, ◌+◌, ◌-◌, ◌*◌, List, [], ◌∷◌, ◌++◌, Option, none, some, ltb, leb, ◌==◌,
  if◌then◌else◌, ℤ, length, drop,
}
use sys_programming_explorat.Libc.Memmem.{memmem}
use sys_programming_explorat.LineStream.{Reading, got, failed, Device}

-- How a search ends, and what it wrote: it returns, or the process ends with status 1.
pub data Outcome : Type 0 where
  returned : List ℕ → Outcome
  exited : List ℕ → Outcome

-- Output that was written before.
pub after_output : List ℕ → Outcome → Outcome
after_output out (returned rest) = returned (out ++ rest)
after_output out (exited rest) = exited (out ++ rest)

-- `1 * KiB - 1`
abbrev pub max_pattern_len : ℕ
max_pattern_len = 1023

-- 4 * MiB
abbrev pub bytes_to_read : ℕ
bytes_to_read = 4 * (1024 * 1024)

-- `buf_len`
abbrev pub buf_len : ℕ
buf_len = bytes_to_read + 1024

-- pattern_search
unfoldable pub pattern_search : List ℕ → List ℕ → Option ℕ
pattern_search pattern text = memmem text pattern

-- `fwrite(found, 1, pattern_len, stdout); fputc('\n', stdout)`: the bytes found are the pattern.
abbrev pub report : List ℕ → List ℕ
report pattern = pattern ++ (10 ∷ [])

-- The loop of read_and_search_mmap from `cursor` on, at most `fuel` rounds; `none` if that is not
-- enough.
pub mmap_loop : ℕ → List ℕ → List ℕ → Option (List ℕ)
mmap_loop zero pattern text = if ltb (length text) (length pattern) then some [] else none
mmap_loop (suc fuel) pattern text =
    if ltb (length text) (length pattern) then some [] else elim (pattern_search pattern text) [
      | none ↦ some []
      | some found ↦ elim (mmap_loop fuel pattern (drop (found + length pattern) text)) [
        | none ↦ none
        | some out ↦ some (report pattern ++ out)
      ]
    ]

-- read_and_search_mmap, with what fstat answers for the size (`none` for -1), and mmap for a size
-- (`none` for MAP_FAILED). A pattern has no null byte, so its strnlen is its length, 1024 at most.
unfoldable pub read_and_search_mmap : ℕ → Option ℕ → (ℕ → Option (List ℕ)) → List ℕ → Option Outcome
unfolding mmap_loop
read_and_search_mmap fuel st_size mmap pattern =
    if ltb max_pattern_len (length pattern) then some (exited []) else elim st_size [
      | none ↦ some (exited [])
      | some size ↦ if size == 0 then some (returned []) else elim (mmap size) [
        | none ↦ some (exited [])
        | some file ↦ elim (mmap_loop fuel pattern file) [
          | none ↦ none
          | some out ↦ some (returned out)
        ]
      ]
    ]

-- What the search of a chunk leaves of it: what follows the match, or the last bytes, in which a
-- match may begin.
pub search_chunk : List ℕ → List ℕ → List ℕ × List ℕ
search_chunk pattern chunk = elim (pattern_search pattern chunk) [
  | some found ↦ (report pattern, drop (found + length pattern) chunk)
  | none ↦ ([], drop ((length chunk - length pattern) + 1) chunk)
]

module _ {S : Type 0} (read : Device S) (fd : ℤ) (pattern : List ℕ) where
  -- What follows a read: the end of the file, a failure, or the loop again on a longer chunk.
  pub take_bytes : (List ℕ → S → Option Outcome) → List ℕ → Reading × S → Option Outcome
  take_bytes again chunk (got [], s) = some (returned [])
  take_bytes again chunk (failed m, s) = some (exited [])
  take_bytes again chunk (got (b ∷ bs), s) = again (chunk ++ (b ∷ bs)) s

  -- `while (1)`, at most `fuel` rounds; `none` if that is not enough.
  pub chunk_loop : ℕ → List ℕ → S → Option Outcome
  chunk_loop zero chunk s = none
  chunk_loop (suc fuel) chunk s =
      let (out, chunk') = search_chunk pattern chunk in
      let searched = chunk_loop fuel chunk' s in
      let refilled = take_bytes (chunk_loop fuel) chunk (read fd bytes_to_read s) in
      if leb (length pattern) (length chunk)
      then elim searched [ none ↦ none | some o ↦ some (after_output out o) ]
      else refilled

  -- malloc is not tested by the code; this is a run where it grants the buffer.
  unfoldable pub read_and_search : ℕ → S → Option Outcome
  unfolding chunk_loop search_chunk take_bytes after_output
  read_and_search fuel s =
      if ltb max_pattern_len (length pattern) then some (exited []) else chunk_loop fuel [] s
