-- ===== src/Fgrep/LineSearch.antt =====
-- stream_line_and_search and main of fixed_grep/fgrep.c. A report stands for the line
-- `lineno:offset:pattern` that is printed. What is printed on standard error is left out.
pub mod Columns
pub mod Stream
pub mod Ownership
pub mod Whole
mod Tests
use sys_programming_explorat.Base.{
  ℕ, zero, suc, ◌+◌, List, [], ◌∷◌, ◌++◌, map, Bool, true, false, Option, none, some, ltb,
  if◌then◌else◌, length, take, drop, ℤ,
}
use sys_programming_explorat.Libc.{Allocator, Heap}
use sys_programming_explorat.LineStream
use sys_programming_explorat.LineStream.{
  LsString, LsErrorCode, ResultString, ResultLineStream, World, Device, buffer_of,
}
use sys_programming_explorat.Fgrep.{pattern_search, max_pattern_len}

pub record Report : Type 0 where
  pub lineno : ℕ
  pub offset : ℕ

-- The loop over one line, from `off` on, at most `fuel` rounds. Each search looks at `line.size`
-- bytes from its start, so it reads up to `off` bytes behind the line, also where the block of the
-- buffer ends. `memory` is what can be read from the front of that block on. `none`: the fuel is
-- not enough, or a search reads past `memory`.
unfoldable pub search_line : List ℕ → List ℕ → ℕ → ℕ → ℕ → ℕ → Option (List ℕ)
unfolding pattern_search
search_line pattern memory cursor size zero off = if ltb off size then none else some []
search_line pattern memory cursor size (suc fuel) off =
    if ltb off size
    then if ltb (length memory) (cursor + off + size)
      then none
      else elim (pattern_search pattern (take size (drop (cursor + off) memory))) [
        | none ↦ some []
        | some found ↦
            elim (search_line pattern memory cursor size fuel (off + found + length pattern)) [
              | none ↦ none
              | some offsets ↦ some ((off + found + 1) ∷ offsets)
            ]
      ]
    else some []

-- The reports of line number `lineno`, counted from 0.
abbrev pub reports : ℕ → List ℕ → List Report
reports lineno = map λ offset. record { lineno = lineno + 1; offset = offset }

-- `beyond` is what stands in memory behind the block of the buffer, taken to be the same throughout
-- and also where the block was moved.
module _ {S : Type 0} (a : Allocator) (read : Device S) (pattern beyond : List ℕ) where
  -- `fuel` is for each call of linestream__next, `lines` for the loop over the lines. What follows
  -- a call: the search of a line and the rest of the loop, or its end with the error.
  pub search_result :
      (ℕ → World S → Option (List Report × LsErrorCode × World S))
      → ℕ
      → ResultString × World S
      → Option (List Report × LsErrorCode × World S)
  search_result again lineno (ResultString.err code message, w) = some ([], code, w)
  search_result again lineno (ResultString.ok line, w) =
      elim (search_line pattern ((buffer_of w).bytes ++ beyond) line.cursor line.size line.size 0) [
        | none ↦ none
        | some offsets ↦ elim (again (lineno + 1) w) [
          | none ↦ none
          | some (later, code, w') ↦ some (reports lineno offsets ++ later, code, w')
        ]
      ]

  unfoldable pub search_lines : ℕ → ℕ → ℕ → World S → Option (List Report × LsErrorCode × World S)
  unfolding search_result
  search_lines fuel zero lineno w = none
  search_lines fuel (suc lines) lineno w = elim (LineStream.next a read fuel w) [
    | none ↦ none
    | some out ↦ search_result (search_lines fuel lines) lineno out
  ]

  -- The reports, the code that ended the loop, and the heap behind linestream__destroy; `none`
  -- inside is the end of the process, for a pattern that is too long or a stream that cannot be
  -- made.
  unfoldable pub stream_line_and_search :
      ℕ → ℕ → ℕ → ℤ → S → Heap → Option (Option (List Report × LsErrorCode × S × Heap))
  stream_line_and_search page_size fuel lines fd s h =
      if ltb max_pattern_len (length pattern)
      then some none
      else (let (created, h') = LineStream.create a page_size fd h in
          elim created [
            | ResultLineStream.err code message ↦ some none
            | ResultLineStream.ok ls ↦
                elim (search_lines fuel lines 0 (record { stream = ls; source = s; heap = h' })) [
                  | none ↦ none
                  | some (found, code, w) ↦
                      some (some (found, code, w.source, LineStream.destroy w.stream w.heap))
                ]
          ])

-- What main needs of the system: the descriptor that open(2) answers for a path, and what it then
-- reads from. It is not tested whether open failed.
pub record Files (S : Type 0) : Type 0 where
  pub open_path : List ℕ → ℤ × S

-- `none` inside is exit(1), also for a missing argument; the descriptor that is closed at the end
-- is the one that was opened.
unfoldable pub main :
    {S : Type 0}
    → Allocator
    → Device S
    → Files S
    → List ℕ
    → ℕ
    → ℕ
    → ℕ
    → List (List ℕ)
    → Heap
    → Option (Option (List Report × ℤ))
unfolding stream_line_and_search
main a read files beyond page_size fuel lines (program ∷ pattern ∷ path ∷ more) h =
    let (fd, s) = files.open_path path in
    elim (stream_line_and_search a read pattern beyond page_size fuel lines fd s h) [
      | none ↦ none
      | some none ↦ some none
      | some (some (found, code, s', h')) ↦ some (some (found, fd))
    ]
main a read files beyond page_size fuel lines argv h = some none
