-- ===== src/Fgrep/LineSearch/Ownership.antt =====
-- Which blocks the loop over the lines owns.
use sys_programming_explorat.Base.{ℕ, zero, suc, ◌+◌, List, ◌++◌, Option, none, some}
use sys_programming_explorat.Libc.{Allocator}
use sys_programming_explorat.LineStream
use sys_programming_explorat.LineStream.{LsErrorCode, ResultString, World, Device, buffer_of}
use sys_programming_explorat.LineStream.Ownership.{Holds, HoldsAfter, next-Holds}
use sys_programming_explorat.Fgrep.LineSearch.{
  Report, reports, search_line, search_result, search_lines,
}

module _ {S : Type 0} (base : List ℕ) where
  -- Behind the loop the stream owns its blocks, and nothing more is live than before.
  abbrev pub HoldsAtEnd : Option (List Report × LsErrorCode × World S) → Type 0
  HoldsAtEnd none = Unit {0}
  HoldsAtEnd (some (found, code, w)) = Holds base w.stream w.heap

  later-Holds :
      (found : List Report) (r : Option (List Report × LsErrorCode × World S))
      → HoldsAtEnd r
      → HoldsAtEnd
          (elim r [ none ↦ none | some (later, code, w') ↦ some (found ++ later, code, w') ])
  later-Holds found none o = o
  later-Holds found (some (later, code, w')) o = o

  module _ (a : Allocator) (read : Device S) (pattern beyond : List ℕ) where
    result-Holds :
        (again : ℕ → World S → Option (List Report × LsErrorCode × World S))
        → ((lineno : ℕ) (w : World S) → Holds base w.stream w.heap → HoldsAtEnd (again lineno w))
        → (lineno : ℕ) (out : ResultString × World S) → Holds base out.1.stream out.1.heap
        → HoldsAtEnd (search_result a read pattern beyond again lineno out)
    unfolding search_result
    result-Holds again k lineno (ResultString.err code message, w) o = o
    result-Holds again k lineno (ResultString.ok line, w) o =
        elim (search_line pattern ((buffer_of w).bytes ++ beyond) line.cursor line.size line.size 0)
          as (λ r. HoldsAtEnd (elim r [
            | none ↦ none
            | some offsets ↦ elim (again (lineno + 1) w) [
              | none ↦ none
              | some (later, code, w') ↦ some (reports lineno offsets ++ later, code, w')
            ]
          ])) [
            | none ↦ record {}
            | some offsets ↦
                later-Holds (reports lineno offsets) (again (lineno + 1) w) (k (lineno + 1) w o)
          ]

    pub search_lines-Holds :
        (fuel lines lineno : ℕ) (w : World S)
        → Holds base w.stream w.heap
        → HoldsAtEnd (search_lines a read pattern beyond fuel lines lineno w)
    unfolding search_lines
    search_lines-Holds fuel zero lineno w o = record {}
    search_lines-Holds fuel (suc lines) lineno w o =
        let again = search_lines a read pattern beyond fuel lines in
        (elim (LineStream.next a read fuel w)
            as (λ r.
              HoldsAfter base r
              → HoldsAtEnd (elim r [
                | none ↦ none
                | some out ↦ search_result a read pattern beyond again lineno out
              ])) [
                | none ↦ λ done. record {}
                | some out ↦
                    λ held. result-Holds again (search_lines-Holds fuel lines) lineno out held
              ])
          (next-Holds base a read fuel w o)
