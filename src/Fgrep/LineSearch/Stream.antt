-- ===== src/Fgrep/LineSearch/Stream.antt =====
-- The loop over the lines: which lines are searched, and under which numbers.
use sys_programming_explorat.Base.{
  ℕ, zero, suc, ◌+◌, ◌<◌, ◌≡◌, inl, inr, refl, sym, ap, subst, ◌∙◌, List, [], ◌∷◌, ◌++◌, Option,
  some, arith, length, length-append, slice, ◌≤◌, take, drop, length-take, length-drop,
  drop-append_less, take-append_less,
}
use sys_programming_explorat.Libc.{Allocator}
use sys_programming_explorat.ReadBuffer.Validity.{IsValid, contents}
use sys_programming_explorat.LineStream
use sys_programming_explorat.LineStream.{
  LsString, LsErrorCode, ResultString, init_failed, alloc_failed, read_failed, eof, null_arg, World,
  Device, buffer_of, newline,
}
use sys_programming_explorat.LineStream.Lines.{IsLine}
use sys_programming_explorat.LineStream.Next.{
  pending, AssureFailed, ReadFailed, Answers, IsStream, next-Answers,
}
use sys_programming_explorat.Fgrep.LineSearch.{
  Report, reports, search_line, search_result, search_lines,
}
use sys_programming_explorat.Fgrep.LineSearch.Columns.{offsets_in, IsPast, search_line-walk}

-- `Found pattern lineno all found left`: of `all`, whose first line has the number `lineno`, the
-- lines before `left` were searched, and `found` is what they have.
pub data Found (pattern : List ℕ) : ℕ → List ℕ → List Report → List ℕ → Type 0 where
  done : (lineno : ℕ) (all : List ℕ) → Found pattern lineno all [] all
  then_line :
      (lineno : ℕ) (all line rest extra left : List ℕ) (later : List Report)
      → IsLine all line rest
      → IsPast pattern line extra
      → Found pattern (lineno + 1) rest later left
      → Found pattern lineno all (reports lineno (offsets_in pattern line ++ extra) ++ later) left

-- A line with what follows the block of the buffer.
line-append :
    (block beyond : List ℕ) (cursor size : ℕ)
    → cursor + size ≤ length block
    → take size (drop cursor (block ++ beyond)) ≡ slice cursor size block
line-append block beyond cursor size fits =
    ap (take size) (drop-append_less cursor block beyond (omega arith))
    ∙ take-append_less size (drop cursor block) beyond (omega (arith, length-drop cursor block))

line-length : (all line rest : List ℕ) → IsLine all line rest → length line ≤ length all
line-length all line rest (_, inl split) =
    omega (arith, ap length split, length-append line (newline ∷ rest))
line-length all line rest (_, inr (whole, gone, some_left)) = omega (arith, ap length whole)

shorter : (all line rest : List ℕ) → IsLine all line rest → length rest < length all
shorter all line rest (_, inl split) =
    omega (arith, ap length split, length-append line (newline ∷ rest))
shorter all line rest (_, inr (whole, gone, some_left)) =
    omega (arith, ap length whole, ap length gone)

module _ {S : Type 0} (file : S → List ℕ) (a : Allocator) (read : Device S) where
  -- How the loop ends: with nothing left, or where the last call of readbuffer__assure or the last
  -- read has failed.
  abbrev pub EndsWith : LsErrorCode → World S → Type 0
  EndsWith eof w = pending file w ≡ []
  EndsWith alloc_failed w = AssureFailed file a read w
  EndsWith read_failed w = ReadFailed file a read w
  EndsWith init_failed w = ⊥
  EndsWith null_arg w = ⊥

module _ {S : Type 0} (file : S → List ℕ) (a : Allocator) (read : Device S)
    (law : IsStream file read) (pattern beyond : List ℕ) (h : 0 < length pattern) where
  abbrev Searched : ℕ → List ℕ → Option (List Report × LsErrorCode × World S) → Type 0
  Searched lineno all r =
      (found : List Report) × (code : LsErrorCode) × (w : World S) × (r ≡ some (found, code, w))
      × Found pattern lineno all found (pending file w)
      × EndsWith file a read code w

  -- A call that fails ends the loop.
  failed-Searched :
      (lineno : ℕ) (all : List ℕ) (code : LsErrorCode) (w : World S)
      → pending file w ≡ all
      → EndsWith file a read code w
      → Searched lineno all (some ([], code, w))
  failed-Searched lineno all code w kept ends = (
    [],
    code,
    w,
    refl,
    subst (λ l. Found pattern lineno l [] (pending file w)) kept (done lineno (pending file w)),
    ends,
  )

  result_line :
      (again : ℕ → World S → Option (List Report × LsErrorCode × World S)) (lineno : ℕ)
      (str : LsString) (w w' : World S) (offsets : List ℕ) (later : List Report)
      (code : LsErrorCode)
      → search_line pattern ((buffer_of w).bytes ++ beyond) str.cursor str.size str.size 0
        ≡ some offsets
      → again (lineno + 1) w ≡ some (later, code, w')
      → search_result a read pattern beyond again lineno (ResultString.ok str, w)
        ≡ some (reports lineno offsets ++ later, code, w')
  unfolding search_result
  result_line again lineno str w w' offsets later code here e = grind (arith, here, e)

  lines_step :
      (fuel lines lineno : ℕ) (w : World S) (out : ResultString × World S)
      → LineStream.next a read fuel w ≡ some out
      → search_result a read pattern beyond
          (search_lines a read pattern beyond fuel lines)
          lineno
          out
        ≡ search_lines a read pattern beyond fuel (suc lines) lineno w
  unfolding search_lines
  lines_step fuel lines lineno w out e = grind (arith, e)

  -- What follows the answer to a call, where the rest of the loop does what it should.
  answered :
      (again : ℕ → World S → Option (List Report × LsErrorCode × World S)) (lineno : ℕ)
      (all : List ℕ) (out : ResultString × World S)
      → IsValid (buffer_of out.1)
      → Answers file a read all out
      → length all ≤ length beyond
      → ((w : World S)
          → IsValid (buffer_of w)
          → length (pending file w) < length all
          → Searched (lineno + 1) (pending file w) (again (lineno + 1) w))
      → Searched lineno all (search_result a read pattern beyond again lineno out)
  unfolding search_result
  answered again lineno all (ResultString.ok str, w) v (answer, inside) mapped rest =
      let block : List ℕ = (buffer_of w).bytes in
      let line : List ℕ = slice str.cursor str.size block in
      let size : length line ≡ str.size =
        omega (arith, length-take str.size (drop str.cursor block), length-drop str.cursor block) in
      let same : take str.size (drop str.cursor (block ++ beyond)) ≡ line =
        line-append block beyond str.cursor str.size inside in
      let (extra, here, past) =
        search_line-walk pattern (block ++ beyond) str.cursor str.size h
          (omega
            (arith, length-append block beyond, size, line-length all line (pending file w) answer))
          str.size 0 (omega arith) (omega arith) in
      let (later, code, w', e, found, ends) = rest w v (shorter all line (pending file w) answer) in
      (
        reports lineno (offsets_in pattern line ++ extra) ++ later,
        code,
        w',
        result_line again lineno str w w' (offsets_in pattern line ++ extra) later code
            (here ∙ ap (λ l. some (offsets_in pattern l ++ extra)) same) e,
        then_line lineno all line (pending file w) extra (pending file w') later answer
            (subst (λ l. IsPast pattern l extra) same past) found,
        ends,
      )
  answered again lineno all (ResultString.err eof m, w) v (nothing, left) mapped rest =
      failed-Searched lineno all eof w (left ∙ sym nothing) left
  answered again lineno all (ResultString.err alloc_failed m, w) v (kept, why) mapped rest =
      failed-Searched lineno all alloc_failed w kept why
  answered again lineno all (ResultString.err read_failed m, w) v (kept, why) mapped rest =
      failed-Searched lineno all read_failed w kept why
  answered again lineno all (ResultString.err init_failed m, w) v answer mapped rest = absurd answer
  answered again lineno all (ResultString.err null_arg m, w) v answer mapped rest = absurd answer

  pub search_lines-Found :
      (fuel lines lineno : ℕ) (w : World S)
      → IsValid (buffer_of w)
      → length (pending file w) < fuel
      → length (pending file w) < lines
      → length (pending file w) ≤ length beyond
      → Searched lineno (pending file w) (search_lines a read pattern beyond fuel lines lineno w)
  unfolding search_lines
  search_lines-Found fuel zero lineno w v enough more mapped = absurd (omega arith)
  search_lines-Found fuel (suc lines) lineno w v enough more mapped =
      let deliver : length (file w.source) < fuel =
        omega (arith, length-append (contents (buffer_of w)) (file w.source)) in
      let (out, e, v', answer) = next-Answers file a read fuel w law v deliver in
      subst (Searched lineno (pending file w)) (lines_step fuel lines lineno w out e) (
        answered (search_lines a read pattern beyond fuel lines) lineno (pending file w) out v'
          answer mapped
          (λ w' valid less.
            search_lines-Found fuel lines (lineno + 1) w' valid (omega arith) (omega arith)
              (omega arith)))
