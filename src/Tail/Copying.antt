-- ===== src/Tail/Copying.antt =====
-- What reaches standard output.
use sys_programming_explorat.Base.{
  ℕ, zero, suc, ◌≤◌, ◌<◌, ◌≡◌, ◌⊎◌, inl, inr, refl, sym, ap, subst, ◌∙◌, Bool, true, false, List,
  [], ◌∷◌, ◌++◌, append-nil, append_assoc, Option, none, some, arith, ℤ, length, take, drop,
  take-append-drop, length-drop, length-append,
}
use Prim.Native.String.{String}
use sys_programming_explorat.LineStream.{Reading, got, failed, Device}
use sys_programming_explorat.LineStream.Next.{Delivers, IsStream}
use sys_programming_explorat.Tail.{
  Sink, page_size, after_write, defensive_write, after_page, write_bytes, write_till_eof,
}

-- `done`: all bytes came behind `before`; otherwise the process ended, and a first part did.
abbrev pub Written : List ℕ → List ℕ → Bool → List ℕ → Type 0
Written before bytes true now = now ≡ before ++ bytes
Written before bytes false now =
    (part : List ℕ) × (rest : List ℕ) × (now ≡ before ++ part) × (bytes ≡ part ++ rest)

-- What was written in two steps.
pub Written-append :
    (before first bytes : List ℕ) (went : Bool) (now : List ℕ)
    → Written (before ++ first) bytes went now
    → Written before (first ++ bytes) went now
Written-append before first bytes true now w = w ∙ append_assoc before first bytes
Written-append before first bytes false now (part, rest, w, cut) = (
  first ++ part,
  rest,
  w ∙ append_assoc before first part,
  ap (◌++◌ first) cut ∙ sym (append_assoc first part rest),
)

-- The first step fails: a first part of the first step is a first part of both.
pub Written-failed :
    (before first bytes now : List ℕ)
    → Written before first false now
    → Written before (first ++ bytes) false now
Written-failed before first bytes now (part, rest, w, cut) =
    (part, rest ++ bytes, w, ap (λ l. l ++ bytes) cut ∙ append_assoc part rest bytes)

module _ {Out : Type 0} (output : Out → List ℕ) where
  -- What write(2) documents: it takes some of the bytes, at least one, from the front, or fails.
  abbrev pub Takes : List ℕ → Out → Option ℕ × Out → Type 0
  Takes bytes out (none, out') = output out' ≡ output out
  Takes bytes out (some n, out') =
      (0 < n) × (n ≤ length bytes) × (output out' ≡ output out ++ take n bytes)

  abbrev pub IsSink : Sink Out → Type 0
  IsSink write = (b : ℕ) (bs : List ℕ) (out : Out) → Takes (b ∷ bs) out (write (b ∷ bs) out)

  -- The last write failed, and left `out'`.
  abbrev pub WriteFailed : Sink Out → Out → Type 0
  WriteFailed write out' = (bytes : List ℕ) × (out : Out) × (write bytes out ≡ (none, out'))

  abbrev pub StoppedBy : Sink Out → Bool → Out → Type 0
  StoppedBy write true out' = Unit {0}
  StoppedBy write false out' = WriteFailed write out'

  -- The last read or the last write failed.
  abbrev pub EndedBy : {S : Type 0} → Sink Out → Device S → ℤ → Bool → S → Out → Type 0
  EndedBy {S} write read fd true s out' = Unit {0}
  EndedBy {S} write read fd false s out' =
      ((before : S) × (m : String) × (read fd page_size before ≡ (failed m, s)))
      ⊎ WriteFailed write out'

  module _ (write : Sink Out) (sink : IsSink write) where
    abbrev Ends : List ℕ → List ℕ → Option (Bool × Out) → Type 0
    Ends before bytes result =
        (went : Bool) × (out' : Out) × (result ≡ some (went, out'))
        × Written before bytes went (output out')
        × StoppedBy write went out'

    Ends-take :
        (before bytes : List ℕ) (n : ℕ) (result : Option (Bool × Out))
        → Ends (before ++ take n bytes) (drop n bytes) result
        → Ends before bytes result
    Ends-take before bytes n result (went, out', e, w, why) = (
      went,
      out',
      e,
      subst (λ all. Written before all went (output out')) (take-append-drop n bytes)
          (Written-append before (take n bytes) (drop n bytes) went (output out') w),
      why,
    )

    after_write-Ends :
        (again : List ℕ → Out → Option (Bool × Out)) (bytes : List ℕ) (out : Out)
        (answer : Option ℕ × Out)
        → Takes bytes out answer
        → write bytes out ≡ answer
        → ((n : ℕ) (out' : Out)
            → 0 < n
            → n ≤ length bytes
            → Ends (output out') (drop n bytes) (again (drop n bytes) out'))
        → Ends (output out) bytes (after_write write again bytes answer)
    unfolding after_write
    after_write-Ends again bytes out (none, out') same run k = (
      false,
      out',
      refl,
      ([], bytes, same ∙ sym (append-nil (output out)), refl),
      (bytes, out, run),
    )
    after_write-Ends again bytes out (some n, out') (more, within, now) run k =
        Ends-take (output out) bytes n (again (drop n bytes) out') (
          subst (λ o. Ends o (drop n bytes) (again (drop n bytes) out')) now (k n out' more within))

    -- Where write takes at least one byte from the front, or fails, defensive_write ends, with fuel
    -- for each byte. It writes all bytes in order, whatever the portions that write takes; or write
    -- fails in the end, and a first part of them is written.
    pub defensive_write-Ends :
        (fuel : ℕ) (bytes : List ℕ) (out : Out)
        → length bytes ≤ fuel
        → (went : Bool) × (out' : Out) × (defensive_write write fuel bytes out ≡ some (went, out'))
          × Written (output out) bytes went (output out')
          × StoppedBy write went out'
    unfolding defensive_write
    defensive_write-Ends fuel [] out h = (true, out, refl, sym (append-nil (output out)), tt)
    defensive_write-Ends zero (b ∷ bs) out h = absurd (omega arith)
    defensive_write-Ends (suc fuel) (b ∷ bs) out h =
        after_write-Ends (defensive_write write fuel) (b ∷ bs) out (write (b ∷ bs) out)
          (sink b bs out) refl
          (λ n out' more within.
            defensive_write-Ends fuel (drop n (b ∷ bs)) out'
              (omega (arith, length-drop n (b ∷ bs))))

    module _ {S : Type 0} (file : S → List ℕ) (read : Device S) (fd : ℤ) where
      abbrev EndsAll : List ℕ → List ℕ → Option (Bool × S × Out) → Type 0
      EndsAll before bytes result =
          (went : Bool) × (s : S) × (out' : Out) × (result ≡ some (went, s, out'))
          × Written before bytes went (output out')
          × EndedBy write read fd went s out'

      EndsAll-append :
          (before first bytes all : List ℕ) (result : Option (Bool × S × Out))
          → all ≡ first ++ bytes
          → EndsAll (before ++ first) bytes result
          → EndsAll before all result
      EndsAll-append before first bytes all result split (went, s, out', e, w, why) = (
        went,
        s,
        out',
        e,
        subst (λ whole. Written before whole went (output out')) (sym split)
            (Written-append before first bytes went (output out') w),
        why,
      )

      page-Ends :
          (again : S → Out → Option (Bool × S × Out)) (s s' : S) (out out' : Out) (b : ℕ)
          (bs : List ℕ) (went : Bool)
          → file s ≡ (b ∷ bs) ++ file s'
          → defensive_write write page_size (b ∷ bs) out ≡ some (went, out')
          → Written (output out) (b ∷ bs) went (output out')
          → StoppedBy write went out'
          → EndsAll (output out') (file s') (again s' out')
          → EndsAll (output out) (file s) (write_bytes write read fd again (got (b ∷ bs), s') out)
      unfolding write_bytes after_page
      page-Ends again s s' out out' b bs true more e w why k =
          subst (λ r. EndsAll (output out) (file s) (after_page write read fd again s' r)) (sym e)
            (EndsAll-append (output out) (b ∷ bs) (file s') (file s) (again s' out') more
              (subst (λ o. EndsAll o (file s') (again s' out')) w k))
      page-Ends again s s' out out' b bs false more e w why k =
          subst (λ r. EndsAll (output out) (file s) (after_page write read fd again s' r)) (sym e)
            (
              false,
              s',
              out',
              refl,
              subst (λ all. Written (output out) all false (output out')) (sym more)
                  (Written-failed (output out) (b ∷ bs) (file s') (output out') w),
              inr why,
            )

      write_bytes-Ends :
          (again : S → Out → Option (Bool × S × Out)) (s : S) (out : Out) (answer : Reading × S)
          → Delivers file page_size s answer
          → read fd page_size s ≡ answer
          → ((b : ℕ) (bs : List ℕ) (s' : S) (out' : Out)
              → file s ≡ (b ∷ bs) ++ file s'
              → EndsAll (output out') (file s') (again s' out'))
          → EndsAll (output out) (file s) (write_bytes write read fd again answer out)
      unfolding write_bytes
      write_bytes-Ends again s out (failed m, s') d run k =
          (false, s', out, refl, ([], file s, sym (append-nil (output out)), refl), inl (s, m, run))
      write_bytes-Ends again s out (got [], s') (over, _) run k =
          (true, s', out, refl, sym (ap (◌++◌ (output out)) over ∙ append-nil (output out)), tt)
      write_bytes-Ends again s out (got (b ∷ bs), s') (short, more) run k =
          let (went, out', e, w, why) = defensive_write-Ends page_size (b ∷ bs) out short in
          page-Ends again s s' out out' b bs went more e w why (k b bs s' out' more)

      -- Where read delivers the file in order, and write takes at least one byte from the front or
      -- fails: write_till_eof ends, with fuel above the bytes that are left of the file. It writes
      -- all of them in order, whatever the portions that read and write take; or the process ends,
      -- a first part of them is written, and the last read or the last write has failed.
      pub write_till_eof-Ends :
          (fuel : ℕ) (s : S) (out : Out)
          → IsStream file read
          → length (file s) < fuel
          → (went : Bool) × (s' : S) × (out' : Out) × (write_till_eof write read fd fuel s out
              ≡ some (went, s', out'))
            × Written (output out) (file s) went (output out')
            × EndedBy write read fd went s' out'
      unfolding write_till_eof
      write_till_eof-Ends zero s out stream h = absurd (omega arith)
      write_till_eof-Ends (suc fuel) s out stream h =
          write_bytes-Ends (write_till_eof write read fd fuel) s out (read fd page_size s)
            (stream fd page_size s (omega arith)) refl
            (λ b bs s' out' more.
              write_till_eof-Ends fuel s' out' stream
                (omega (arith, ap length more ∙ length-append (b ∷ bs) (file s'))))
