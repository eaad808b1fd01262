-- ===== src/Cat/Copying.antt =====
-- What the loop of cat copies.
use sys_programming_explorat.Base.{
  ℕ, zero, suc, ◌<◌, ◌≡◌, refl, sym, ap, subst, ◌∙◌, Bool, true, false, List, [], ◌∷◌, ◌++◌,
  append-nil, append_assoc, Option, some, arith, ℤ, length, length-append,
}
use Prim.Native.String.{String}
use sys_programming_explorat.LineStream.{Reading, got, failed, Device}
use sys_programming_explorat.LineStream.Next.{Delivers, IsStream}
use sys_programming_explorat.Tail.{Sink}
use sys_programming_explorat.Tail.Copying.{Written}
use sys_programming_explorat.Cat.{read_size, copy_bytes, copy_loop}

module _ {S Out : Type 0} (file : S → List ℕ) (output : Out → List ℕ) (read : Device S)
    (write : Sink Out) (fd : ℤ) where
  -- Every write takes all bytes.
  abbrev pub TakesAll : Type 0
  TakesAll =
      (b : ℕ) (bs : List ℕ) (out : Out) → output (write (b ∷ bs) out).1 ≡ output out ++ b ∷ bs

  -- The last read failed.
  abbrev pub EndedBy : Bool → S → Type 0
  EndedBy true s = Unit {0}
  EndedBy false s = (before : S) × (m : String) × (read fd read_size before ≡ (failed m, s))

  abbrev Ends : List ℕ → List ℕ → Option (Bool × S × Out) → Type 0
  Ends before bytes result =
      (went : Bool) × (s : S) × (out' : Out) × (result ≡ some (went, s, out'))
      × Written before bytes went (output out')
      × EndedBy went s

  Ends-append :
      (before first bytes all : List ℕ) (result : Option (Bool × S × Out))
      → all ≡ first ++ bytes
      → Ends (before ++ first) bytes result
      → Ends before all result
  Ends-append before first bytes all result split (true, s, out', e, w, why) =
      (true, s, out', e, w ∙ append_assoc before first bytes ∙ ap (◌++◌ before) (sym split), why)
  Ends-append before first bytes all result split (false, s, out', e, (part, rest, now, cut), why) =
      (
        false,
        s,
        out',
        e,
        (
          first ++ part,
          rest,
          now ∙ append_assoc before first part,
          split ∙ ap (◌++◌ first) cut ∙ sym (append_assoc first part rest),
        ),
        why,
      )

  copy_bytes-Ends :
      (again : S → Out → Option (Bool × S × Out)) (s : S) (out : Out) (answer : Reading × S)
      → TakesAll
      → Delivers file read_size s answer
      → read fd read_size s ≡ answer
      → ((b : ℕ) (bs : List ℕ) (s' : S) (out' : Out)
          → file s ≡ (b ∷ bs) ++ file s'
          → Ends (output out') (file s') (again s' out'))
      → Ends (output out) (file s) (copy_bytes read write fd again answer out)
  unfolding copy_bytes
  copy_bytes-Ends again s out (failed m, s') takes d run k =
      (false, s', out, refl, ([], file s, sym (append-nil (output out)), refl), (s, m, run))
  copy_bytes-Ends again s out (got [], s') takes (over, _) run k =
      (true, s', out, refl, sym (ap (◌++◌ (output out)) over ∙ append-nil (output out)), tt)
  copy_bytes-Ends again s out (got (b ∷ bs), s') takes (short, more) run k =
      let (_, out') = write (b ∷ bs) out in
      Ends-append (output out) (b ∷ bs) (file s') (file s) (again s' out') more
        (subst (λ o. Ends o (file s') (again s' out')) (takes b bs out) (k b bs s' out' more))

  -- Where read delivers the file in order, and every write takes all that it is given: the loop of
  -- cat ends, with fuel above the bytes that are left of the file. All of them are written, in
  -- order; or the process ends, a first part of them is written, and the last read has failed.
  pub copy_loop-Ends :
      (fuel : ℕ) (s : S) (out : Out)
      → IsStream file read
      → TakesAll
      → length (file s) < fuel
      → (went : Bool) × (s' : S) × (out' : Out) × (copy_loop read write fd fuel s out
          ≡ some (went, s', out'))
        × Written (output out) (file s) went (output out')
        × EndedBy went s'
  unfolding copy_loop
  copy_loop-Ends zero s out stream takes h = absurd (omega arith)
  copy_loop-Ends (suc fuel) s out stream takes h =
      copy_bytes-Ends (copy_loop read write fd fuel) s out (read fd read_size s) takes
        (stream fd read_size s (omega arith)) refl
        (λ b bs s' out' more.
          copy_loop-Ends fuel s' out' stream takes
            (omega (arith, ap length more ∙ length-append (b ∷ bs) (file s'))))
