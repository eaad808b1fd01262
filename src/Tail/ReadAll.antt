-- ===== src/Tail/ReadAll.antt =====
-- Where write_till_eof leaves the offset of the file.
use sys_programming_explorat.Base.{
  ℕ, ℤ, zero, suc, ◌+◌, ◌≤◌, ◌<◌, ◌≡◌, ap, ◌∙◌, Bool, true, false, List, [], ◌∷◌, ◌++◌, Option,
  none, some, arith, length, drop, length-drop, length-append, eq-nil_of_length,
}
use sys_programming_explorat.LineStream.{Reading, got, failed, Device}
use sys_programming_explorat.LineStream.Next.{Delivers}
use sys_programming_explorat.Tail.{
  Sink, page_size, defensive_write, after_page, write_bytes, write_till_eof,
}

module _ {S : Type 0} (content : S → List ℕ) (offset : S → ℕ) where
  -- What is left to read.
  abbrev pub left : S → List ℕ
  left s = drop (offset s) (content s)

  -- A read takes from the current offset on and moves it; others do not interfere with a read.
  abbrev pub Reads : ℕ → S → Reading × S → Type 0
  Reads n s (failed m, s') = (content s' ≡ content s) × (offset s' ≡ offset s)
  Reads n s (got [], s') =
      (content s' ≡ content s) × (offset s' ≡ offset s) × (length (content s) ≤ offset s)
  Reads n s (got (b ∷ bs), s') =
      (content s' ≡ content s)
      × (offset s' ≡ offset s + length (b ∷ bs))
      × (length (b ∷ bs) ≤ n)
      × (drop (offset s) (content s) ≡ (b ∷ bs) ++ drop (offset s') (content s'))

  abbrev pub IsFile : Device S → Type 0
  IsFile read = (fd : ℤ) (n : ℕ) (s : S) → 0 < n → Reads n s (read fd n s)

  over : (s : S) → length (content s) ≤ offset s → left s ≡ []
  over s h = eq-nil_of_length (left s) (omega (arith, length-drop (offset s) (content s)))

  pub Reads-Delivers :
      (n : ℕ) (s : S) (answer : Reading × S) → Reads n s answer → Delivers left n s answer
  Reads-Delivers n s (failed m, s') (same, at) =
      ap (λ c. drop (offset s') c) same ∙ ap (λ o. drop o (content s)) at
  Reads-Delivers n s (got [], s') (same, at, end) =
      (over s end, over s' (omega (arith, ap length same)))
  Reads-Delivers n s (got (b ∷ bs), s') (same, at, short, split) = (short, split)

  -- Behind write_till_eof: the whole file was read.
  abbrev pub ReadAll : List ℕ → Bool → S → Type 0
  ReadAll c true s = (content s ≡ c) × (offset s ≡ length c)
  ReadAll c false s = Unit {0}

  module _ {Out : Type 0} (write : Sink Out) (read : Device S) (law : IsFile read) (fd : ℤ) where
    abbrev pub ReadAllAfter : List ℕ → Option (Bool × S × Out) → Type 0
    ReadAllAfter c none = Unit {0}
    ReadAllAfter c (some (went, s, out)) = ReadAll c went s

    after_page-ReadAll :
        (again : S → Out → Option (Bool × S × Out)) (c : List ℕ) (s : S)
        → ((out : Out) → ReadAllAfter c (again s out))
        → (r : Option (Bool × Out)) → ReadAllAfter c (after_page write read fd again s r)
    unfolding after_page
    after_page-ReadAll again c s k none = record {}
    after_page-ReadAll again c s k (some (true, out)) = k out
    after_page-ReadAll again c s k (some (false, out)) = record {}

    write_bytes-ReadAll :
        (again : S → Out → Option (Bool × S × Out)) (c : List ℕ) (n : ℕ) (s : S)
        → content s ≡ c
        → offset s ≤ length c
        → ((s' : S) (out : Out)
            → content s' ≡ c
            → offset s' ≤ length c
            → ReadAllAfter c (again s' out))
        → (out : Out) (answer : Reading × S) → Reads n s answer
        → ReadAllAfter c (write_bytes write read fd again answer out)
    unfolding write_bytes
    write_bytes-ReadAll again c n s here low k out (failed m, s') same = record {}
    write_bytes-ReadAll again c n s here low k out (got [], s') (same, at, end) =
        (same ∙ here, omega (arith, ap length here))
    write_bytes-ReadAll again c n s here low k out (got (b ∷ bs), s') (same, at, short, split) =
        let within : offset s' ≤ length c = omega (
          arith,
          ap length here,
          ap length split,
          length-drop (offset s) (content s),
          length-append (b ∷ bs) (drop (offset s') (content s')),
        ) in
        after_page-ReadAll again c s' (λ out'. k s' out' (same ∙ here) within)
          (defensive_write write page_size (b ∷ bs) out)

    pub write_till_eof-ReadAll :
        (fuel : ℕ) (c : List ℕ) (s : S) (out : Out)
        → content s ≡ c
        → offset s ≤ length c
        → ReadAllAfter c (write_till_eof write read fd fuel s out)
    unfolding write_till_eof
    write_till_eof-ReadAll zero c s out here low = record {}
    write_till_eof-ReadAll (suc fuel) c s out here low =
        write_bytes-ReadAll (write_till_eof write read fd fuel) c page_size s here low
          (λ s' out'. write_till_eof-ReadAll fuel c s' out') out (read fd page_size s)
          (law fd page_size s (omega arith))
