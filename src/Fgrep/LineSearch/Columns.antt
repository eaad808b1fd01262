-- ===== src/Fgrep/LineSearch/Columns.antt =====
-- Which offsets the search of one line reports.
use native.Mathlib.Decide.{dec_lt}
use sys_programming_explorat.Base.{
  take_split, ℕ, zero, suc, ◌+◌, ◌-◌, ◌≤◌, ◌<◌, ◌≡◌, ◌⊎◌, inl, inr, refl, sym, ap, ap₂, ◌∙◌, List,
  [], ◌∷◌, ◌++◌, true, false, none, some, arith, length, take, drop, drop-take, drop-drop,
  drop-append_less, length-take, length-drop, eq-nil_of_length, Option-cases,
}
use sys_programming_explorat.Libc.Memmem.{
  starts_with, starts_with-short, memmem, memmem-some, memmem-none, memmem-append,
  starts_with-append,
}
use sys_programming_explorat.Fgrep.Scan.{walk, walk-memmem-some, walk-memmem-none}
use sys_programming_explorat.Fgrep.LineSearch.{search_line}

-- The offset of a place in a line, counted from 1, by the text from the place on.
abbrev pub offset_of : List ℕ → List ℕ → List ℕ
offset_of line text = (length line - length text + 1) ∷ []

-- The offsets of the places of a pattern in a line that do not overlap, from left to right.
abbrev pub offsets_in : List ℕ → List ℕ → List ℕ
offsets_in pattern line = walk (offset_of line) pattern 0 line

-- At most one offset more, of a place that does not lie in the line.
abbrev pub IsPast : List ℕ → List ℕ → List ℕ → Type 0
IsPast pattern line extra =
    (extra ≡ [])
    ⊎ ((offset : ℕ) × (extra ≡ offset ∷ []) × (length line + 1 < offset + length pattern))

memmem-nil : (pattern : List ℕ) → 0 < length pattern → memmem [] pattern ≡ none
unfolding memmem
memmem-nil pattern h = ground (arith, starts_with-short pattern [])

module _ (pattern block : List ℕ) (cursor size : ℕ) (h : 0 < length pattern)
    (mapped : cursor + size + size ≤ length block) where
  abbrev line : List ℕ
  line = take size (drop cursor block)

  abbrev region : ℕ → List ℕ
  region off = take size (drop (cursor + off) block)

  -- A search sees the rest of the line, and something behind it.
  region_split : (off : ℕ) → off ≤ size → (more : List ℕ) × (region off ≡ drop off line ++ more)
  region_split off fits =
      let rest : List ℕ = drop (cursor + off) block in
      let tail : drop off line ≡ take (size - off) rest =
        drop-take off (size - off) size (drop cursor block) (omega arith)
        ∙ ap (take (size - off)) (drop-drop cursor off (cursor + off) block refl) in
      (
        take off (drop (size - off) rest),
        take_split (size - off) off size rest (omega arith)
            ∙ ap (λ l. l ++ take off (drop (size - off) rest)) (sym tail),
      )

  -- The steps of the loop.
  over : (fuel off : ℕ) → size ≤ off → search_line pattern block cursor size fuel off ≡ some []
  unfolding search_line
  over zero off out = ground arith
  over (suc fuel) off out = ground arith

  stop :
      (fuel off : ℕ)
      → memmem (region off) pattern ≡ none
      → search_line pattern block cursor size (suc fuel) off ≡ some []
  unfolding search_line
  stop fuel off e = ground arith

  step :
      (fuel off found : ℕ) (offsets : List ℕ)
      → off < size
      → memmem (region off) pattern ≡ some found
      → search_line pattern block cursor size fuel (off + found + length pattern) ≡ some offsets
      → search_line pattern block cursor size (suc fuel) off ≡ some ((off + found + 1) ∷ offsets)
  unfolding search_line
  step fuel off found offsets below e rest = ground arith

  length-line : length line ≤ size
  length-line = omega (arith, length-take size (drop cursor block))

  -- Behind the end of the line the loop finds nothing.
  past_end :
      (fuel off : ℕ)
      → length line < off
      → size ≤ off + fuel
      → search_line pattern block cursor size fuel off ≡ some []
  past_end zero off out enough = over zero off (omega arith)
  past_end (suc fuel) off out enough = elim (dec_lt off size) [
    | no done ↦ over (suc fuel) off (omega arith)
    | yes below ↦
        let empty : length (region off) ≡ 0 = omega (
          arith,
          length-take size (drop (cursor + off) block),
          length-drop (cursor + off) block,
          length-take size (drop cursor block),
          length-drop cursor block,
        ) in
        stop fuel off
          (ap (λ l. memmem l pattern) (eq-nil_of_length (region off) empty) ∙ memmem-nil pattern h)
  ]

  -- What is found behind the places of the line does not lie in the line.
  past_line :
      (off found : ℕ)
      → off ≤ length line
      → memmem (drop off line) pattern ≡ none
      → memmem (region off) pattern ≡ some found
      → length line < off + found + length pattern
  past_line off found fits absent e = elim (dec_lt (length line) (off + found + length pattern)) [
    | yes p ↦ p
    | no inside ↦
        let (more, split) = region_split off (omega (arith, length-line)) in
        let there : starts_with pattern (drop found (region off)) ≡ true =
          (memmem-some (region off) pattern found e).1 in
        let moved : drop found (region off) ≡ drop found (drop off line) ++ more =
          ap (drop found) split
          ∙ drop-append_less found (drop off line) more (omega (arith, length-drop off line)) in
        let same : starts_with pattern (drop found (drop off line) ++ more)
            ≡ starts_with pattern (drop found (drop off line)) =
          starts_with-append pattern (drop found (drop off line)) more
            (omega (arith, length-drop off line, length-drop found (drop off line))) in
        let not_there : starts_with pattern (drop found (drop off line)) ≡ false =
          memmem-none (drop off line) pattern found absent (omega (arith, length-drop off line)) in
        absurd (cc (there, ap (starts_with pattern) moved, same, not_there))
  ]

  -- No place is left in the line.
  search_line-none :
      (fuel off : ℕ)
      → off ≤ length line
      → size ≤ off + fuel
      → memmem (drop off line) pattern ≡ none
      → (extra : List ℕ) × (search_line pattern block cursor size fuel off ≡ some extra)
        × IsPast pattern line extra
  search_line-none zero off fits enough absent = ([], over zero off (omega arith), inl refl)
  search_line-none (suc fuel) off fits enough absent = elim (dec_lt off size) [
    | no done ↦ ([], over (suc fuel) off (omega arith), inl refl)
    | yes below ↦ elim (Option-cases (memmem (region off) pattern)) [
      | inl out ↦ ([], stop fuel off out, inl refl)
      | inr (j, e) ↦
          let outside = past_line off j fits absent e in
          let rest = past_end fuel (off + j + length pattern) outside (omega arith) in
          (
            (off + j + 1) ∷ [],
            step fuel off j [] below e rest,
            inr (off + j + 1, refl, omega arith),
          )
    ]
  ]

  -- The next place in the line is at `i`: what is walked through from there on.
  offsets_step :
      (off i : ℕ)
      → off ≤ length line
      → memmem (drop off line) pattern ≡ some i
      → walk (offset_of line) pattern 0 (drop off line)
        ≡ (off + i + 1) ∷ walk (offset_of line) pattern 0 (drop (off + i + length pattern) line)
  offsets_step off i fits found =
      let inside = (memmem-some (drop off line) pattern i found).0 in
      let here : length line - length (drop i (drop off line)) + 1 ≡ off + i + 1 =
        omega (arith, length-drop off line, length-drop i (drop off line)) in
      let behind : drop (i + length pattern) (drop off line)
          ≡ drop (off + i + length pattern) line =
        drop-drop off (i + length pattern) (off + i + length pattern) line (omega arith) in
      walk-memmem-some (offset_of line) pattern (drop off line) i h found
      ∙ ap₂ (λ o l. o ∷ walk (offset_of line) pattern 0 l) here behind

  -- For a pattern that is not empty, memory that can be read as far behind the line as the line is
  -- long, and fuel for the bytes from `off` on, the search of a line returns. It reports the
  -- offsets of the places in the rest of the line that do not overlap, from left to right, and then
  -- at most one offset more, of a place that does not lie in the line.
  pub search_line-walk :
      (fuel off : ℕ)
      → off ≤ length line
      → size ≤ off + fuel
      → (extra : List ℕ) × (search_line pattern block cursor size fuel off
          ≡ some (walk (offset_of line) pattern 0 (drop off line) ++ extra))
        × IsPast pattern line extra
  search_line-walk zero off fits enough =
      let at_end : drop off line ≡ [] =
        eq-nil_of_length (drop off line) (omega (arith, length-drop off line, length-line)) in
      (
        [],
        over zero off (omega arith)
            ∙ ap (λ l. some (l ++ []))
                (sym (
                  walk-memmem-none (offset_of line) pattern (drop off line)
                    (ap (λ l. memmem l pattern) at_end ∙ memmem-nil pattern h))),
        inl refl,
      )
  search_line-walk (suc fuel) off fits enough =
      elim (Option-cases (memmem (drop off line) pattern)) [
        | inl absent ↦
            let (extra, e, past) = search_line-none (suc fuel) off fits enough absent in
            let nothing = walk-memmem-none (offset_of line) pattern (drop off line) absent in
            (extra, e ∙ ap (λ l. some (l ++ extra)) (sym nothing), past)
        | inr (i, found) ↦
            let inside : i + length pattern ≤ length (drop off line) =
              (memmem-some (drop off line) pattern i found).0 in
            let ends : off + i + length pattern ≤ length line =
              omega (arith, length-drop off line) in
            let (more, split) = region_split off (omega (arith, length-line)) in
            let seen : memmem (region off) pattern ≡ some i =
              ap (λ l. memmem l pattern) split
              ∙ memmem-append (drop off line) more pattern i found in
            let (extra, e, past) =
              search_line-walk fuel (off + i + length pattern) ends (omega arith) in
            (
              extra,
              step fuel off i
                    (walk (offset_of line) pattern 0 (drop (off + i + length pattern) line)
                      ++ extra)
                    (omega (arith, length-line)) seen e
                  ∙ ap (λ l. some (l ++ extra)) (sym (offsets_step off i fits found)),
              past,
            )
      ]
