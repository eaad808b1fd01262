-- ===== src/Fgrep/Scan.antt =====
-- What a search for a fixed string is to write, apart from buffers: the pattern once for each of
-- its places, from left to right, that do not overlap.
use native.Mathlib.Decide.{dec_lt}
use sys_programming_explorat.Base.{
  ℕ, zero, suc, ◌+◌, ◌-◌, ◌<◌, ◌≡◌, refl, ap, ◌∙◌, List, [], ◌∷◌, ◌++◌, false, none, some, arith,
  if◌then◌else◌, length, drop, Bool-cases, Option-cases, inl, inr,
}
use sys_programming_explorat.Libc.Memmem.{
  starts_with, memmem, starts_with-append, starts_with-short,
}
use sys_programming_explorat.Fgrep.{report}

drop-pred : (n x : ℕ) (xs : List ℕ) → 0 < n → drop n (x ∷ xs) ≡ drop (n - 1) xs
drop-pred zero x xs h = absurd (omega arith)
drop-pred (suc n) x xs h = ap (λ k. drop k xs) (omega arith)

-- Something is emitted at each of the places, from the text that begins there.
module _ {B : Type 0} (emit : List ℕ → List B) where
  -- The text without its first `skip` bytes is looked at byte by byte.
  unfoldable pub walk : List ℕ → ℕ → List ℕ → List B
  walk pattern skip [] = []
  walk pattern (suc skip) (x ∷ xs) = walk pattern skip xs
  walk pattern zero (x ∷ xs) =
      let taken = walk pattern (length pattern - 1) xs in
      let passed = walk pattern 0 xs in
      if starts_with pattern (x ∷ xs) then emit (x ∷ xs) ++ taken else passed

  pub walk-drop :
      (pattern : List ℕ) (k : ℕ) (text : List ℕ)
      → walk pattern k text ≡ walk pattern 0 (drop k text)
  unfolding walk
  walk-drop pattern zero text = refl
  walk-drop pattern (suc k) [] = refl
  walk-drop pattern (suc k) (x ∷ xs) = walk-drop pattern k xs

  pub walk-memmem-none :
      (pattern text : List ℕ) → memmem text pattern ≡ none → walk pattern 0 text ≡ []
  unfolding walk memmem
  walk-memmem-none pattern [] e = refl
  walk-memmem-none pattern (x ∷ xs) e = ground (arith, walk-memmem-none pattern xs)

  pub walk-memmem-some :
      (pattern text : List ℕ) (i : ℕ)
      → 0 < length pattern
      → memmem text pattern ≡ some i
      → walk pattern 0 text ≡ emit (drop i text) ++ walk pattern 0 (drop (i + length pattern) text)
  unfolding walk memmem
  walk-memmem-some pattern [] i h e = ground (arith, starts_with-short pattern [])
  walk-memmem-some pattern (x ∷ xs) i h e = elim (Bool-cases (starts_with pattern (x ∷ xs))) [
    | inl here ↦
        let first : i ≡ 0 = ground arith in
        let whole : 0 + length pattern ≡ length pattern = omega arith in
        let tail : drop (i + length pattern) (x ∷ xs) ≡ drop (length pattern - 1) xs =
          ap (λ k. drop (k + length pattern) (x ∷ xs)) first
          ∙ ap (λ k. drop k (x ∷ xs)) whole
          ∙ drop-pred (length pattern) x xs h in
        rw (here, tail, first)
          (ap (◌++◌ (emit (x ∷ xs))) (walk-drop pattern (length pattern - 1) xs))
    | inr later ↦ elim (Option-cases (memmem xs pattern)) [
      | inl out ↦ ground arith
      | inr (k, found) ↦
          let next : i ≡ suc k = ground arith in
          let one_more : i + length pattern ≡ suc (k + length pattern) = omega arith in
          let tail : drop (i + length pattern) (x ∷ xs) ≡ drop (k + length pattern) xs =
            ap (λ j. drop j (x ∷ xs)) one_more in
          rw (later, tail, next) (walk-memmem-some pattern xs k h found)
    ]
  ]

  -- Where a region without a match ends, a match may only begin in its last bytes.
  pub walk-append-none :
      (pattern text rest : List ℕ)
      → 0 < length pattern
      → memmem text pattern ≡ none
      → walk pattern 0 (text ++ rest)
        ≡ walk pattern 0 (drop (length text + 1 - length pattern) text ++ rest)
  unfolding walk memmem
  walk-append-none pattern [] rest h e =
      let none_kept : 0 ≡ 0 + 1 - length pattern = omega arith in
      ap (λ k. walk pattern 0 (drop k [] ++ rest)) none_kept
  walk-append-none pattern (x ∷ xs) rest h e = elim (dec_lt (length xs + 1) (length pattern)) [
    | yes short ↦
        let none_dropped : suc (length xs) + 1 - length pattern ≡ 0 = omega arith in
        let all : drop (suc (length xs) + 1 - length pattern) (x ∷ xs) ≡ x ∷ xs =
          ap (λ k. drop k (x ∷ xs)) none_dropped in
        rw all refl
    | no long ↦
        let absent : starts_with pattern (x ∷ xs) ≡ false = ground arith in
        let none_here : starts_with pattern (x ∷ (xs ++ rest)) ≡ false =
          starts_with-append pattern (x ∷ xs) rest (omega arith) ∙ absent in
        let one_more : suc (length xs) + 1 - length pattern ≡ suc (length xs + 1 - length pattern) =
          omega arith in
        let tail : drop (suc (length xs) + 1 - length pattern) (x ∷ xs)
            ≡ drop (length xs + 1 - length pattern) xs =
          ap (λ k. drop k (x ∷ xs)) one_more in
        rw (none_here, tail) (walk-append-none pattern xs rest h (ground arith))
  ]

  -- A text that is shorter than the pattern holds no place of it.
  pub walk-short : (pattern text : List ℕ) → length text < length pattern → walk pattern 0 text ≡ []
  unfolding walk
  walk-short pattern [] h = refl
  walk-short pattern (x ∷ xs) h =
      ground (arith, starts_with-short pattern (x ∷ xs), walk-short pattern xs)

-- The places of a pattern, written out as the pattern and a newline.
abbrev pub scan : List ℕ → ℕ → List ℕ → List ℕ
scan pattern = walk (λ text. report pattern) pattern
