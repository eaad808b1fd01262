-- ===== src/Libc/Memmem.antt =====
-- memmem(3): the first place of a pattern in a region.
use sys_programming_explorat.Base.{
  ℕ, zero, suc, ◌+◌, ◌≤◌, ◌≡◌, refl, ap, List, [], ◌∷◌, ◌++◌, Bool, true, false, ◌&&◌, Option, none,
  some, arith, ◌==◌, if◌then◌else◌, length, drop, Bool-cases, Option-cases, inl, inr,
}

-- Whether the region begins with the pattern.
unfoldable pub starts_with : List ℕ → List ℕ → Bool
starts_with [] text = true
starts_with (p ∷ ps) [] = false
starts_with (p ∷ ps) (x ∷ xs) = p == x && starts_with ps xs

-- The index of the first place where the pattern stands; `none` is NULL.
unfoldable pub memmem : List ℕ → List ℕ → Option ℕ
memmem [] pattern = if starts_with pattern [] then some 0 else none
memmem (x ∷ xs) pattern =
    if starts_with pattern (x ∷ xs)
    then some 0
    else elim (memmem xs pattern) [ none ↦ none | some i ↦ some (suc i) ]

pub starts_with-short : (p text : List ℕ) → starts_with p text ≡ true → length p ≤ length text
unfolding starts_with
starts_with-short [] text e = omega arith
starts_with-short (p ∷ ps) [] e = grind (arith, e)
starts_with-short (p ∷ ps) (x ∷ xs) e = ground (arith, starts_with-short ps xs)

-- What follows the region does not matter, where the pattern is no longer than the region.
pub starts_with-append :
    (p text rest : List ℕ)
    → length p ≤ length text
    → starts_with p (text ++ rest) ≡ starts_with p text
unfolding starts_with
starts_with-append [] text rest h = refl
starts_with-append (p ∷ ps) [] rest h = absurd (omega arith)
starts_with-append (p ∷ ps) (x ∷ xs) rest h =
    ap (λ b. p == x && b) (starts_with-append ps xs rest (omega arith))

-- A place that was found lies in the region, and the pattern stands there.
pub memmem-some :
    (text pattern : List ℕ) (i : ℕ)
    → memmem text pattern ≡ some i
    → (i + length pattern ≤ length text) × (starts_with pattern (drop i text) ≡ true)
unfolding memmem starts_with
memmem-some [] [] zero e = (omega arith, refl)
memmem-some [] [] (suc i) e = ground arith
memmem-some [] (p ∷ ps) i e = ground arith
memmem-some (x ∷ xs) pattern zero e = ground (arith, starts_with-short pattern (x ∷ xs))
memmem-some (x ∷ xs) pattern (suc i) e = ground (arith, memmem-some xs pattern i)

-- The place is the same where more follows the region.
pub memmem-append :
    (text rest pattern : List ℕ) (i : ℕ)
    → memmem text pattern ≡ some i
    → memmem (text ++ rest) pattern ≡ some i
unfolding memmem starts_with
memmem-append [] [] [] i e = e
memmem-append [] (r ∷ rs) [] i e = e
memmem-append [] rest (p ∷ ps) i e = ground arith
memmem-append (x ∷ xs) rest pattern i e = elim (Bool-cases (starts_with pattern (x ∷ xs))) [
  | inl here ↦
      ground (arith, starts_with-short pattern (x ∷ xs), starts_with-append pattern (x ∷ xs) rest)
  | inr later ↦ elim (Option-cases (memmem xs pattern)) [
    | inl out ↦ ground (arith, e, later, out)
    | inr (k, found) ↦
        let short = (memmem-some xs pattern k found).0 in
        let same = starts_with-append pattern (x ∷ xs) rest (omega arith) in
        ground (arith, memmem-append xs rest pattern k)
  ]
]

-- Where nothing was found, the pattern stands nowhere in the region.
pub memmem-none :
    (text pattern : List ℕ) (i : ℕ)
    → memmem text pattern ≡ none
    → i ≤ length text
    → starts_with pattern (drop i text) ≡ false
unfolding memmem
memmem-none [] pattern zero e h = ground arith
memmem-none [] pattern (suc i) e h = absurd (omega arith)
memmem-none (x ∷ xs) pattern zero e h = ground arith
memmem-none (x ∷ xs) pattern (suc i) e h = memmem-none xs pattern i (ground arith) (omega arith)
