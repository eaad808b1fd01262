-- ===== src/Libc/Search.antt =====
-- memchr(3) and memmem(3): the first place of a byte, and of a pattern, in a region.
use sys_programming_explorat.Base.{
  ℕ, zero, suc, ◌+◌, ◌≤◌, ◌<◌, ◌≡◌, ap, ◌∙◌, List, [], ◌∷◌, ◌++◌, Option, none, some, arith, ◌==◌,
  if◌then◌else◌, length, take, drop, subst, take-append-drop,
}

-- The index of the first `c`; `none` is NULL.
unfoldable pub memchr : List ℕ → ℕ → Option ℕ
memchr [] c = none
memchr (x ∷ xs) c =
    if x == c then some 0 else elim (memchr xs c) [ none ↦ none | some i ↦ some (suc i) ]

-- What memchr finds: `c`, with no `c` before it.
pub memchr-some :
    (xs : List ℕ) (c i : ℕ)
    → memchr xs c ≡ some i
    → (i < length xs) × (xs ≡ take i xs ++ c ∷ drop (suc i) xs) × (memchr (take i xs) c ≡ none)
unfolding memchr
memchr-some [] c i e = cc
memchr-some (x ∷ xs) c zero e = ground arith
memchr-some (x ∷ xs) c (suc i) e = ground (arith, memchr-some xs c i)

pub memchr-append :
    (xs ys : List ℕ) (c : ℕ) → memchr xs c ≡ none → memchr ys c ≡ none → memchr (xs ++ ys) c ≡ none
unfolding memchr
memchr-append [] ys c p q = q
memchr-append (x ∷ xs) ys c p q = ground (arith, memchr-append xs ys c)

-- A search that goes on from index `k`, where the part before holds no `c`.
pub memchr-drop-some :
    (xs : List ℕ) (c k i : ℕ)
    → k ≤ length xs
    → memchr (take k xs) c ≡ none
    → memchr (drop k xs) c ≡ some i
    → memchr xs c ≡ some (k + i)
unfolding memchr
memchr-drop-some xs c zero i h p e = e ∙ ap some (omega arith)
memchr-drop-some [] c (suc k) i h p e = absurd (omega arith)
memchr-drop-some (x ∷ xs) c (suc k) i h p e =
    ground (arith, memchr-drop-some xs c k i (omega arith))

pub memchr-drop-none :
    (xs : List ℕ) (c k : ℕ)
    → memchr (take k xs) c ≡ none
    → memchr (drop k xs) c ≡ none
    → memchr xs c ≡ none
memchr-drop-none xs c k p q =
    subst (λ l. memchr l c ≡ none) (take-append-drop k xs)
      (memchr-append (take k xs) (drop k xs) c p q)
