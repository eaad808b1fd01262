-- ===== src/Base/Blocks.antt =====
-- Regions of memory as lists of bytes: reading and overwriting a part of one.
use Prim.Native.Nat.{ℕ, ◌+◌, ◌≤◌}
use mathlib.Core.Path.{◌≡◌, refl, ap, ◌∙◌}
use mathlib.Core.List.{List, ◌++◌}
use native.Mathlib.Omega.{arith}
use sys_programming_explorat.Base.Lists.{
  length, take, drop, length-append, length-take, length-drop, take-append, take-append_more,
  drop-append, drop-append_less, drop-take,
}

module _ {ℓ} {A : Type ℓ} where
  -- The `n` entries from index `at` on.
  abbrev pub slice : ℕ → ℕ → List A → List A
  slice at n xs = take n (drop at xs)

  -- `xs` with `src` copied over it from index `at` on: memcpy, memmove or read(2) into it.
  unfoldable pub blit : List A → ℕ → List A → List A
  blit xs at src = take at xs ++ (src ++ drop (at + length src) xs)

  pub length-slice : (at n : ℕ) (xs : List A) → at + n ≤ length xs → length (slice at n xs) ≡ n
  length-slice at n xs h = omega (arith, length-take n (drop at xs), length-drop at xs)

  pub length-blit :
      (xs : List A) (at : ℕ) (src : List A)
      → at + length src ≤ length xs
      → length (blit xs at src) ≡ length xs
  unfolding blit
  length-blit xs at src h = omega (
    arith,
    length-append (take at xs) (src ++ drop (at + length src) xs),
    length-append src (drop (at + length src) xs),
    length-take at xs,
    length-drop (at + length src) xs,
  )

  -- What is read back where it was written.
  pub slice-blit_self :
      (xs : List A) (at : ℕ) (src : List A)
      → at + length src ≤ length xs
      → slice at (length src) (blit xs at src) ≡ src
  unfolding blit
  slice-blit_self xs at src h =
      ap (take (length src)) (drop-append at (take at xs) _ (omega (arith, length-take at xs)))
      ∙ take-append (length src) src _ refl

  -- A slice that runs past where the write begins: what was there, what was written, and what is
  -- behind that.
  pub slice-blit_over :
      (xs : List A) (at n m k : ℕ) (src : List A)
      → at + n + length src ≤ length xs
      → m ≡ n + k
      → slice at m (blit xs (at + n) src)
        ≡ slice at n xs ++ take k (src ++ drop (at + n + length src) xs)
  unfolding blit
  slice-blit_over xs at n m k src h e =
      let rest : List A = drop (at + n + length src) xs in
      let whole : at ≤ length (take (at + n) xs) = omega (arith, length-take (at + n) xs) in
      ap (take m) (drop-append_less at (take (at + n) xs) (src ++ rest) whole)
      ∙ ap (λ s. take m (s ++ (src ++ rest))) (drop-take at n (at + n) xs refl)
      ∙ take-append_more m k (slice at n xs) (src ++ rest)
          (omega (arith, length-slice at n xs (omega arith)))

  -- A slice that ends where the write begins is left alone, and the write extends it.
  pub slice-blit_extend :
      (xs : List A) (at n m : ℕ) (src : List A)
      → at + n + length src ≤ length xs
      → m ≡ n + length src
      → slice at m (blit xs (at + n) src) ≡ slice at n xs ++ src
  unfolding blit
  slice-blit_extend xs at n m src h e =
      slice-blit_over xs at n m (length src) src h e
      ∙ ap (◌++◌ (slice at n xs))
          (take-append (length src) src (drop (at + n + length src) xs) refl)
