-- ===== src/ReadBuffer/Ownership.antt =====
-- Which blocks a buffer owns, through init, assure and destroy.
use sys_programming_explorat.Base.{
  ℕ, ◌<◌, ◌≡◌, inl, inr, List, ◌∷◌, Option, none, some, arith, Option-cases, add_size,
}
use sys_programming_explorat.Libc.{Allocator, Heap, remove}
use sys_programming_explorat.ReadBuffer.{
  ReadBuffer, init, destroy, assure, reallocate, grow, next_power_of_two,
}

abbrev pub blocks_of : ℕ → Option ℕ → List ℕ → List ℕ
blocks_of self none base = self ∷ base
blocks_of self (some p) base = p ∷ self ∷ base

abbrev pub IsOld : Option ℕ → ℕ → Type 0
IsOld none n = Unit {0}
IsOld (some p) n = p < n

-- The live blocks are the buffer's, on top of `base`, and later requests get other names.
pub record Owns (base : List ℕ) (rb : ReadBuffer) (h : Heap) : Type 0 where
  pub live : h.live ≡ blocks_of rb.self rb.block base
  pub self_old : rb.self < h.requests
  pub block_old : IsOld rb.block h.requests

-- What `init` answers: a buffer that owns its new blocks, or NULL with none left behind.
abbrev pub Created : List ℕ → Option ReadBuffer × Heap → Type 0
Created base (none, h) = h.live ≡ base
Created base (some rb, h) = Owns base rb h

-- A failed `init` leaks nothing; a successful one leaves the buffer as the owner of its blocks.
pub init-Created : (a : Allocator) (n : ℕ) (h : Heap) → Created h.live (init a n h)
unfolding init remove
init-Created a n h = ground arith

-- `destroy` frees the blocks that the buffer owns, and nothing else.
pub destroy-Owns :
    {rb : ReadBuffer} {base : List ℕ} {h : Heap} → Owns base rb h → (destroy rb h).live ≡ base
unfolding destroy remove
destroy-Owns {rb} o = ground arith

module _ (a : Allocator) (rb : ReadBuffer) (base : List ℕ) (h : Heap) (o : Owns base rb h) where
  reallocate-Owns : (n : ℕ) → let (r, rb', h') = reallocate a rb n h in Owns base rb' h'
  unfolding reallocate remove
  reallocate-Owns n = ground arith

  grow-Owns : (n : ℕ) → let (r, rb', h') = grow a rb n h in Owns base rb' h'
  unfolding grow
  grow-Owns n = elim (Option-cases (next_power_of_two (add_size rb.length n))) [
    | inl e ↦ ground arith
    | inr (c, e) ↦ ground (arith, reallocate-Owns c)
  ]

  -- Behind `assure`, whether it succeeds or fails, the buffer owns its blocks and nothing more is
  -- live than before.
  pub assure-Owns : (n : ℕ) → let (r, rb', h') = assure a rb n h in Owns base rb' h'
  unfolding assure
  assure-Owns n = ground (arith, grow-Owns n)
