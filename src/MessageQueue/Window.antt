-- ===== src/MessageQueue/Window.antt =====
-- The slots of a ring that a stretch of it covers, going round at the capacity.
use native.Mathlib.Nat.{mod-add-mod, mod-eq_of_lt, mod-eq-sub-mod, mod-lt, add-zero}
use native.Mathlib.Decide.{dec_lt}
use sys_programming_explorat.Base.{
  ℕ, zero, suc, ◌+◌, ◌-◌, ◌%◌, ◌≤◌, ◌<◌, ◌≡◌, ◌≢◌, refl, sym, ap, ap₂, ◌∙◌, List, [], ◌∷◌, ◌++◌,
  Option, some, arith, length, get_elem?, set, get_elem?-set_self, get_elem?-set_ne,
}
use sys_programming_explorat.MessageQueue.{slot}

module _ {Str : Type 0} where
  pub slot-set_self :
      (ms : List (Option Str)) (i : ℕ) (v : Option Str) → i < length ms → slot (set ms i v) i ≡ v
  unfolding slot
  slot-set_self ms i v h = ground (arith, get_elem?-set_self ms i v h)

  pub slot-set_ne :
      (ms : List (Option Str)) {i j : ℕ} (v : Option Str) → i ≢ j → slot (set ms i v) j ≡ slot ms j
  unfolding slot
  slot-set_ne ms v h = ground (arith, get_elem?-set_ne ms v h)

  -- `n` slots from index `h` on.
  abbrev pub window : List (Option Str) → ℕ → ℕ → ℕ → List (Option Str)
  window ms cap h zero = []
  window ms cap h (suc n) = slot ms h ∷ window ms cap ((h + 1) % cap) n

  pub length-window : (ms : List (Option Str)) (cap h n : ℕ) → length (window ms cap h n) ≡ n
  length-window ms cap h zero = refl
  length-window ms cap h (suc n) = ap suc (length-window ms cap ((h + 1) % cap) n)

-- One step further round the ring, counted from `s`.
pub step_round : (cap s d h : ℕ) → h ≡ (s + d) % cap → (h + 1) % cap ≡ (s + (d + 1)) % cap
step_round cap s d h e =
    ap (λ (j : ℕ). (j + 1) % cap) e
    ∙ mod-add-mod (s + d) cap 1
    ∙ ap (λ (j : ℕ). j % cap) (omega arith)

-- Fewer than `cap` steps do not lead back.
pub round-ne : (cap s d : ℕ) → s < cap → 0 < d → d < cap → s ≢ (s + d) % cap
round-ne cap s d hs lo hi = elim (dec_lt (s + d) cap) [
  | yes p ↦ omega (arith, mod-eq_of_lt {n = s + d} {m = cap} p)
  | no p ↦ omega (
    arith,
    mod-eq-sub-mod {n = s + d} {m = cap} (omega arith),
    mod-eq_of_lt {n = s + d - cap} {m = cap} (omega arith),
  )
]

module _ {Str : Type 0} where
  -- A write at `s` is not seen by a stretch that starts `d` steps behind it and ends before it.
  pub window-set_outside :
      (ms : List (Option Str)) (cap s d h n : ℕ) (v : Option Str)
      → s < cap
      → 0 < d
      → d + n ≤ cap
      → h ≡ (s + d) % cap
      → window (set ms s v) cap h n ≡ window ms cap h n
  window-set_outside ms cap s d h zero v hs lo hi e = refl
  window-set_outside ms cap s d h (suc n) v hs lo hi e =
      ap₂ ◌∷◌ (slot-set_ne ms v (λ p. round-ne cap s d hs lo (omega arith) (p ∙ e))) (
        window-set_outside ms cap s (d + 1) ((h + 1) % cap) n v hs (omega arith) (omega arith)
          (step_round cap s d h e))

  -- A stretch one longer ends with one more slot.
  pub window-snoc :
      (ms : List (Option Str)) (cap h n i : ℕ)
      → h < cap
      → i ≡ (h + n) % cap
      → window ms cap h (suc n) ≡ window ms cap h n ++ (slot ms i ∷ [])
  window-snoc ms cap h zero i lt e =
      ap (λ (j : ℕ). slot ms j ∷ [])
        (omega (arith, e, ap (λ (j : ℕ). j % cap) (add-zero h), mod-eq_of_lt {n = h} {m = cap} lt))
  window-snoc ms cap h (suc n) i lt e = ap (◌∷◌ (slot ms h)) (
      window-snoc ms cap ((h + 1) % cap) n i (mod-lt (h + 1) (omega arith))
        (e ∙ ap (λ (j : ℕ). j % cap) (omega arith) ∙ sym (mod-add-mod (h + 1) cap n)))

  -- The slots of a stretch by their place in it.
  pub get_elem?-window :
      (ms : List (Option Str)) (cap h n i j : ℕ)
      → h < cap
      → i < n
      → j ≡ (h + i) % cap
      → get_elem? (window ms cap h n) i ≡ some (slot ms j)
  get_elem?-window ms cap h zero i j lt b e = absurd (omega arith)
  get_elem?-window ms cap h (suc n) zero j lt b e =
      ap (λ (k : ℕ). some (slot ms k))
        (omega (arith, e, ap (λ (k : ℕ). k % cap) (add-zero h), mod-eq_of_lt {n = h} {m = cap} lt))
  get_elem?-window ms cap h (suc n) (suc i) j lt b e =
      get_elem?-window ms cap ((h + 1) % cap) n i j (mod-lt (h + 1) (omega arith)) (omega arith)
        (e ∙ ap (λ (k : ℕ). k % cap) (omega arith) ∙ sym (mod-add-mod (h + 1) cap i))
