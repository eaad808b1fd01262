-- ===== src/ReadBuffer/Powers.antt =====
-- next_power_of_two.
use native.Mathlib.Nat.{pow-suc, pow-le-pow_right}
use native.Mathlib.Decide.{dec_lt}
use sys_programming_explorat.Base.{
  false, ℕ, zero, suc, ◌+◌, ◌*◌, ◌/◌, ◌^◌, ◌≤◌, ◌<◌, ◌≡◌, refl, sym, ap, ◌∙◌, inl, inr, ◌⊎◌, none,
  some, arith, ltb, ltb→lt, lt→ltb, ge→ltb, Bool-cases, mul_size, size_max, ◌==◌,
}
use sys_programming_explorat.ReadBuffer.{double, next_power_of_two}

-- `r` is the least power of two that is no less than `value`.
pub record IsRoundUp (value r : ℕ) : Type 0 where
  pub exponent : ℕ
  pub power : r ≡ 2 ^ exponent
  pub covers : value ≤ r
  pub tight : r < 2 * value

-- A power of two below 2 ^ 64 is at most 2 ^ 63.
IsRoundUp-le : {value r : ℕ} → value ≤ 2 ^ 63 → IsRoundUp value r → r ≤ 2 ^ 63
IsRoundUp-le {value} {r} s up = elim (dec_lt up.exponent 64) [
  | yes p ↦
      let small : 2 ^ up.exponent ≤ 2 ^ 63 =
        pow-le-pow_right {n = 2} (omega arith) {i = up.exponent} {j = 63} (omega arith) in
      rw up.power small
  | no p ↦
      let big : 2 ^ 64 ≤ 2 ^ up.exponent =
        pow-le-pow_right {n = 2} (omega arith) {i = 64} {j = up.exponent} (omega arith) in
      absurd (omega (arith, up.power, up.tight))
]

-- Within 63 doublings of a power of two the loop stops by its own test.
double-IsRoundUp :
    (fuel value k c : ℕ)
    → c ≡ 2 ^ k
    → c < 2 * value
    → value ≤ 2 ^ 63
    → 2 ^ 63 ≤ c * 2 ^ fuel
    → (r : ℕ) × (double fuel value c ≡ some r) × IsRoundUp value r
unfolding double
double-IsRoundUp zero value k c e t s f =
    (c, refl, record { exponent = k; power = e; covers = omega arith; tight = t })
double-IsRoundUp (suc fuel) value k c e t s f = elim (Bool-cases (ltb c value)) [
  | inl more ↦
      let below : c < value = ltb→lt _ _ more in
      let twice : mul_size c 2 ≡ c * 2 = omega arith in
      let room : 2 ^ 63 ≤ c * (2 ^ fuel * 2) = rw (pow-suc 2 fuel) at f in
      let (r, found, up) =
        double-IsRoundUp fuel value (suc k) (mul_size c 2)
          (twice ∙ ap (λ (j : ℕ). j * 2) e ∙ sym (pow-suc 2 k)) (omega arith) s
          (rw twice (omega arith)) in
      (r, rw (more, ge→ltb (size_max / 2) c (omega arith)) found, up)
  | inr stop ↦ (c, rw stop, record { exponent = k; power = e; covers = ground arith; tight = t })
]

-- Above 2 ^ 63 no power of two fits, and the loop says so before it would wrap.
double-none :
    (fuel value k c : ℕ)
    → c ≡ 2 ^ k
    → fuel + k ≡ 64
    → k ≤ 63
    → 2 ^ 63 < value
    → double fuel value c ≡ none
unfolding double
double-none zero value k c e f b s = absurd (omega arith)
double-none (suc fuel) value k c e f b s = elim (dec_lt k 63) [
  | yes p ↦
      let small : 2 ^ k ≤ 2 ^ 62 =
        pow-le-pow_right {n = 2} (omega arith) {i = k} {j = 62} (omega arith) in
      rw (lt→ltb c value (omega arith), ge→ltb (size_max / 2) c (omega arith))
        (double-none fuel value (suc k) (mul_size c 2) (omega (arith, pow-suc 2 k)) (omega arith) p
          s)
  | no p ↦
      let last : k ≡ 63 = omega arith in
      let big : c ≡ 2 ^ 63 = e ∙ ap (λ (j : ℕ). 2 ^ j) last in
      rw (lt→ltb c value (omega arith), lt→ltb (size_max / 2) c (omega arith))
]

-- For every positive value, `next_power_of_two` answers the least power of two that is no less,
-- if one fits a size_t, and fails if the value is above 2 ^ 63.
pub next_power_of_two_total :
    (value : ℕ)
    → 0 < value
    → ((value ≤ 2 ^ 63) × (r : ℕ) × (next_power_of_two value ≡ some r) × IsRoundUp value r)
      ⊎ ((2 ^ 63 < value) × (next_power_of_two value ≡ none))
unfolding next_power_of_two
next_power_of_two_total value q = elim (dec_lt (2 ^ 63) value) [
  | yes p ↦ inr (p, rw looped (double-none 64 value 0 1 refl refl (omega arith) p))
  | no p ↦
      let s : value ≤ 2 ^ 63 = omega arith in
      let (r, found, up) = double-IsRoundUp 64 value 0 1 refl (omega arith) s (omega arith) in
      inl (s, r, rw looped found, up)
]
  where
    looped : (value == 0) ≡ false
    looped = ground arith

-- The bounds of every answer, in the form in which `assure` uses it.
pub next_power_of_two-le :
    (value r : ℕ) → 0 < value → next_power_of_two value ≡ some r → (value ≤ r) × (r ≤ 2 ^ 63)
next_power_of_two-le value r q e = elim (next_power_of_two_total value q) [
  | inr (p, fails) ↦ cc
  | inl (s, r', found, up) ↦ let same : r ≡ r' = cc in rw same (up.covers, IsRoundUp-le s up)
]
