-- ===== src/Base/Words.antt =====
-- size_t arithmetic on a 64-bit machine: numbers below 2 ^ 64, and sums and differences that wrap.
use Prim.Native.Nat.{ℕ, ◌+◌, ◌-◌, ◌*◌, ◌%◌, ◌^◌, ◌≤◌}
use mathlib.Core.Path.{◌≡◌}
use native.Mathlib.Omega.{arith}

-- `SIZE_MAX`
abbrev pub size_max : ℕ
size_max = 2 ^ 64 - 1

abbrev pub add_size : ℕ → ℕ → ℕ
add_size a b = (a + b) % 2 ^ 64

-- `-` on ℕ stops at 0, so the modulus is added first.
abbrev pub sub_size : ℕ → ℕ → ℕ
sub_size a b = (a + 2 ^ 64 - b) % 2 ^ 64

abbrev pub mul_size : ℕ → ℕ → ℕ
mul_size a b = (a * b) % 2 ^ 64

pub sub_size_exact : (a b : ℕ) → a ≤ size_max → b ≤ a → sub_size a b ≡ a - b
sub_size_exact a b h k = omega arith

pub add_size_exact : (a b : ℕ) → a + b ≤ size_max → add_size a b ≡ a + b
add_size_exact a b h = omega arith
