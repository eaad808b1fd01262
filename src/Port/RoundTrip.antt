-- ===== src/Port/RoundTrip.antt =====
-- The port that snprintf prints and strtol reads.
use native.Mathlib.Decide.{dec_lt}
use sys_programming_explorat.Base.{
  ℕ, zero, suc, ◌+◌, ◌-◌, ◌*◌, ◌/◌, ◌%◌, ◌^◌, ◌≤◌, ◌<◌, ◌≡◌, refl, sym, ap, subst, ◌∙◌, List, [],
  ◌∷◌, true, false, arith, ◌==◌, ℤ, pos, length, take, take-all,
}
use sys_programming_explorat.Port.Decimal.{
  is_digit, is_space, scan_digits, positive, convert, signed, skip_spaces, strtol,
}
use sys_programming_explorat.Port.{print_digits, print_port}

scan_digit :
    (n c : ℕ) (s : List ℕ)
    → is_digit c ≡ true
    → scan_digits n (c ∷ s) ≡ scan_digits (n * 10 + (c - 48)) s
unfolding scan_digits
scan_digit n c s d = rw d refl

-- 10 ^ (fuel + 1)
abbrev tens : ℕ → ℕ
tens zero = 10
tens (suc fuel) = 10 * tens fuel

last_digit : (n : ℕ) → n < 10 → 0 * 10 + (48 + n % 10 - 48) ≡ n
last_digit n h = omega arith

added : (n : ℕ) → 0 * 10 + (48 + n - 48) ≡ n
added n = omega arith

joined : (n : ℕ) → n / 10 * 10 + (48 + n % 10 - 48) ≡ n
joined n = omega arith

tenth : (n p : ℕ) → n < 10 * p → n / 10 < p
tenth n p h = omega arith

-- Reading the digits of a number gives the number, and what stood behind them is still to be read.
scan_digits-print_digits :
    (fuel n : ℕ) (out : List ℕ)
    → n < tens fuel
    → scan_digits 0 (print_digits fuel n out) ≡ scan_digits n out
unfolding print_digits
scan_digits-print_digits zero n out h =
    scan_digit 0 (48 + n % 10) out (ground arith) ∙ ap (λ k. scan_digits k out) (last_digit n h)
scan_digits-print_digits (suc fuel) n out h = elim (dec_lt n 10) [
  | yes small ↦
      let one : print_digits (suc fuel) n out ≡ (48 + n) ∷ out = ground arith in
      ap (scan_digits 0) one
      ∙ scan_digit 0 (48 + n) out (ground arith)
      ∙ ap (λ k. scan_digits k out) (added n)
  | no big ↦
      let more : print_digits (suc fuel) n out ≡ print_digits fuel (n / 10) ((48 + n % 10) ∷ out) =
        ground arith in
      ap (scan_digits 0) more
      ∙ scan_digits-print_digits fuel (n / 10) ((48 + n % 10) ∷ out) (tenth n (tens fuel) h)
      ∙ scan_digit (n / 10) (48 + n % 10) out (ground arith)
      ∙ ap (λ k. scan_digits k out) (joined n)
]

pub length-print_digits :
    (fuel n : ℕ) (out : List ℕ) → length (print_digits fuel n out) ≤ suc fuel + length out
unfolding print_digits
length-print_digits zero n out = omega arith
length-print_digits (suc fuel) n out =
    ground (arith, length-print_digits fuel (n / 10) ((48 + n % 10) ∷ out))

print_digits_head :
    (fuel n : ℕ) (out : List ℕ)
    → (c : ℕ) × (s : List ℕ) × (print_digits fuel n out ≡ c ∷ s) × (is_digit c ≡ true)
unfolding print_digits
print_digits_head zero n out = (48 + n % 10, out, refl, ground arith)
print_digits_head (suc fuel) n out = elim (dec_lt n 10) [
  | yes small ↦ (48 + n, out, ground arith, ground arith)
  | no big ↦
      let (c, s, e, d) = print_digits_head fuel (n / 10) ((48 + n % 10) ∷ out) in
      (c, s, ground arith, d)
]

-- strtol on a text that begins with a digit.
strtol-digit :
    (c : ℕ) (s : List ℕ)
    → is_digit c ≡ true
    → strtol (c ∷ s) ≡ (positive (scan_digits 0 (c ∷ s)).0, (scan_digits 0 (c ∷ s)).1)
unfolding strtol skip_spaces signed convert
strtol-digit c s d =
    let no_space : is_space c ≡ false = ground arith in
    let no_minus : (c == 45) ≡ false = ground arith in
    let no_plus : (c == 43) ≡ false = ground arith in rw (no_space, no_minus, no_plus, d) refl

-- Every number of an unsigned short is printed in at most five digits, which snprintf does not cut,
-- and strtol reads the same number back from them, with nothing left over.
pub strtol-print_port :
    (n : ℕ)
    → n < 2 ^ 16
    → (print_port n ≡ print_digits 4 n [])
      × (length (print_port n) ≤ 5)
      × (strtol (print_port n) ≡ (pos n, []))
unfolding print_port scan_digits
strtol-print_port n h =
    let wide : n % 2 ^ 16 ≡ n = omega arith in
    let short : length (print_digits 4 n []) ≤ 5 = omega (arith, length-print_digits 4 n []) in
    let whole : print_port n ≡ print_digits 4 n [] =
      ap (λ k. take 5 (print_digits 4 k [])) wide ∙ take-all 5 (print_digits 4 n []) short in
    let (c, s, e, d) = print_digits_head 4 n [] in
    let scanned : scan_digits 0 (c ∷ s) ≡ (n, []) =
      ap (scan_digits 0) (sym e) ∙ scan_digits-print_digits 4 n [] (omega arith) ∙ at_end n in
    (
      whole,
      subst (λ l. length l ≤ 5) (sym whole) short,
      ap strtol (whole ∙ e) ∙ strtol-digit c s d ∙ ap (λ r. (positive r.0, r.1)) scanned ∙ fits n h,
    )
  where
    at_end : (n : ℕ) → scan_digits n [] ≡ (n, [])
    at_end n = refl

    fits : (n : ℕ) → n < 2 ^ 16 → ◌≡◌ {A = ℤ × List ℕ} (positive n, []) (pos n, [])
    fits n h = ground arith
