-- ===== src/Port/Decimal.antt =====
-- strtol(3) in base 10, on a system where long has 64 bits.
use sys_programming_explorat.Base.{
  ℕ, zero, suc, ◌+◌, ◌-◌, ◌*◌, ◌^◌, List, [], ◌∷◌, Bool, ◌&&◌, ◌||◌, ltb, leb, ◌==◌, if◌then◌else◌,
  ℤ, pos, negsuc,
}

abbrev pub is_digit : ℕ → Bool
is_digit c = leb 48 c && leb c 57

-- isspace(3) in the C locale
abbrev pub is_space : ℕ → Bool
is_space c = c == 32 || (leb 9 c && leb c 13)

abbrev pub long_max : ℕ
long_max = 2 ^ 63 - 1

-- The number that the digits at the front spell behind `n`, and what follows them.
unfoldable pub scan_digits : ℕ → List ℕ → ℕ × List ℕ
scan_digits n [] = (n, [])
scan_digits n (c ∷ s) =
    let more = scan_digits (n * 10 + (c - 48)) s in if is_digit c then more else (n, c ∷ s)

-- A number that does not fit a long becomes the greatest or the least one.
abbrev pub positive : ℕ → ℤ
positive n = if ltb long_max n then pos long_max else pos n

abbrev pub negative : ℕ → ℤ
negative zero = pos 0
negative (suc n) = if ltb long_max n then negsuc long_max else negsuc n

-- The digits behind the sign; with none of them, no conversion is made and all of `text` is left.
unfoldable pub convert : (ℕ → ℤ) → List ℕ → List ℕ → ℤ × List ℕ
unfolding scan_digits
convert sign text [] = (pos 0, text)
convert sign text (c ∷ s) =
    let (n, rest) = scan_digits 0 (c ∷ s) in if is_digit c then (sign n, rest) else (pos 0, text)

unfoldable pub signed : List ℕ → List ℕ → ℤ × List ℕ
unfolding convert
signed text [] = (pos 0, text)
signed text (c ∷ s) =
    if c == 45
    then convert negative text s
    else if c == 43
    then convert positive text s
    else convert positive text (c ∷ s)

unfoldable pub skip_spaces : List ℕ → List ℕ
skip_spaces [] = []
skip_spaces (c ∷ s) = let more = skip_spaces s in if is_space c then more else c ∷ s

-- The value, and where `endptr` points to.
unfoldable pub strtol : List ℕ → ℤ × List ℕ
unfolding signed skip_spaces
strtol text = signed text (skip_spaces text)
