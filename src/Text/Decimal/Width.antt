-- ===== src/Text/Decimal/Width.antt =====
-- How long a decimal format is, and of what it is made.
use lmd.Prelude.{
  ℕ, zero, suc, ◌+◌, ◌*◌, ◌/◌, ◌%◌, ◌≤◌, ◌<◌, ◌≡◌, refl, Bool, true, ◌&&◌, [], ◌∷◌, ◌++◌, Bytes,
  arith, leb, length, length-append,
}
use lmd.Text.Decimal.{digits, format_ℕ}

unfoldable pub is_digits : Bytes → Bool
is_digits [] = true
is_digits (c ∷ s) = let rest = is_digits s in leb b'0' c && leb c b'9' && rest

is_digits-append :
    (s t : Bytes) → is_digits s ≡ true → is_digits t ≡ true → is_digits (s ++ t) ≡ true
unfolding is_digits
is_digits-append [] t h h' = h'
is_digits-append (c ∷ s) t h h' = ground (arith, is_digits-append s t)

digits-is_digits : (fuel n : ℕ) → is_digits (digits fuel n) ≡ true
unfolding is_digits digits
digits-is_digits zero n = refl
digits-is_digits (suc fuel) n = ground (
  arith,
  digits-is_digits fuel (n / 10),
  is_digits-append (digits fuel (n / 10)) ((b'0' + n % 10) ∷ []),
)

pub format_ℕ-is_digits : (n : ℕ) → is_digits (format_ℕ n) ≡ true
unfolding format_ℕ
format_ℕ-is_digits n = digits-is_digits (n + 1) n

-- below ten to the power of `width`, if `bound` is that
abbrev pub power : ℕ → ℕ
power zero = 1
power (suc width) = 10 * power width

length-digits : (width fuel n : ℕ) → n < power (suc width) → length (digits fuel n) ≤ suc width
unfolding digits
length-digits width zero n h = omega arith
length-digits zero (suc fuel) n h = ground arith
length-digits (suc width) (suc fuel) n h = ground (
  arith,
  length-digits width fuel (n / 10),
  length-append (digits fuel (n / 10)) ((b'0' + n % 10) ∷ []),
)

pub length-format_ℕ : (width n : ℕ) → n < power (suc width) → length (format_ℕ n) ≤ suc width
unfolding format_ℕ
length-format_ℕ width n h = length-digits width (n + 1) n h
