-- ===== src/Text/Decimal/Shape.antt =====
-- The digits of the decimal format, and the range of what is read.
use native.Mathlib.Decide.{dec_lt}
use lmd.Prelude.{
  ℕ, zero, suc, ◌+◌, ◌/◌, ◌%◌, ◌<◌, [], ◌∷◌, ◌++◌, Bytes, ◌≡◌, arith, ltb, if◌then◌else◌, Bool,
  true, false, Option, none, some,
}
use lmd.Text.Cut.{Lacks, Lacks-append}
use lmd.Text.Decimal.{digits, format_ℕ, IsDigit, in_range, unsigned, read_digits, atoi, InRange}
use lmd.Prelude.Int.{ℤ, pos, negsuc}

digits-last :
    (fuel n : ℕ) → n < fuel → (u : Bytes) × (y : ℕ) × (digits fuel n ≡ u ++ y ∷ []) × IsDigit y
unfolding digits
digits-last zero n h = absurd (omega arith)
digits-last (suc fuel) n h = elim (dec_lt n 10) [
  | yes small ↦ ([], b'0' + n % 10, ground arith, omega arith)
  | no large ↦ (digits fuel (n / 10), b'0' + n % 10, ground arith, omega arith)
]

pub format_ℕ-last : (n : ℕ) → (u : Bytes) × (y : ℕ) × (format_ℕ n ≡ u ++ y ∷ []) × IsDigit y
unfolding format_ℕ
format_ℕ-last n = digits-last (n + 1) n (omega arith)

if-Lacks :
    (sep : ℕ) (b : Bool) (s t : Bytes) → Lacks sep s → Lacks sep t → Lacks sep (if b then s else t)
if-Lacks sep true s t h h' = h
if-Lacks sep false s t h h' = h'

digits-Lacks : (sep fuel n : ℕ) → ¬ IsDigit sep → Lacks sep (digits fuel n)
unfolding digits
digits-Lacks sep zero n h = tt
digits-Lacks sep (suc fuel) n h =
    let last : Lacks sep ((b'0' + n % 10) ∷ []) = ((λ e. h (omega (arith, e))), tt) in
    if-Lacks sep (ltb n 10) _ _ last
      (Lacks-append sep (digits fuel (n / 10)) _ (digits-Lacks sep fuel (n / 10) h) last)

pub format_ℕ-Lacks : (sep n : ℕ) → ¬ IsDigit sep → Lacks sep (format_ℕ n)
unfolding format_ℕ
format_ℕ-Lacks sep n h = digits-Lacks sep (n + 1) n h

in_range-InRange :
    (negative : Bool) (n : Option ℕ) (i : ℤ) → in_range negative n ≡ some i → InRange i
in_range-InRange negative none i h = absurd (cc h)
in_range-InRange false (some n) (pos m) h = ground (arith, h)
in_range-InRange false (some n) (negsuc m) h = ground (arith, h)
in_range-InRange true (some zero) (pos m) h = ground (arith, h)
in_range-InRange true (some zero) (negsuc m) h = ground (arith, h)
in_range-InRange true (some (suc n)) (pos m) h = ground (arith, h)
in_range-InRange true (some (suc n)) (negsuc m) h = ground (arith, h)

unsigned-InRange : (negative : Bool) (s : Bytes) (i : ℤ) → unsigned negative s ≡ some i → InRange i
unsigned-InRange negative [] i h = absurd (cc h)
unsigned-InRange negative (c ∷ s) i h = in_range-InRange negative (read_digits 0 (c ∷ s)) i h

-- What is read is in the range of an int.
pub atoi-InRange : (s : Bytes) (i : ℤ) → atoi s ≡ some i → InRange i
unfolding atoi
atoi-InRange [] i h = absurd (cc h)
atoi-InRange (c ∷ s) i h =
    ground (
      arith,
      unsigned-InRange true s i,
      unsigned-InRange false s i,
      unsigned-InRange false (c ∷ s) i,
    )
