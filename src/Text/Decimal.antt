-- ===== src/Text/Decimal.antt =====
-- `strconv.Atoi` and the format `%d`.
pub mod Width
pub mod Shape
use native.Mathlib.Decide.{dec_lt}
use lmd.Prelude.{
  ℕ, zero, suc, ◌+◌, ◌-◌, ◌*◌, ◌/◌, ◌%◌, ◌^◌, ◌≤◌, ◌<◌, Bool, true, false, ◌&&◌, Option, none, some,
  [], ◌∷◌, ◌++◌, Bytes, ◌≡◌, arith, leb, ltb, ◌==◌, if◌then◌else◌,
}
use lmd.Prelude.Int.{ℤ, pos, negsuc}

unfoldable pub digits : ℕ → ℕ → Bytes
digits zero n = []
digits (suc fuel) n =
    let rest = digits fuel (n / 10) in
    let last = (b'0' + n % 10) ∷ [] in if ltb n 10 then last else rest ++ last

-- Each round divides `n` by ten, so `n + 1` rounds are enough.
unfoldable pub format_ℕ : ℕ → Bytes
unfolding digits
format_ℕ n = digits (n + 1) n

-- %d
unfoldable pub format_int : ℤ → Bytes
unfolding format_ℕ
format_int (pos n) = format_ℕ n
format_int (negsuc n) = b'-' ∷ format_ℕ (n + 1)

unfoldable pub read_digits : ℕ → Bytes → Option ℕ
read_digits n [] = some n
read_digits n (c ∷ s) =
    let rest = read_digits (n * 10 + (c - b'0')) s in
    if leb b'0' c && leb c b'9' then rest else none

abbrev pub max_int : ℕ
max_int = 2 ^ 63 - 1

abbrev in_range : Bool → Option ℕ → Option ℤ
in_range _ none = none
in_range false (some n) = if leb n max_int then some (pos n) else none
in_range true (some zero) = some (pos 0)
in_range true (some (suc n)) = if leb n max_int then some (negsuc n) else none

abbrev unsigned : Bool → Bytes → Option ℤ
unsigned negative [] = none
unsigned negative (c ∷ s) = in_range negative (read_digits 0 (c ∷ s))

-- `none` is an error
unfoldable pub atoi : Bytes → Option ℤ
unfolding read_digits
atoi [] = none
atoi (c ∷ s) =
    if c == b'-'
    then unsigned true s
    else if c == b'+'
    then unsigned false s
    else unsigned false (c ∷ s)

abbrev pub InRange : ℤ → Type 0
InRange (pos n) = n ≤ max_int
InRange (negsuc n) = n ≤ max_int

read_digits-append :
    (n m : ℕ) (s t : Bytes) → read_digits n s ≡ some m → read_digits n (s ++ t) ≡ read_digits m t
unfolding read_digits
read_digits-append n m [] t h = ground arith
read_digits-append n m (c ∷ s) t h = ground (arith, read_digits-append (n * 10 + (c - b'0')) m s t)

read_digits-digits : (fuel n : ℕ) → n < fuel → read_digits 0 (digits fuel n) ≡ some n
unfolding read_digits digits
read_digits-digits zero n h = absurd (omega arith)
read_digits-digits (suc fuel) n h = ground (
  arith,
  read_digits-digits fuel (n / 10),
  read_digits-append 0 (n / 10) (digits fuel (n / 10)) ((b'0' + n % 10) ∷ []),
)

abbrev pub IsDigit : ℕ → Type 0
IsDigit c = (b'0' ≤ c) × (c ≤ b'9')

digits-head : (fuel n : ℕ) → n < fuel → (c : ℕ) × (s : Bytes) × (digits fuel n ≡ c ∷ s) × IsDigit c
unfolding digits
digits-head zero n h = absurd (omega arith)
digits-head (suc fuel) n h = elim (dec_lt n 10) [
  | yes small ↦ (b'0' + n % 10, [], ground arith, omega arith)
  | no large ↦
      let (c, s, first, digit) = digits-head fuel (n / 10) (omega arith) in
      (c, s ++ (b'0' + n % 10) ∷ [], ground (arith, first), digit)
]

pub read_digits-format_ℕ : (n : ℕ) → read_digits 0 (format_ℕ n) ≡ some n
unfolding format_ℕ
read_digits-format_ℕ n = read_digits-digits (n + 1) n (omega arith)

pub format_ℕ-head : (n : ℕ) → (c : ℕ) × (s : Bytes) × (format_ℕ n ≡ c ∷ s) × IsDigit c
unfolding format_ℕ
format_ℕ-head n = digits-head (n + 1) n (omega arith)

-- An integer is read back from its decimal format, if it is in the range of a Go int (of 64 bits).
pub atoi-format_int : (i : ℤ) → InRange i → atoi (format_int i) ≡ some i
unfolding atoi format_int
atoi-format_int (pos n) h =
    let (c, s, first, digit) = format_ℕ-head n in
    rw first (ground (arith, rw first at (read_digits-format_ℕ n)))
atoi-format_int (negsuc n) h =
    let (c, s, first, digit) = format_ℕ-head (n + 1) in
    rw first (ground (arith, rw first at (read_digits-format_ℕ (n + 1))))
