-- ===== src/Filter/Print/Value.antt =====
-- The value of a filter of lmd/filter.go on what `strValue` prints of it.
use lmd.Prelude.{
  ℕ, ◌^◌, ◌≤◌, ◌<◌, false, Option, none, some, List, [], ◌∷◌, ◌++◌, Bytes, codes, Result, ok,
  ok-injective, if◌then◌else◌, ◌≡◌, ◌≢◌, refl, ap, sym, ◌∙◌, arith, ◌⊎◌, inl, inr, length,
}
use lmd.Prelude.Int.{ℤ, pos, negsuc}
use lmd.Runtime.{Go, Panic}
use lmd.Objects.{
  ColumnType, no_col_type, string_col, string_list_col, int_col, int_list_col, float_col, ref_col,
  time_col, custom_var_col, virt_col, string_fake_sort_col,
}
use lmd.Text.{split_n}
use lmd.Text.Decimal.{atoi, format_int, atoi-format_int, format_ℕ-head, InRange}
use lmd.Filter.{Condition}
use lmd.Filter.Parse.Value.{set_int, set_float, set_custom, set_typed}
use lmd.Filter.Print.Parts.{split_some, split_two, head_or, joined}
use lmd.Filter.Print.{is_custom, typed_value}

-- integers that a float64 holds exactly
abbrev pub IsExact : Option ℤ → Type 0
IsExact none = Unit
IsExact (some (pos n)) = n ≤ 2 ^ 53
IsExact (some (negsuc n)) = n < 2 ^ 53

exact-InRange : (i : ℤ) → IsExact (some i) → InRange i
exact-InRange (pos n) h = omega arith
exact-InRange (negsuc n) h = omega arith

pub format_int-head : (i : ℤ) → (c : ℕ) × (s : Bytes) × (format_int i ≡ c ∷ s)
unfolding format_int
format_int-head (pos n) = let (c, s, is, digit) = format_ℕ-head n in (c, s, is)
format_int-head (negsuc n) = (_, _, refl)

-- What the conversions of numbers have to do for the round trip: integers of up to 53 bits are floats,
-- and a float is read back from its format.
pub record Conversions (go : Go) : Type 0 where
  pub to_int-of_int : (i : ℤ) → IsExact (some i) → go.to_int (go.of_int i) ≡ i
  pub parse-format :
      (s : Bytes) (f : go.Float)
      → go.parse_float s ≡ some f
      → go.parse_float (go.format_float f) ≡ some f
  pub format_some : (f : go.Float) → (c : ℕ) × (s : Bytes) × (go.format_float f ≡ c ∷ s)

module _ (go : Go) where
  -- what `strValue` prints for a column of this type
  abbrev pub printed : ColumnType → Condition go → Result Panic Bytes
  printed t c =
      if c.is_empty then ok (if is_custom t then c.custom_tag else []) else typed_value go t c

  -- the value that is printed is not empty, and it is read back
  abbrev pub IsReadBack : ColumnType → Condition go → Condition go → Type 0
  IsReadBack t start c =
      (x : ℕ) × (value : Bytes) × (printed t c ≡ ok (x ∷ value))
      × ((line : Bytes) → set_typed go t (x ∷ value) line start ≡ ok c)

module _ (go : Go) (conv : Conversions go) where
  int-IsReadBack :
      (value line : Bytes) (start c : Condition go) (i : Option ℤ)
      → IsExact i
      → set_int go value line i start ≡ ok c
      → value ≢ []
      → (j : ℤ) × (c ≡ record start { float_value = go.of_int j })
        × (format_int (go.to_int c.float_value) ≡ format_int j)
        × (atoi (format_int j) ≡ some j)
  unfolding set_int
  int-IsReadBack value line start c (some i) exact eq h =
      let is = sym (ok-injective eq) in
      (
        i,
        is,
        ap (λ (d : Condition go). format_int (go.to_int d.float_value)) is
            ∙ ap format_int (conv.to_int-of_int i exact),
        atoi-format_int i (exact-InRange i exact),
      )
  int-IsReadBack [] line start c none exact eq h = absurd (h refl)
  int-IsReadBack (x ∷ value) line start c none exact eq h = absurd (cc eq)

  printed_typed :
      (t : ColumnType) (c : Condition go) → c.is_empty ≡ false → printed go t c ≡ typed_value go t c
  printed_typed t c h = rw h refl

  read_int :
      (t : ColumnType) (x : ℕ) (value line : Bytes) (start c : Condition go)
      → ((w line' : Bytes) → set_typed go t w line' start ≡ set_int go w line' (atoi w) start)
      → ((d : Condition go) → typed_value go t d ≡ ok (format_int (go.to_int d.float_value)))
      → start.is_empty ≡ false
      → IsExact (atoi (x ∷ value))
      → set_typed go t (x ∷ value) line start ≡ ok c
      → IsReadBack go t start c
  unfolding set_int
  read_int t x value line start c sets shows full exact eq =
      let (j, is, text, read) =
        int-IsReadBack (x ∷ value) line start c (atoi (x ∷ value)) exact
          (sym (sets (x ∷ value) line) ∙ eq) (λ e. cc e) in
      let (y, s, first) = format_int-head j in
      let stays : c.is_empty ≡ false = ap (λ (d : Condition go). d.is_empty) is ∙ full in
      (
        y,
        s,
        printed_typed t c stays ∙ shows c ∙ ap ok (text ∙ first),
        λ line'.
            sets (y ∷ s) line'
            ∙ ap (λ w. set_int go w line' (atoi w) start) (sym first)
            ∙ ap (λ o. set_int go (format_int j) line' o start) read
            ∙ ap ok (sym is),
      )

  read_float :
      (x : ℕ) (value line : Bytes) (start c : Condition go) (f : Option go.Float)
      → go.parse_float (x ∷ value) ≡ f
      → start.is_empty ≡ false
      → set_float go (x ∷ value) line f start ≡ ok c
      → IsReadBack go float_col start c
  unfolding set_float set_typed typed_value
  read_float x value line start c none parsed full eq = absurd (cc eq)
  read_float x value line start c (some f) parsed full eq =
      let is = ok-injective eq in
      let (y, s, first) = conv.format_some f in
      let stays : c.is_empty ≡ false = ap (λ (d : Condition go). d.is_empty) (sym is) ∙ full in
      (
        y,
        s,
        printed_typed float_col c stays
            ∙ ap (λ (d : Condition go). typed_value go float_col d) (sym is)
            ∙ ap ok first,
        λ line'.
            ap (λ w. set_float go w line' (go.parse_float w) start) (sym first)
            ∙ ap (λ o. set_float go (go.format_float f) line' o start)
                (conv.parse-format (x ∷ value) f parsed)
            ∙ eq,
      )

  -- a value that is printed as it was read
  read_same :
      (t : ColumnType) (x : ℕ) (value line : Bytes) (start c : Condition go)
      → printed go t c ≡ ok (x ∷ value)
      → ((line' : Bytes)
          → set_typed go t (x ∷ value) line' start ≡ set_typed go t (x ∷ value) line start)
      → set_typed go t (x ∷ value) line start ≡ ok c
      → IsReadBack go t start c
  read_same t x value line start c shows any eq = (x, value, shows, λ line'. any line' ∙ eq)

  custom_shows :
      (parts : List Bytes) (s line : Bytes) (start c : Condition go)
      → start.is_empty ≡ false
      → (parts ≡ s ∷ []) ⊎ ((a : Bytes) × (b : Bytes) × (parts ≡ a ∷ b ∷ []) × (s ≡ a ++ b' ' ∷ b))
      → set_custom go line parts start ≡ ok c
      → printed go custom_var_col c ≡ ok s
  unfolding set_custom typed_value
  custom_shows [] s line start c full how eq = absurd (cc eq)
  custom_shows ([] ∷ rest) s line start c full how eq = absurd (cc eq)
  custom_shows ((y ∷ tag) ∷ []) s line start c full (inl whole) eq =
      ap (printed go custom_var_col) (sym (ok-injective eq)) ∙ ap ok (ap (head_or []) whole)
  custom_shows ((y ∷ tag) ∷ []) s line start c full (inr (a, b, parts, joins)) eq =
      absurd (cc (ap length parts))
  custom_shows ((y ∷ tag) ∷ text ∷ rest) s line start c full (inl whole) eq =
      absurd (cc (ap length whole))
  custom_shows ((y ∷ tag) ∷ text ∷ rest) s line start c full (inr (a, b, parts, joins)) eq =
      ap (printed go custom_var_col) (sym (ok-injective eq))
      ∙ printed_typed custom_var_col (record start { str_value = text; custom_tag = y ∷ tag }) full
      ∙ ap ok (joined y tag text rest a b parts ∙ sym joins)

  custom_any :
      (first : Bytes) (rest : List Bytes) (line line' : Bytes) (start c : Condition go)
      → set_custom go line (first ∷ rest) start ≡ ok c
      → set_custom go line' (first ∷ rest) start ≡ set_custom go line (first ∷ rest) start
  unfolding set_custom
  custom_any [] rest line line' start c eq = absurd (cc eq)
  custom_any (y ∷ tag) [] line line' start c eq = refl
  custom_any (y ∷ tag) (text ∷ rest) line line' start c eq = refl

  read_custom :
      (x : ℕ) (value line : Bytes) (start c : Condition go)
      → start.is_empty ≡ false
      → set_typed go custom_var_col (x ∷ value) line start ≡ ok c
      → IsReadBack go custom_var_col start c
  unfolding set_typed
  read_custom x value line start c full eq =
      let (first, rest, is) = split_some (x ∷ value) in
      let here = ap (λ ps. set_custom go line ps start) (sym is) ∙ eq in
      read_same custom_var_col x value line start c
        (custom_shows (split_n (x ∷ value) (codes " ") 2) (x ∷ value) line start c full
          (split_two (x ∷ value)) eq)
        (λ line'.
          ap (λ ps. set_custom go line' ps start) is
          ∙ custom_any first rest line line' start c here
          ∙ ap (λ ps. set_custom go line ps start) (sym is))
        eq

  text_shows :
      (t : ColumnType) (x : ℕ) (value : Bytes) (start c : Condition go)
      → ((d : Condition go) → typed_value go t d ≡ ok d.str_value)
      → start.is_empty ≡ false
      → record start { str_value = x ∷ value } ≡ c
      → printed go t c ≡ ok (x ∷ value)
  text_shows t x value start c shows full is =
      ap (printed go t) (sym is)
      ∙ printed_typed t (record start { str_value = x ∷ value }) full
      ∙ shows (record start { str_value = x ∷ value })

  pub read_value :
      (t : ColumnType) (x : ℕ) (value line : Bytes) (start c : Condition go)
      → start.is_empty ≡ false
      → IsExact (atoi (x ∷ value))
      → set_typed go t (x ∷ value) line start ≡ ok c
      → IsReadBack go t start c
  unfolding set_typed typed_value
  read_value int_col x value line start c full exact eq =
      read_int int_col x value line start c (λ w l. refl) (λ d. refl) full exact eq
  read_value int_list_col x value line start c full exact eq =
      read_int int_list_col x value line start c (λ w l. refl) (λ d. refl) full exact eq
  read_value time_col x value line start c full exact eq =
      read_int time_col x value line start c (λ w l. refl) (λ d. refl) full exact eq
  read_value float_col x value line start c full exact eq =
      read_float x value line start c (go.parse_float (x ∷ value)) refl full eq
  read_value custom_var_col x value line start c full exact eq =
      read_custom x value line start c full eq
  read_value string_col x value line start c full exact eq =
      read_same string_col x value line start c
        (text_shows string_col x value start c (λ d. refl) full (ok-injective eq)) (λ l. refl) eq
  read_value string_list_col x value line start c full exact eq =
      read_same string_list_col x value line start c
        (text_shows string_list_col x value start c (λ d. refl) full (ok-injective eq)) (λ l. refl)
        eq
  read_value no_col_type x value line start c full exact eq = absurd (cc eq)
  read_value ref_col x value line start c full exact eq = absurd (cc eq)
  read_value virt_col x value line start c full exact eq = absurd (cc eq)
  read_value string_fake_sort_col x value line start c full exact eq = absurd (cc eq)
