-- ===== src/Filter/Print/Kept.antt =====
-- What `setFilterValue` of lmd/filter.go leaves alone, and how it takes an empty value.
use lmd.Prelude.{true, Option, none, some, List, [], ◌∷◌, Bytes, ok, ◌≡◌, refl, ◌∙◌, arith}
use lmd.Prelude.Int.{ℤ}
use lmd.Runtime.{Go}
use lmd.Objects.{
  ColumnType, no_col_type, string_col, string_list_col, int_col, int_list_col, float_col, ref_col,
  time_col, custom_var_col, virt_col, string_fake_sort_col,
}
use lmd.Text.{split_n}
use lmd.Filter.{Condition}
use lmd.Filter.Parse.Value.{set_int, set_float, set_custom, set_typed}
use lmd.Filter.Print.Value.{printed}

module _ (go : Go) where
  -- what no value changes in a condition
  abbrev pub SameHead : Condition go → Condition go → Type 0
  SameHead c d = (c.column ≡ d.column) × (c.operator ≡ d.operator) × (c.stats_type ≡ d.stats_type)

  set_int-SameHead :
      (value line : Bytes) (i : Option ℤ) (start : Condition go) {c : Condition go}
      → set_int go value line i start ≡ ok c
      → SameHead c start
  unfolding set_int
  set_int-SameHead value line (some i) start eq = ground arith
  set_int-SameHead [] line none start eq = ground arith
  set_int-SameHead (x ∷ value) line none start eq = absurd (cc eq)

  set_float-SameHead :
      (value line : Bytes) (f : Option go.Float) (start : Condition go) {c : Condition go}
      → set_float go value line f start ≡ ok c
      → SameHead c start
  unfolding set_float
  set_float-SameHead value line (some f) start eq = ground arith
  set_float-SameHead [] line none start eq = ground arith
  set_float-SameHead (x ∷ value) line none start eq = absurd (cc eq)

  set_custom-SameHead :
      (line : Bytes) (parts : List Bytes) (start : Condition go) {c : Condition go}
      → set_custom go line parts start ≡ ok c
      → SameHead c start
  unfolding set_custom
  set_custom-SameHead line [] start eq = absurd (cc eq)
  set_custom-SameHead line ([] ∷ rest) start eq = absurd (cc eq)
  set_custom-SameHead line ((x ∷ tag) ∷ []) start eq = ground arith
  set_custom-SameHead line ((x ∷ tag) ∷ text ∷ rest) start eq = ground arith

  pub set_typed-SameHead :
      (t : ColumnType) (value line : Bytes) (start : Condition go) {c : Condition go}
      → set_typed go t value line start ≡ ok c
      → SameHead c start
  unfolding set_typed
  set_typed-SameHead int_col value line start eq = set_int-SameHead value line _ start eq
  set_typed-SameHead int_list_col value line start eq = set_int-SameHead value line _ start eq
  set_typed-SameHead time_col value line start eq = set_int-SameHead value line _ start eq
  set_typed-SameHead float_col value line start eq = set_float-SameHead value line _ start eq
  set_typed-SameHead custom_var_col value line start eq = set_custom-SameHead line _ start eq
  set_typed-SameHead string_col value line start eq = ground arith
  set_typed-SameHead string_list_col value line start eq = ground arith
  set_typed-SameHead no_col_type value line start eq = absurd (cc eq)
  set_typed-SameHead ref_col value line start eq = absurd (cc eq)
  set_typed-SameHead virt_col value line start eq = absurd (cc eq)
  set_typed-SameHead string_fake_sort_col value line start eq = absurd (cc eq)

  -- an empty value
  abbrev IsEmptyBack : ColumnType → Condition go → Condition go → Type 0
  IsEmptyBack t start c =
      (printed go t c ≡ ok []) × ((line : Bytes) → set_typed go t [] line start ≡ ok c)

  empty_float :
      (line : Bytes) (f : Option go.Float) (start c : Condition go)
      → start.is_empty ≡ true
      → set_float go [] line f start ≡ ok c
      → c.is_empty ≡ true
  unfolding set_float
  empty_float line (some f) start c h eq = ground arith
  empty_float line none start c h eq = ground arith

  empty_any :
      (line line' : Bytes) (f : Option go.Float) (start : Condition go)
      → set_float go [] line' f start ≡ set_float go [] line f start
  unfolding set_float
  empty_any line line' (some f) start = refl
  empty_any line line' none start = refl

  pub read_empty :
      (t : ColumnType) (line : Bytes) (start c : Condition go)
      → start.is_empty ≡ true
      → set_typed go t [] line start ≡ ok c
      → IsEmptyBack t start c
  unfolding set_typed set_int set_custom split_n
  read_empty int_col line start c h eq = (ground arith, λ l. eq)
  read_empty int_list_col line start c h eq = (ground arith, λ l. eq)
  read_empty time_col line start c h eq = (ground arith, λ l. eq)
  read_empty float_col line start c h eq =
      let stays = empty_float line (go.parse_float []) start c h eq in
      (rw stays refl, λ l. empty_any line l (go.parse_float []) start ∙ eq)
  read_empty custom_var_col line start c h eq = absurd (cc eq)
  read_empty string_col line start c h eq = (ground arith, λ l. eq)
  read_empty string_list_col line start c h eq = (ground arith, λ l. eq)
  read_empty no_col_type line start c h eq = absurd (cc eq)
  read_empty ref_col line start c h eq = absurd (cc eq)
  read_empty virt_col line start c h eq = absurd (cc eq)
  read_empty string_fake_sort_col line start c h eq = absurd (cc eq)
