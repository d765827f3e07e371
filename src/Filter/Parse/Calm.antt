-- ===== src/Filter/Parse/Calm.antt =====
-- Where the steps of `ParseFilter` of lmd/filter.go panic.
use lmd.Prelude.{
  ◌⊎◌, ◌≡◌, refl, ap, ◌∙◌, Bool, true, false, not, Option, none, some, List, [], ◌∷◌, Bytes, codes,
  Result, ok, err, ◌>>=◌, arith, inl, inr,
}
use lmd.Prelude.Int.{ℤ}
use lmd.Runtime.{Go}
use lmd.BadRequest.{Failure, bad, panicked}
use lmd.Objects.{
  Column, ColumnType, no_col_type, string_col, string_list_col, int_col, int_list_col, float_col,
  ref_col, time_col, custom_var_col, virt_col, string_fake_sort_col,
}
use lmd.Text.{cut, split_n}
use lmd.Text.Decimal.{atoi}
use lmd.Filter.{Condition, Operator}
use lmd.Filter.Parse.{with_regexp}
use lmd.Filter.Parse.Value.{value_type, set_int, set_float, set_custom, set_typed, set_filter_value}

abbrev pub is_panic {ℓ} : {A : Type ℓ} → Result Failure A → Bool
is_panic (err (panicked p)) = true
is_panic _ = false

-- the types that `setFilterValue` handles
abbrev pub is_filterable : ColumnType → Bool
is_filterable no_col_type = false
is_filterable ref_col = false
is_filterable virt_col = false
is_filterable string_fake_sort_col = false
is_filterable _ = true

pub bind-is_panic {ℓ κ} :
    {A : Type ℓ} {B : Type κ} (first : Result Failure A) (next : A → Result Failure B)
    → is_panic (first >>= next) ≡ true
    → (is_panic first ≡ true) ⊎ ((a : A) × (first ≡ ok a) × (is_panic (next a) ≡ true))
bind-is_panic (ok a) next h = inr (a, refl, h)
bind-is_panic (err (bad b)) next h = absurd (cc h)
bind-is_panic (err (panicked p)) next h = inl refl

module _ (go : Go) where
  set_int-is_panic :
      (value line : Bytes) (i : Option ℤ) (c : Condition go)
      → is_panic (set_int go value line i c) ≡ false
  unfolding set_int
  set_int-is_panic value line (some i) c = refl
  set_int-is_panic [] line none c = refl
  set_int-is_panic (x ∷ value) line none c = refl

  set_float-is_panic :
      (value line : Bytes) (f : _) (c : Condition go)
      → is_panic (set_float go value line f c) ≡ false
  unfolding set_float
  set_float-is_panic value line (some f) c = refl
  set_float-is_panic [] line none c = refl
  set_float-is_panic (x ∷ value) line none c = refl

  set_custom-is_panic :
      (line first : Bytes) (rest : List Bytes) (c : Condition go)
      → is_panic (set_custom go line (first ∷ rest) c) ≡ false
  unfolding set_custom
  set_custom-is_panic line [] rest c = refl
  set_custom-is_panic line (x ∷ tag) [] c = refl
  set_custom-is_panic line (x ∷ tag) (value ∷ rest) c = refl

  split_n-first :
      (s sep : Bytes) → (first : Bytes) × (rest : List Bytes) × (split_n s sep 2 ≡ first ∷ rest)
  unfolding split_n
  split_n-first s sep =
      elim (cut sep s)
        as (λ o.
          (first : Bytes) × (rest : List Bytes) × ((elim o [
            | none ↦ s ∷ []
            | some (a, b) ↦ a ∷ split_n b sep 1
          ])
            ≡ first ∷ rest)) [ none ↦ (s, [], refl) | some (a, b) ↦ (a, _, refl) ]

  set_typed-is_panic :
      (t : ColumnType) (value line : Bytes) (c : Condition go)
      → is_panic (set_typed go t value line c) ≡ not (is_filterable t)
  unfolding set_typed
  set_typed-is_panic no_col_type value line c = refl
  set_typed-is_panic string_col value line c = refl
  set_typed-is_panic string_list_col value line c = refl
  set_typed-is_panic int_col value line c = set_int-is_panic value line (atoi value) c
  set_typed-is_panic int_list_col value line c = set_int-is_panic value line (atoi value) c
  set_typed-is_panic float_col value line c = set_float-is_panic value line _ c
  set_typed-is_panic ref_col value line c = refl
  set_typed-is_panic time_col value line c = set_int-is_panic value line (atoi value) c
  set_typed-is_panic custom_var_col value line c =
      let (first, rest, is) = split_n-first value (codes " ") in
      ap (λ parts. is_panic (set_custom go line parts c)) is ∙ set_custom-is_panic line first rest c
  set_typed-is_panic virt_col value line c = refl
  set_typed-is_panic string_fake_sort_col value line c = refl

  pub set_filter_value-is_panic :
      (col : Column) (value line : Bytes) (c : Condition go)
      → is_panic (set_filter_value go col value line c)
        ≡ not (is_filterable (value_type col col.col_type))
  unfolding set_filter_value
  set_filter_value-is_panic col [] line c =
      set_typed-is_panic (value_type col col.col_type) [] line _
  set_filter_value-is_panic col (x ∷ value) line c =
      set_typed-is_panic (value_type col col.col_type) (x ∷ value) line c

  pub with_regexp-is_panic :
      (b : Bool) (op : Operator) (line : Bytes) (c : Condition go)
      → is_panic (with_regexp go b op line c) ≡ false
  unfolding with_regexp
  with_regexp-is_panic false op line c = refl
  with_regexp-is_panic true op line c = ground arith
