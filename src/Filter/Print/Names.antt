-- ===== src/Filter/Print/Names.antt =====
-- The operator and the column of a condition of lmd/filter.go are found again by their names.
use lmd.Prelude.{
  ℕ, Bool, true, false, Option, none, some, [], ◌∷◌, Bytes, equal, get_elem?, ok, ◌||◌, ◌≡◌, refl,
  ap, sym, ◌∙◌, arith, Option-cases, Bool-cases, inl, inr,
}
use lmd.Prelude.Dict.{Dict, lookup}
use lmd.Objects.{
  Column, ColumnType, virt_col, custom_var_col, no_col_type, string_col, string_list_col, int_col,
  int_list_col, float_col, ref_col, time_col, string_fake_sort_col, Table, ObjectsType,
}
use lmd.Objects.Lookup.{IsIndexed}
use lmd.Objects.Virtual.{VirtKey, virt_key, virt_key_map}
use lmd.Filter.{
  Operator, no_operator, equal_to, unequal, equal_nocase, unequal_nocase, regex_match,
  regex_match_not, regex_no_case_match, regex_no_case_match_not, less, less_than, greater,
  greater_than, group_contains_not,
}
use lmd.Filter.Parse.{parse_operator, table_of, fix_broken_column, column_at, find_column}
use lmd.Filter.Parse.Value.{value_type}
use lmd.Filter.Print.{operator_text, is_custom}

abbrev pub takes_regex : Operator → Bool
takes_regex regex_match = true
takes_regex regex_match_not = true
takes_regex regex_no_case_match = true
takes_regex regex_no_case_match_not = true
takes_regex _ = false

abbrev pub is_missing : Operator → Bool
is_missing no_operator = true
is_missing _ = false

pub parsed_operator :
    (s : Bytes) (op : Operator) (b : Bool)
    → parse_operator s ≡ some (op, b)
    → (takes_regex op ≡ b) × (is_missing op ≡ false)
unfolding parse_operator
parsed_operator s op b h = ground arith

pub operator-text :
    (op : Operator) (b : Bool)
    → takes_regex op ≡ b
    → is_missing op ≡ false
    → (x : ℕ) × (s : Bytes) × (operator_text op ≡ ok (x ∷ s))
      × (parse_operator (x ∷ s) ≡ some (op, b))
unfolding operator_text parse_operator equal
operator-text no_operator b h some_op = absurd (cc some_op)
operator-text equal_to b h some_op = (_, _, refl, ap (λ c. some (equal_to, c)) h)
operator-text unequal b h some_op = (_, _, refl, ap (λ c. some (unequal, c)) h)
operator-text equal_nocase b h some_op = (_, _, refl, ap (λ c. some (equal_nocase, c)) h)
operator-text unequal_nocase b h some_op = (_, _, refl, ap (λ c. some (unequal_nocase, c)) h)
operator-text regex_match b h some_op = (_, _, refl, ap (λ c. some (regex_match, c)) h)
operator-text regex_match_not b h some_op = (_, _, refl, ap (λ c. some (regex_match_not, c)) h)
operator-text regex_no_case_match b h some_op =
    (_, _, refl, ap (λ c. some (regex_no_case_match, c)) h)
operator-text regex_no_case_match_not b h some_op =
    (_, _, refl, ap (λ c. some (regex_no_case_match_not, c)) h)
operator-text less b h some_op = (_, _, refl, ap (λ c. some (less, c)) h)
operator-text less_than b h some_op = (_, _, refl, ap (λ c. some (less_than, c)) h)
operator-text greater b h some_op = (_, _, refl, ap (λ c. some (greater, c)) h)
operator-text greater_than b h some_op = (_, _, refl, ap (λ c. some (greater_than, c)) h)
operator-text group_contains_not b h some_op =
    (_, _, refl, ap (λ c. some (group_contains_not, c)) h)

found_in :
    (name : Bytes) (m : Dict ℕ) {fixed : Bytes}
    → ◌≡◌ {A = Option Bytes}
        (elim (lookup name m) [ none ↦ none | some _ ↦ some name ])
        (some fixed)
    → (i : ℕ) × (lookup fixed m ≡ some i)
found_in name m {fixed} eq = elim (Option-cases (lookup name m)) [
  | inl gone ↦ absurd (ground (arith, gone, eq))
  | inr (i, is) ↦
      let same : name ≡ fixed = ground (arith, is, eq) in (i, sym (ap (λ k. lookup k m) same) ∙ is)
]

found_fixed :
    (o : ObjectsType) (table name : Bytes) {fixed : Bytes}
    → fix_broken_column o table name ≡ some fixed
    → (i : ℕ) × (lookup fixed (table_of o table).columns_index ≡ some i)
unfolding fix_broken_column table_of
found_fixed o table name eq = found_in _ (table_of o table).columns_index eq

found_column :
    (o : ObjectsType) (table name line : Bytes) {col : Column}
    → find_column o table name line ≡ ok col
    → (n : Bytes) × (i : ℕ) × (lookup n (table_of o table).columns_index ≡ some i)
      × (column_at (table_of o table) i ≡ ok col)
unfolding find_column
found_column o table name line eq =
    elim (Option-cases (lookup name (table_of o table).columns_index)) [
      | inr (i, is) ↦ (name, i, is, ground (arith, is, eq))
      | inl gone ↦ elim (Option-cases (fix_broken_column o table name)) [
        | inl broken ↦ absurd (ground (arith, gone, broken, eq))
        | inr (fixed, is) ↦
            let (i, there) = found_fixed o table name is in
            (fixed, i, there, ground (arith, gone, is, there, eq))
      ]
    ]

column_at-found :
    (t : Table) (i : ℕ) {col col' : Column}
    → column_at t i ≡ ok col
    → get_elem? t.columns i ≡ some col'
    → col ≡ col'
unfolding column_at
column_at-found t i eq is = ground arith

-- a column is found again by its own name
pub found_again :
    (o : ObjectsType) (table name line line' : Bytes) (col : Column)
    → IsIndexed (table_of o table)
    → find_column o table name line ≡ ok col
    → find_column o table col.name line' ≡ ok col
unfolding find_column
found_again o table name line line' col indexed eq =
    let (n, i, there, at_i) = found_column o table name line eq in
    let (col', held, named, placed) = indexed.found n i there in
    let same = column_at-found (table_of o table) i at_i held in
    let again =
      ap (λ k. lookup k (table_of o table).columns_index) (ap (λ (c : Column). c.name) same ∙ named)
      ∙ there in
    ground (arith, again, at_i)

is_custom_key : Dict VirtKey → Bool
is_custom_key [] = false
is_custom_key ((name, k) ∷ rest) = let more = is_custom_key rest in is_custom k.col_type || more

not_either : (b c : Bool) → (b || c) ≡ false → (b ≡ false) × (c ≡ false)
not_either b c h = ground arith

lookup-not_custom :
    (name : Bytes) (m : Dict VirtKey) {k : VirtKey}
    → is_custom_key m ≡ false
    → lookup name m ≡ some k
    → is_custom k.col_type ≡ false
unfolding is_custom_key lookup
lookup-not_custom name [] h eq = absurd (cc eq)
lookup-not_custom name ((n, j) ∷ rest) {k} h eq = elim (Bool-cases (equal n name)) [
  | inl same ↦
      let is : j ≡ k = ground (arith, same, eq) in
      ap (λ (v : VirtKey). is_custom v.col_type) (sym is) ∙ (not_either _ _ h).0
  | inr differ ↦
      lookup-not_custom name rest {k = k} (not_either _ _ h).1 (ground (arith, differ, eq))
]

no_custom_key : is_custom_key virt_key_map ≡ false
unfolding is_custom_key virt_key_map equal
no_custom_key = refl

virt_key-not_custom : (name : Bytes) → is_custom (virt_key name).col_type ≡ false
unfolding virt_key
virt_key-not_custom name = elim (Option-cases (lookup name virt_key_map)) [
  | inl gone ↦ ground (arith, gone)
  | inr (k, is) ↦ ground (arith, is, lookup-not_custom name virt_key_map no_custom_key is)
]

pub value_type-is_custom :
    (col : Column) (t : ColumnType) → is_custom (value_type col t) ≡ is_custom t
value_type-is_custom col virt_col = virt_key-not_custom col.name
value_type-is_custom col custom_var_col = refl
value_type-is_custom col no_col_type = refl
value_type-is_custom col string_col = refl
value_type-is_custom col string_list_col = refl
value_type-is_custom col int_col = refl
value_type-is_custom col int_list_col = refl
value_type-is_custom col float_col = refl
value_type-is_custom col ref_col = refl
value_type-is_custom col time_col = refl
value_type-is_custom col string_fake_sort_col = refl
