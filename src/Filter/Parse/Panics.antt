-- ===== src/Filter/Parse/Panics.antt =====
-- When `ParseFilter` of lmd/filter.go panics.
use lmd.Prelude.{
  ℕ, ◌≢◌, ◌≡◌, refl, ◌∙◌, sym, Bool, true, false, not, Option, none, some, List, [], ◌∷◌, Bytes,
  codes, Result, ok, err, ◌>>=◌, arith, Option-cases, inl, inr,
}
use lmd.Prelude.Dict.{lookup}
use lmd.Runtime.{Go}
use lmd.BadRequest.{Failure, bad, panicked, unrecognized_operator, unrecognized_filter_column}
use lmd.Objects.{ObjectsType, Table, Column}
use lmd.Objects.Lookup.{IsIndexed}
use lmd.Text.{split_n}
use lmd.Filter.{Condition, no_condition, Filter, Operator}
use lmd.Filter.Parse.{
  parse_operator, table_of, fix_broken_column, column_at, find_column, with_regexp, parse_condition,
  push, filter_parts, parse_filter,
}
use lmd.Filter.Parse.Value.{value_type, set_filter_value}
use lmd.Filter.Parse.Calm.{
  is_panic, is_filterable, bind-is_panic, set_filter_value-is_panic, with_regexp-is_panic,
}

not-injective : {b : Bool} → not b ≡ true → b ≡ false
not-injective {b = true} h = absurd (cc h)
not-injective {b = false} h = refl

module _ (go : Go) where
  column_at-is_panic :
      (t : Table) (name : Bytes) (i : _)
      → IsIndexed t
      → lookup name t.columns_index ≡ some i
      → is_panic (column_at t i) ≡ false
  unfolding column_at
  column_at-is_panic t name i h at =
      let (col, there, named, placed) = h.found name i at in ground (arith, there)

  fix_broken_column-lookup :
      (o : ObjectsType) (table name fixed : Bytes)
      → fix_broken_column o table name ≡ some fixed
      → lookup fixed (table_of o table).columns_index ≢ none
  unfolding fix_broken_column
  fix_broken_column-lookup o table name fixed eq = ground arith

  -- the branches of `find_column`
  found_cases :
      (t : Table) (e : Failure) (direct : Option ℕ) (fix : Option Bytes)
      → is_panic {A = Column} (err e) ≡ false
      → ((i : ℕ) → direct ≡ some i → is_panic (column_at t i) ≡ false)
      → ((f : Bytes) → fix ≡ some f → lookup f t.columns_index ≢ none)
      → IsIndexed t
      → is_panic {A = Column} (elim direct [
        | some i ↦ column_at t i
        | none ↦ elim fix [
          | none ↦ err e
          | some f ↦ elim (lookup f t.columns_index) [
            | none ↦ column_at t 0
            | some i ↦ column_at t i
          ]
        ]
      ])
        ≡ false
  found_cases t e (some i) fix calm in_table fixed h = in_table i refl
  found_cases t e none none calm in_table fixed h = calm
  found_cases t e none (some f) calm in_table fixed h =
      elim (Option-cases (lookup f t.columns_index)) [
        | inl missing ↦ absurd (fixed f refl missing)
        | inr (i, there) ↦ rw there (column_at-is_panic t f i h there)
      ]

  find_column-is_panic :
      (o : ObjectsType) (table name line : Bytes)
      → IsIndexed (table_of o table)
      → is_panic (find_column o table name line) ≡ false
  unfolding find_column
  find_column-is_panic o table name line h =
      found_cases (table_of o table) (bad (unrecognized_filter_column name line))
        (lookup name (table_of o table).columns_index) (fix_broken_column o table name) refl
        (λ i there. column_at-is_panic (table_of o table) name i h there)
        (fix_broken_column-lookup o table name) h

  abbrev Unfilterable : ObjectsType → Bytes → Bytes → Bytes → Type 0
  Unfilterable o table name line =
      (col : Column) × (find_column o table name line ≡ ok col)
      × (is_filterable (value_type col col.col_type) ≡ false)

  set_panics :
      (o : ObjectsType) (table line name value : Bytes) (op : Operator) (is_regex : Bool)
      → IsIndexed (table_of o table)
      → is_panic (
          find_column o table name line >>= λ col.
          set_filter_value go col value line
            (record (no_condition go) { operator = op; column = col })
          >>= λ c. with_regexp go is_regex op line c)
        ≡ true
      → Unfilterable o table name line
  set_panics o table line name value op is_regex h panics =
      elim (bind-is_panic (find_column o table name line) _ panics) [
        | inl early ↦ absurd (cc (early, find_column-is_panic o table name line h))
        | inr (col, is, later) ↦
            elim (bind-is_panic (set_filter_value go col value line _) _ later) [
              | inl p ↦
                  (col, is, not-injective (sym (set_filter_value-is_panic go col value line _) ∙ p))
              | inr (c, set, q) ↦ absurd (cc (q, with_regexp-is_panic go is_regex op line c))
            ]
      ]

  -- the columns that a condition may be about, and whether `setFilterValue` handles them
  parse_condition-panics :
      (o : ObjectsType) (table line name operator value : Bytes)
      → IsIndexed (table_of o table)
      → is_panic (parse_condition go o table line name operator value) ≡ true
      → Unfilterable o table name line
  unfolding parse_condition
  parse_condition-panics o table line name operator value h panics =
      elim (parse_operator operator)
          as (λ r.
            is_panic (elim r [
              | none ↦ err (bad (unrecognized_operator operator line))
              | some (op, is_regex) ↦ find_column o table name line >>= λ col.
                  set_filter_value go col value line
                    (record (no_condition go) { operator = op; column = col })
                  >>= λ c. with_regexp go is_regex op line c
            ])
              ≡ true
            → Unfilterable o table name line) [
              | none ↦ λ p. absurd (cc p)
              | some (op, is_regex) ↦ set_panics o table line name value op is_regex h
            ]
        panics

  push_panics :
      (o : ObjectsType) (table line : Bytes) (stack : List (Filter go))
      (m : Result Failure (Condition go))
      → is_panic (m >>= λ c. ok (push go stack c)) ≡ true
      → is_panic m ≡ true
  push_panics o table line stack (ok c) h = absurd (cc h)
  push_panics o table line stack (err (bad b)) h = absurd (cc h)
  push_panics o table line stack (err (panicked p)) h = refl

  -- the name of the column, the first of the parts
  parts_panics :
      (o : ObjectsType) (table line : Bytes) (stack : List (Filter go)) (parts : List Bytes)
      → IsIndexed (table_of o table)
      → is_panic (filter_parts go o table line stack parts) ≡ true
      → (name operator : Bytes) × (rest : List Bytes) × (parts ≡ name ∷ operator ∷ rest)
        × Unfilterable o table name line
  parts_panics o table line stack [] h p = absurd (cc p)
  parts_panics o table line stack (name ∷ []) h p = absurd (cc p)
  parts_panics o table line stack (name ∷ operator ∷ []) h p = (
    name,
    operator,
    [],
    refl,
    parse_condition-panics o table line name operator [] h (push_panics o table line stack _ p),
  )
  parts_panics o table line stack (name ∷ operator ∷ value ∷ rest) h p = (
    name,
    operator,
    value ∷ rest,
    refl,
    parse_condition-panics o table line name operator value h (push_panics o table line stack _ p),
  )

  -- On a table that finds its columns, if `ParseFilter` panics, its value is a column's name and an operator,
  -- parted by a blank, and the column of that name is of a type that `setFilterValue` does not handle, such as
  -- a reference to another table.
  pub parse_filter-panics :
      (o : ObjectsType) (value line table : Bytes) (stack : List (Filter go))
      → IsIndexed (table_of o table)
      → is_panic (parse_filter go o value line table stack) ≡ true
      → (name operator : Bytes) × (rest : List Bytes) × (split_n value (codes " ") 3
          ≡ name ∷ operator ∷ rest)
        × ((col : Column) × (find_column o table name line ≡ ok col)
            × (is_filterable (value_type col col.col_type) ≡ false))
  unfolding parse_filter
  parse_filter-panics o value line table stack h panics =
      parts_panics o table line stack (split_n value (codes " ") 3) h panics
