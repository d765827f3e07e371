-- ===== src/Filter/Parse.antt =====
-- The parsers of lmd/filter.go: `ParseFilter`, `ParseStats` and `ParseFilterOp`.
pub mod Value
pub mod Calm
pub mod Panics
use lmd.Prelude.{
  ℕ, zero, suc, ◌+◌, ◌-◌, Bool, true, false, ◌&&◌, ◌||◌, not, Option, none, some, List, [], ◌∷◌,
  ◌++◌, Bytes, codes, equal, Result, ok, err, ◌>>=◌, ltb, length, get_elem?, take, drop,
  if◌then◌else◌,
}
use lmd.Prelude.Int.{ℤ, pos, negsuc, pos_part}
use lmd.Prelude.Dict.{lookup}
use lmd.Runtime.{Go, index_out_of_range}
use lmd.BadRequest.{
  BadRequest, Failure, bad, panicked, filter_header, stats_header, unrecognized_filter_column,
  unrecognized_stats_column, invalid_regexp, unrecognized_operator, group_not_positive,
  not_enough_filter,
}
use lmd.Objects.{Column, Table, ObjectsType, new_table}
use lmd.Text.{split_n, to_lower, trim_prefix}
use lmd.Text.Decimal.{atoi}
use lmd.Filter.{
  StatsType, counter, sum, average, min, max, Operator, equal_to, unequal, equal_nocase,
  unequal_nocase, regex_match, regex_match_not, regex_no_case_match, regex_no_case_match_not, less,
  less_than, greater, greater_than, group_contains_not, GroupOperator, no_group, and, or, Condition,
  no_condition, Filter, filter, nil, filters, condition_of,
}
use Value.{set_filter_value}

-- the operator, and whether it takes a regular expression
unfoldable pub parse_operator : Bytes → Option (Operator × Bool)
parse_operator s =
    if equal s (codes "=")
    then some (equal_to, false)
    else if equal s (codes "=~")
    then some (equal_nocase, false)
    else if equal s (codes "~")
    then some (regex_match, true)
    else if equal s (codes "!~")
    then some (regex_match_not, true)
    else if equal s (codes "~~")
    then some (regex_no_case_match, true)
    else if equal s (codes "!~~")
    then some (regex_no_case_match_not, true)
    else if equal s (codes "!=")
    then some (unequal, false)
    else if equal s (codes "!=~")
    then some (unequal_nocase, false)
    else if equal s (codes "<")
    then some (less, false)
    else if equal s (codes "<=")
    then some (less_than, false)
    else if equal s (codes ">")
    then some (greater, false)
    else if equal s (codes ">=")
    then some (greater_than, false)
    else if equal s (codes "!>=")
    then some (group_contains_not, false)
    else none

-- `Objects.Tables[name]`: the zero table at a missing key
unfoldable pub table_of : ObjectsType → Bytes → Table
table_of o name = elim (lookup name o.tables) [ none ↦ new_table [] | some t ↦ t ]

-- The name under which the table has the column, if it has it.
unfoldable pub fix_broken_column : ObjectsType → Bytes → Bytes → Option Bytes
unfolding table_of
fix_broken_column o table column =
    let fixed =
      if equal table (codes "services")
      then trim_prefix column (codes "service_")
      else if equal table (codes "hosts")
      then trim_prefix column (codes "host_")
      else column in
    elim (lookup fixed (table_of o table).columns_index) [ none ↦ none | some _ ↦ some fixed ]

-- `Objects.Tables[table].Columns[i]`
unfoldable pub column_at : Table → ℕ → Result Failure Column
column_at t i = elim (get_elem? t.columns i) [
  | none ↦ err (panicked index_out_of_range)
  | some col ↦ ok col
]

-- the column of this name, or else of the name without the prefix of broken clients
unfoldable pub find_column : ObjectsType → Bytes → Bytes → Bytes → Result Failure Column
unfolding table_of fix_broken_column column_at
find_column o table name line = elim (lookup name (table_of o table).columns_index) [
  | some i ↦ column_at (table_of o table) i
  | none ↦ elim (fix_broken_column o table name) [
    | none ↦ err (bad (unrecognized_filter_column name line))
    | some fixed ↦ elim (lookup fixed (table_of o table).columns_index) [
      | none ↦ column_at (table_of o table) 0
      | some i ↦ column_at (table_of o table) i
    ]
  ]
]

-- `regexp.Compile`, of the lower-case text for the operators that ignore case
abbrev pub pattern_text : Operator → Bytes → Bytes
pattern_text regex_no_case_match s = to_lower s
pattern_text regex_no_case_match_not s = to_lower s
pattern_text _ s = s

module _ (go : Go) where
  open go use {Float, Regexp, of_int, compile}

  unfoldable pub with_regexp :
      Bool → Operator → Bytes → Condition go → Result Failure (Condition go)
  with_regexp false op line c = ok c
  with_regexp true op line c = elim (compile (pattern_text op c.str_value)) [
    | none ↦ err (bad (invalid_regexp line))
    | some re ↦ ok (record c { regexp = some re })
  ]

  -- the part of `ParseFilter` behind the split of the value
  unfoldable pub parse_condition :
      ObjectsType → Bytes → Bytes → Bytes → Bytes → Bytes → Result Failure (Condition go)
  unfolding with_regexp
  parse_condition o table line name operator value = elim (parse_operator operator) [
    | none ↦ err (bad (unrecognized_operator operator line))
    | some (op, is_regex) ↦ do
      col ← find_column o table name line
      c ←
          set_filter_value go col value line
            (record (no_condition go) { operator = op; column = col })
      with_regexp is_regex op line c
  ]

  abbrev pub push : List (Filter go) → Condition go → List (Filter go)
  push stack c = stack ++ filter c nil no_group ∷ []

  abbrev pub filter_parts :
      ObjectsType
      → Bytes
      → Bytes
      → List (Filter go)
      → List Bytes
      → Result Failure (List (Filter go))
  filter_parts o table line stack (name ∷ operator ∷ []) = do
    c ← parse_condition o table line name operator []
    ok (push stack c)
  filter_parts o table line stack (name ∷ operator ∷ value ∷ _) = do
    c ← parse_condition o table line name operator value
    ok (push stack c)
  filter_parts o table line stack _ = err (bad filter_header)

  -- the value, the line, the table and the stack
  unfoldable pub parse_filter :
      ObjectsType → Bytes → Bytes → Bytes → List (Filter go) → Result Failure (List (Filter go))
  unfolding parse_condition split_n
  parse_filter o value line table stack =
      filter_parts o table line stack (split_n value (codes " ") 3)

  -- `startWith`
  abbrev initial_stats : StatsType → Float
  initial_stats min = of_int (negsuc 0)
  initial_stats _ = of_int (pos 0)

  pub stats_condition :
      ObjectsType → Bytes → Bytes → Bytes → StatsType → Result Failure (Condition go)
  stats_condition o table line name op = elim (lookup name (table_of o table).columns_index) [
    | none ↦ err (bad (unrecognized_stats_column name line))
    | some i ↦ do
      col ← column_at (table_of o table) i
      ok (record (no_condition go) { column = col; stats_type = op; stats = initial_stats op })
  ]

  abbrev pub as_counter : Condition go → Condition go
  as_counter c = record c { stats_type = counter }

  -- `(*stack)[len(*stack)-1].StatsType = Counter`
  unfoldable pub count_last : List (Filter go) → Result Failure (List (Filter go))
  count_last [] = err (panicked index_out_of_range)
  count_last (filter c subs op ∷ []) = ok (filter (as_counter c) subs op ∷ [])
  count_last (f ∷ g ∷ fs) = do rest ← count_last (g ∷ fs); ok (f ∷ rest)

  abbrev stats_of : Bytes → Option StatsType
  stats_of s =
      if equal s (codes "avg")
      then some average
      else if equal s (codes "min")
      then some min
      else if equal s (codes "max")
      then some max
      else if equal s (codes "sum")
      then some sum
      else none

  abbrev stats_parts :
      ObjectsType
      → Bytes
      → Bytes
      → Bytes
      → List (Filter go)
      → List Bytes
      → Result Failure (List (Filter go))
  stats_parts o value line table stack (op ∷ name ∷ _) = elim (stats_of (to_lower op)) [
    | some t ↦ do c ← stats_condition o table line name t; ok (push stack c)
    | none ↦ do stack' ← parse_filter o value line table stack; count_last stack'
  ]
  stats_parts o value line table stack _ = err (bad stats_header)

  unfoldable pub parse_stats :
      ObjectsType → Bytes → Bytes → Bytes → List (Filter go) → Result Failure (List (Filter go))
  unfolding stats_condition count_last split_n
  parse_stats o value line table stack =
      stats_parts o value line table stack (split_n value (codes " ") 3)

  abbrev pub group_of : Bytes → GroupOperator
  group_of header = if equal header (codes "and") then and else or

  -- the last `num` filters become one group
  unfoldable pub combine : Bytes → Bytes → ℕ → List (Filter go) → Result Failure (List (Filter go))
  combine header line num stack =
      if ltb (length stack) num
      then err (bad (not_enough_filter line))
      else ok (
          take (length stack - num) stack
          ++ filter (no_condition go) (filters go (drop (length stack - num) stack))
              (group_of header)
            ∷ [])

  -- on what `Atoi` makes of the value
  unfoldable pub combine_number :
      Bytes → Bytes → List (Filter go) → Option ℤ → Result Failure (List (Filter go))
  unfolding combine
  combine_number header line stack (some (pos (suc n))) = combine header line (suc n) stack
  combine_number header line stack _ = err (bad (group_not_positive header line))

  -- the header, the value, the line and the stack
  unfoldable pub parse_filter_op :
      Bytes → Bytes → Bytes → List (Filter go) → Result Failure (List (Filter go))
  unfolding combine_number
  parse_filter_op header value line stack = combine_number header line stack (atoi value)
