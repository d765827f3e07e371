-- ===== src/Filter/Print.antt =====
-- `String` of lmd/filter.go: a filter as the header lines of a query.
mod Parts
pub mod Value
pub mod Kept
mod Names
pub mod Read
pub mod Lines
use lmd.Prelude.{
  ℕ, Bool, true, false, List, [], ◌∷◌, ◌++◌, Bytes, codes, equal, Result, ok, err, ◌>>=◌,
  if◌then◌else◌,
}
use lmd.Prelude.Int.{ℤ, pos}
use lmd.Runtime.{Go, Panic, raised}
use lmd.Objects.{
  Column, ColumnType, string_col, string_list_col, int_col, int_list_col, float_col, time_col,
  custom_var_col,
}
use lmd.Text.Decimal.{format_int, format_ℕ}
use lmd.Filter.{
  StatsType, no_stats, counter, sum, average, min, max, Operator, equal_to, unequal, equal_nocase,
  unequal_nocase, regex_match, regex_match_not, regex_no_case_match, regex_no_case_match_not, less,
  less_than, greater, greater_than, group_contains_not, no_operator, GroupOperator, no_group, and,
  or, Condition, Filter, filter, Filters, nil, cons, filter_count,
}
use lmd.Filter.Parse.Value.{value_type}

unfoldable pub operator_text : Operator → Result Panic Bytes
operator_text equal_to = ok (codes "=")
operator_text unequal = ok (codes "!=")
operator_text equal_nocase = ok (codes "=~")
operator_text unequal_nocase = ok (codes "!=~")
operator_text regex_match = ok (codes "~")
operator_text regex_match_not = ok (codes "!~")
operator_text regex_no_case_match = ok (codes "~~")
operator_text regex_no_case_match_not = ok (codes "!~~")
operator_text less = ok (codes "<")
operator_text less_than = ok (codes "<=")
operator_text greater = ok (codes ">")
operator_text greater_than = ok (codes ">=")
operator_text group_contains_not = ok (codes "!>=")
operator_text no_operator = err raised

unfoldable pub stats_text : StatsType → Result Panic Bytes
stats_text average = ok (codes "avg")
stats_text sum = ok (codes "sum")
stats_text min = ok (codes "min")
stats_text max = ok (codes "Max")
stats_text _ = err raised

unfoldable pub group_text : GroupOperator → Result Panic Bytes
group_text and = ok (codes "And")
group_text or = ok (codes "Or")
group_text no_group = err raised

abbrev is_custom : ColumnType → Bool
is_custom custom_var_col = true
is_custom _ = false

-- a value behind a blank, or nothing
abbrev pub shown : Bytes → Bytes
shown [] = []
shown (c ∷ s) = b' ' ∷ c ∷ s

abbrev pub or_filter : Bytes → Bytes
or_filter [] = codes "Filter"
or_filter (c ∷ s) = c ∷ s

module _ (go : Go) where
  open go use {to_int, format_float}

  -- the value of a condition that is not empty, by the type of the column
  unfoldable pub typed_value : ColumnType → Condition go → Result Panic Bytes
  unfolding format_int
  typed_value custom_var_col c = ok (c.custom_tag ++ b' ' ∷ c.str_value)
  typed_value time_col c = ok (format_int (to_int c.float_value))
  typed_value int_list_col c = ok (format_int (to_int c.float_value))
  typed_value int_col c = ok (format_int (to_int c.float_value))
  typed_value float_col c = ok (format_float c.float_value)
  typed_value string_list_col c = ok c.str_value
  typed_value string_col c = ok c.str_value
  typed_value _ c = err raised

  unfoldable pub str_value : Condition go → Result Panic Bytes
  unfolding typed_value
  str_value c =
      let value = typed_value (value_type c.column c.column.col_type) c in
      if c.is_empty then ok (if is_custom c.column.col_type then c.custom_tag else []) else value

  -- name, operator and value
  unfoldable pub condition_text : Condition go → Bytes → Result Panic Bytes
  unfolding operator_text
  condition_text c value = do
    op ← operator_text c.operator
    ok (c.column.name ++ b' ' ∷ (op ++ shown value))

  abbrev pub line_text : Bytes → Condition go → Bytes → StatsType → Result Panic Bytes
  line_text prefix c value no_stats = do
    text ← condition_text c value
    ok (or_filter prefix ++ (codes ": " ++ (text ++ codes "\n")))
  line_text prefix c value counter = do
    text ← condition_text c value
    ok (codes "Stats: " ++ (text ++ codes "\n"))
  line_text prefix c value aggregate = do
    op ← stats_text aggregate
    ok (codes "Stats: " ++ op ++ b' ' ∷ c.column.name ++ codes "\n")

  unfoldable pub condition_line : Bytes → Condition go → Result Panic Bytes
  unfolding str_value condition_text stats_text
  condition_line prefix c = do value ← str_value c; line_text prefix c value c.stats_type

  unfoldable mutual
    unfolding condition_line group_text format_ℕ filter_count

    pub print_filter : Bytes → Filter go → Result Panic Bytes
    print_filter prefix (filter c nil op) = condition_line prefix c
    print_filter prefix (filter c (cons f fs) op) = do
      first ← print_filter prefix f
      rest ← print_filters prefix fs
      group ← group_text op
      let header = prefix ++ (group ++ codes ": ")
      ok (first ++ (rest ++ (header ++ (format_ℕ (filter_count go (cons f fs)) ++ codes "\n"))))

    pub print_filters : Bytes → Filters go → Result Panic Bytes
    print_filters prefix nil = ok []
    print_filters prefix (cons f fs) = do
      first ← print_filter prefix f
      rest ← print_filters prefix fs
      ok (first ++ rest)
