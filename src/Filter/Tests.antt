-- ===== src/Filter/Tests.antt =====
-- Tests of the filters, and the theorems about them at concrete requests.
use lmd.Prelude.{
  Bytes, ℕ, true, false, ◌-◌, ◌<◌, ◌≤◌, ◌≡◌, refl, Bool, ◌&&◌, some, List, [], ◌∷◌, codes, equal,
  Result, ok, length, take, drop, String,
}
use lmd.Prelude.Int.{ℤ, pos}
use lmd.Runtime.{Panic}
use lmd.Runtime.Dynamic.{Value, str}
use lmd.Runtime.Sample.{sample}
use lmd.Prelude.Dict.{lookup, insert}
use lmd.Objects.{
  Column, Table, ObjectsType, new_table, add_column_object, string_col, ref_col, ref_update,
}
use lmd.Objects.Lookup.{IsIndexed, new_table-IsIndexed, add_column_object-IsIndexed}
use lmd.Text.{split_n}
use lmd.Text.Decimal.{atoi}
use lmd.Filter.{
  Condition, zero_column, Filter, filter, nil, cons, no_group, or, equal_to, no_condition,
}
use lmd.Filter.Parse.{parse_filter_op, table_of, parse_filter, parse_operator, find_column}
use lmd.Filter.Parse.Value.{value_type, set_filter_value}
use lmd.Filter.Parse.Calm.{is_panic, is_filterable}
use lmd.Filter.Parse.Panics.{parse_filter-panics}
use lmd.Filter.Match.{match_filter}
use lmd.Filter.Group.{matches_all}
use lmd.Filter.Group.Meaning.{
  holds_all, holds_any, AllTested, matches_all-holds, parse_filter_op-and, parse_filter_op-or,
}

-- three filters on the name, whose conditions are told apart by their texts
abbrev named : String → Filter sample
named s =
    filter (record (no_condition sample) { operator = equal_to; str_value = codes s }) nil no_group

abbrev stack : List (Filter sample)
stack = named "a" ∷ named "b" ∷ named "c" ∷ []

abbrev is_a : Condition sample → Bool
is_a c = equal c.str_value (codes "a")

and_two :
    (stack' : List (Filter sample)) × (parse_filter_op sample
        (codes "and")
        (codes "2")
        (codes "And: 2")
        stack
      ≡ ok stack')
unfolding parse_filter_op atoi
and_two = (_, refl)

parse_filter_op-and_example : holds_all sample is_a and_two.0 ≡ holds_all sample is_a stack
parse_filter_op-and_example =
    parse_filter_op-and sample is_a (codes "2") (codes "And: 2") stack and_two.1

or_two :
    (stack' : List (Filter sample)) × (parse_filter_op sample
        (codes "or")
        (codes "2")
        (codes "Or: 2")
        stack
      ≡ ok stack')
unfolding parse_filter_op atoi
or_two = (_, refl)

parse_filter_op-or_example :
    (num : ℕ) × (atoi (codes "2") ≡ some (pos num))
    × (0 < num)
    × (num ≤ length stack)
    × (holds_all sample is_a or_two.0 ≡ (
        holds_all sample is_a (take (length stack - num) stack)
        && holds_any sample is_a (drop (length stack - num) stack)))
parse_filter_op-or_example =
    parse_filter_op-or sample is_a (codes "2") (codes "Or: 2") stack or_two.1

-- a row whose every column is the string "a"
abbrev row : ℕ → Result Panic (Value ℤ)
row i = ok (str (codes "a"))

abbrev name_column : Column
name_column = record zero_column { name = codes "name"; col_type = string_col }

abbrev on_name : String → Filter sample
on_name s =
    filter
      (record (no_condition sample) {
        column = name_column;
        operator = equal_to;
        str_value = codes s;
      })
      nil no_group

abbrev either : List (Filter sample)
either = filter (no_condition sample) (cons (on_name "b") (cons (on_name "a") nil)) or ∷ []

either-AllTested : AllTested sample row is_a either
unfolding match_filter equal
either-AllTested = ((refl, (refl, tt)), tt)

matches_all-holds_example : matches_all sample row either ≡ ok (holds_all sample is_a either)
matches_all-holds_example = matches_all-holds sample row is_a either either-AllTested

abbrev services : Table
services =
    add_column_object
      (record zero_column { name = codes "hosts"; col_type = ref_col; update = ref_update })
      (new_table (codes "services"))

abbrev objects : ObjectsType
objects = record { tables = (codes "services", services) ∷ []; order = codes "services" ∷ [] }

services-IsIndexed : IsIndexed (table_of objects (codes "services"))
unfolding table_of lookup equal
services-IsIndexed =
    add_column_object-IsIndexed
      (record zero_column { name = codes "hosts"; col_type = ref_col; update = ref_update })
      (new_table (codes "services")) (new_table-IsIndexed (codes "services"))

abbrev ref_line : Bytes
ref_line = codes "Filter: hosts = x"

ref_panics :
    is_panic (parse_filter sample objects (codes "hosts = x") ref_line (codes "services") []) ≡ true
unfolding parse_filter parse_operator find_column set_filter_value lookup equal add_column_object
    insert
ref_panics = refl

parse_filter-panics_example :
    (name operator : Bytes) × (rest : List Bytes) × (split_n (codes "hosts = x") (codes " ") 3
      ≡ name ∷ operator ∷ rest)
    × ((col : Column) × (find_column objects (codes "services") name ref_line ≡ ok col)
        × (is_filterable (value_type col col.col_type) ≡ false))
parse_filter-panics_example =
    parse_filter-panics sample objects (codes "hosts = x") ref_line (codes "services") []
      services-IsIndexed ref_panics
