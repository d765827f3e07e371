-- ===== src/Filter/Parse/Value.antt =====
-- `setFilterValue` of lmd/filter.go.
use lmd.Prelude.{true, Option, none, some, List, [], ◌∷◌, Bytes, codes, Result, ok, err}
use lmd.Prelude.Int.{ℤ, pos}
use lmd.Runtime.{Go, raised, index_out_of_range}
use lmd.BadRequest.{Failure, bad, panicked, not_an_integer, not_a_float, custom_variable_form}
use lmd.Objects.{
  Column, ColumnType, string_col, string_list_col, int_col, int_list_col, float_col, time_col,
  custom_var_col, virt_col,
}
use lmd.Objects.Virtual.{virt_key}
use lmd.Text.{split_n}
use lmd.Text.Decimal.{atoi}
use lmd.Filter.{Condition}

-- a virtual column has the type of its entry in `VirtKeyMap`
abbrev pub value_type : Column → ColumnType → ColumnType
value_type col virt_col = (virt_key col.name).col_type
value_type col t = t

module _ (go : Go) where
  open go use {Float, of_int, parse_float}

  -- A text that is no number is accepted only if it is empty; the value is then 0.
  unfoldable pub set_int : Bytes → Bytes → Option ℤ → Condition go → Result Failure (Condition go)
  set_int value line (some i) c = ok (record c { float_value = of_int i })
  set_int [] line none c = ok (record c { float_value = of_int (pos 0) })
  set_int (x ∷ value) line none c = err (bad (not_an_integer (x ∷ value) line))

  unfoldable pub set_float :
      Bytes → Bytes → Option Float → Condition go → Result Failure (Condition go)
  set_float value line (some f) c = ok (record c { float_value = f })
  set_float [] line none c = ok (record c { float_value = of_int (pos 0) })
  set_float (x ∷ value) line none c = err (bad (not_a_float (x ∷ value) line))

  unfoldable pub set_custom : Bytes → List Bytes → Condition go → Result Failure (Condition go)
  set_custom line [] c = err (panicked index_out_of_range)
  set_custom line ([] ∷ _) c = err (bad (custom_variable_form line))
  set_custom line ((x ∷ tag) ∷ []) c = ok (record c { is_empty = true; custom_tag = x ∷ tag })
  set_custom line ((x ∷ tag) ∷ value ∷ _) c =
      ok (record c { str_value = value; custom_tag = x ∷ tag })

  unfoldable pub set_typed :
      ColumnType → Bytes → Bytes → Condition go → Result Failure (Condition go)
  unfolding set_int set_float set_custom
  set_typed int_list_col value line c = set_int value line (atoi value) c
  set_typed time_col value line c = set_int value line (atoi value) c
  set_typed int_col value line c = set_int value line (atoi value) c
  set_typed float_col value line c = set_float value line (parse_float value) c
  set_typed custom_var_col value line c = set_custom line (split_n value (codes " ") 2) c
  set_typed string_list_col value line c = ok (record c { str_value = value })
  set_typed string_col value line c = ok (record c { str_value = value })
  set_typed _ value line c = err (panicked raised)

  unfoldable pub set_filter_value :
      Column → Bytes → Bytes → Condition go → Result Failure (Condition go)
  unfolding set_typed
  set_filter_value col [] line c =
      set_typed (value_type col col.col_type) [] line (record c { is_empty = true })
  set_filter_value col (x ∷ value) line c =
      set_typed (value_type col col.col_type) (x ∷ value) line c
