-- ===== src/Response/Order.antt =====
-- `Less` of lmd/response.go.
pub mod Ties
use lmd.Prelude.{
  Bool, true, false, Option, some, List, [], ◌∷◌, Bytes, equal, bytes_less, Result, ok, err, ◌>>=◌,
  if◌then◌else◌,
}
use lmd.Prelude.Int.{ℤ, pos, negsuc, eqb_ℤ}
use lmd.Prelude.Dict.{lookup}
use lmd.Runtime.{Go, Panic, raised, type_assertion}
use lmd.Runtime.Dynamic.{Value, null, str}
use lmd.Objects.{
  Column, ColumnType, string_col, string_list_col, int_col, int_list_col, float_col, time_col,
  custom_var_col, string_fake_sort_col,
}
use lmd.Request.{SortField, SortDirection, asc, desc}
use lmd.Filter.Match.{number_to_float}
use lmd.Response.{Cell, value, hash, Row, at}

-- A sort field decides, or the next one is asked.
pub data Verdict : Type 0 where
  continue : Verdict
  decided : Bool → Verdict

abbrev pub is_asc : SortDirection → Bool
is_asc asc = true
is_asc desc = false

abbrev pub by_direction : SortDirection → Bool → Bool → Bool
by_direction asc before after = before
by_direction desc before after = after

module _ (go : Go) where
  open go use {Float, float_eq, float_lt}

  abbrev pub number_of : Cell Float → Float
  number_of (value v) = number_to_float go v
  number_of (hash m) = number_to_float go null

  abbrev pub compare_numbers : SortDirection → Float → Float → Verdict
  compare_numbers d a b =
      if float_eq a b then continue else decided (by_direction d (float_lt a b) (float_lt b a))

  abbrev pub compare_texts : SortDirection → Bytes → Bytes → Verdict
  compare_texts d a b =
      if equal a b then continue else decided (by_direction d (bytes_less a b) (bytes_less b a))

  -- where one of the two is no string, the direction alone decides
  abbrev pub compare_strings : SortDirection → Cell Float → Cell Float → Verdict
  compare_strings d (value (str a)) (value (str b)) = compare_texts d a b
  compare_strings d _ _ = decided (is_asc d)

  -- what is no string, or not there, counts as the empty one
  abbrev pub string_or_empty : Option (Value Float) → Bytes
  string_or_empty (some (str s)) = s
  string_or_empty _ = []

  abbrev pub compare_custom : SortDirection → Bytes → Cell Float → Cell Float → Result Panic Verdict
  compare_custom d args (hash m) (hash n) =
      ok (compare_texts d (string_or_empty (lookup args m)) (string_or_empty (lookup args n)))
  compare_custom d args _ _ = err type_assertion

  abbrev pub sort_type : List Column → SortField → Result Panic ColumnType
  sort_type columns s =
      let typed = (do col ← at columns s.index; ok col.col_type) in
      if eqb_ℤ s.index (negsuc 0) then ok string_fake_sort_col else typed

  abbrev numbers_at : SortField → Row Float → Row Float → Result Panic Verdict
  numbers_at s a b = do
    x ← at a s.index
    y ← at b s.index
    ok (compare_numbers s.direction (number_of x) (number_of y))

  abbrev strings_at : ℤ → SortField → Row Float → Row Float → Result Panic Verdict
  strings_at i s a b = do x ← at a i; y ← at b i; ok (compare_strings s.direction x y)

  pub compare_by : ColumnType → SortField → Row Float → Row Float → Result Panic Verdict
  compare_by time_col s a b = numbers_at s a b
  compare_by int_col s a b = numbers_at s a b
  compare_by float_col s a b = numbers_at s a b
  compare_by string_col s a b = strings_at s.index s a b
  compare_by string_list_col s a b = ok (decided (is_asc s.direction))
  compare_by int_list_col s a b = ok (decided (is_asc s.direction))
  compare_by custom_var_col s a b = do
    x ← at a s.index
    y ← at b s.index
    compare_custom s.direction s.args x y
  compare_by string_fake_sort_col s a b = strings_at (pos 0) s a b
  compare_by _ s a b = err raised

  abbrev pub conclude : Result Panic Bool → Verdict → Result Panic Bool
  conclude rest continue = rest
  conclude rest (decided b) = ok b

  -- Rows that no field tells apart are less than each other.
  unfoldable pub less : List Column → List SortField → Row Float → Row Float → Result Panic Bool
  unfolding compare_by
  less columns [] a b = ok true
  less columns (s ∷ ss) a b =
      let rest = less columns ss a b in
      sort_type columns s >>= λ t. compare_by t s a b >>= λ v. conclude rest v
