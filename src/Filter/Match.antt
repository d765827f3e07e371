-- ===== src/Filter/Match.antt =====
-- `MatchFilter` of lmd/filter.go and the functions below it. A test may panic, so it returns a
-- `Result Panic Bool`.
use lmd.Prelude.{
  is_nil, ℕ, suc, Bool, true, false, not, ◌&&◌, Option, none, some, List, [], ◌∷◌, map, Bytes,
  codes, equal, bytes_less, Result, ok, err, ◌>>=◌, length, ◌==◌, if◌then◌else◌,
}
use lmd.Prelude.Int.{pos}
use lmd.Prelude.Dict.{Dict, lookup, insert}
use lmd.Runtime.{Go, Panic, raised, type_assertion, nil_dereference}
use lmd.Runtime.Dynamic.{
  Value, null, bool, float, int, str, list, dict, nil, cons, Fields, end, field, to_list,
}
use lmd.Objects.{
  ColumnType, string_col, string_list_col, int_col, int_list_col, float_col, time_col,
  custom_var_col,
}
use lmd.Text.{to_lower, to_upper}
use lmd.Filter.{
  Operator, equal_to, unequal, equal_nocase, unequal_nocase, regex_match, regex_match_not,
  regex_no_case_match, regex_no_case_match_not, less, less_than, greater, greater_than,
  group_contains_not, Condition,
}
use lmd.Filter.Parse.Value.{value_type}

module _ (go : Go) where
  open go use {Float, float_eq, float_lt, float_le, of_int, format_value, Regexp, match_string}

  unfoldable pub number_to_float : Value Float → Float
  number_to_float (float v) = v
  number_to_float (int v) = of_int v
  number_to_float (bool true) = of_int (pos 1)
  number_to_float _ = of_int (pos 0)

  unfoldable pub match_number : Operator → Float → Float → Bool
  match_number equal_to a b = float_eq a b
  match_number unequal a b = not (float_eq a b)
  match_number less a b = float_lt a b
  match_number less_than a b = float_le a b
  match_number greater a b = float_lt b a
  match_number greater_than a b = float_le b a
  match_number _ a b = false

  unfoldable pub match_empty : Operator → Bool
  match_empty unequal = true
  match_empty greater = true
  match_empty greater_than = true
  match_empty _ = false

  -- `strA` of `matchStringValueOperator`
  abbrev pub text_of : Value Float → Bytes
  text_of (str s) = s
  text_of null = []
  text_of v = format_value v

  -- a regular expression that is nil faults
  abbrev regexp_test : Option Regexp → Bytes → Result Panic Bool
  regexp_test none s = err nil_dereference
  regexp_test (some re) s = ok (match_string re s)

  abbrev negated : Result Panic Bool → Result Panic Bool
  negated r = r >>= λ b. ok (not b)

  unfoldable pub match_text : Operator → Bytes → Bytes → Option Regexp → Result Panic Bool
  match_text equal_to a b re = ok (equal a b)
  match_text unequal a b re = ok (not (equal a b))
  match_text equal_nocase a b re = ok (equal (to_lower a) (to_lower b))
  match_text unequal_nocase a b re = ok (not (equal (to_lower a) (to_lower b)))
  match_text regex_match a b re = regexp_test re a
  match_text regex_match_not a b re = negated (regexp_test re a)
  match_text regex_no_case_match a b re = regexp_test re (to_lower a)
  match_text regex_no_case_match_not a b re = negated (regexp_test re (to_lower a))
  match_text less a b re = ok (bytes_less a b)
  match_text less_than a b re = ok (not (bytes_less b a))
  match_text greater a b re = ok (bytes_less b a)
  match_text greater_than a b re = ok (not (bytes_less a b))
  match_text _ a b re = ok false

  -- `reflect.ValueOf(v).Len()`: of lists, strings and maps; any other kind panics.
  abbrev field_count : Fields Float → ℕ
  field_count end = 0
  field_count (field k v fs) = suc (field_count fs)

  abbrev pub value_length : Value Float → Result Panic ℕ
  value_length null = ok 0
  value_length (list vs) = ok (length (to_list vs))
  value_length (str s) = ok (length s)
  value_length (dict fs) = ok (field_count fs)
  value_length _ = err type_assertion

  -- What the loops over `list.Index(i)` read. The bytes of a string are neither strings nor numbers
  -- to the loops, as nil is; a map cannot be indexed.
  abbrev pub elements : Value Float → Result Panic (List (Value Float))
  elements null = ok []
  elements (list vs) = ok (to_list vs)
  elements (str s) = ok (map (λ _. null) s)
  elements (dict end) = ok []
  elements _ = err type_assertion

  -- the loop of `GreaterThan`, up to the first hit; an element that is no string panics
  unfoldable pub has_text : Bytes → List (Value Float) → Result Panic Bool
  has_text s [] = ok false
  has_text s (str t ∷ vs) = let rest = has_text s vs in if equal s t then ok true else rest
  has_text s (_ ∷ vs) = err type_assertion

  unfoldable pub has_number : Float → List (Value Float) → Bool
  has_number x [] = false
  has_number x (v ∷ vs) =
      let rest = has_number x vs in if float_eq x (number_to_float v) then true else rest

  unfoldable pub match_string_list : Operator → Bytes → Value Float → Result Panic Bool
  unfolding has_text
  match_string_list equal_to s v = do n ← value_length v; ok (is_nil s && n == 0)
  match_string_list unequal s v = do n ← value_length v; ok (is_nil s && not (n == 0))
  match_string_list greater_than s v = do vs ← elements v; has_text s vs
  match_string_list group_contains_not s v = do vs ← elements v; negated (has_text s vs)
  match_string_list _ s v = do n ← value_length v; ok false

  unfoldable pub match_int_list : Operator → Bool → Float → Value Float → Result Panic Bool
  unfolding has_number
  match_int_list equal_to empty x v = do n ← value_length v; ok (empty && n == 0)
  match_int_list unequal empty x v = do n ← value_length v; ok (empty && not (n == 0))
  match_int_list greater_than empty x v = do vs ← elements v; ok (has_number x vs)
  match_int_list group_contains_not empty x v = do vs ← elements v; ok (not (has_number x vs))
  match_int_list _ empty x v = do n ← value_length v; ok false

  abbrev field_list : Fields Float → Dict (Value Float)
  field_list end = []
  field_list (field k v fs) = (k, v) ∷ field_list fs

  -- `fmt.Sprintf("%v")`
  abbrev pub sprint : Value Float → Bytes
  sprint null = codes "<nil>"
  sprint (str s) = s
  sprint v = format_value v

  -- a pair of a list from icinga2; what is no pair is passed over
  abbrev add_pair : Value Float → Dict (Value Float) → Result Panic (Dict (Value Float))
  add_pair (list (cons (str k) (cons v nil))) m = ok (insert (to_upper k) (str (sprint v)) m)
  add_pair (list (cons _ (cons v nil))) m = err type_assertion
  add_pair _ m = ok m

  pub add_pairs : List (Value Float) → Dict (Value Float) → Result Panic (Dict (Value Float))
  add_pairs [] m = ok m
  add_pairs (v ∷ vs) m = do m' ← add_pair v m; add_pairs vs m'

  -- `interfaceToCustomVarHash`
  unfoldable pub custom_vars : Value Float → Result Panic (Dict (Value Float))
  unfolding add_pairs
  custom_vars (dict fs) = ok (field_list fs)
  custom_vars (list vs) = add_pairs (to_list vs) []
  custom_vars _ = ok []

  abbrev pub custom_text : Bytes → Dict (Value Float) → Bytes
  custom_text tag m = elim (lookup tag m) [ none ↦ [] | some v ↦ text_of v ]

  abbrev match_numeric : Condition go → Value Float → Result Panic Bool
  match_numeric c v = ok (
      if c.is_empty
      then match_empty c.operator
      else match_number c.operator (number_to_float v) c.float_value)

  -- The types that the case for a virtual column leads to are those of `VirtKeyMap`.
  pub match_typed : ColumnType → Condition go → Value Float → Result Panic Bool
  unfolding match_text match_string_list match_int_list match_number match_empty custom_vars
  match_typed string_col c v = match_text c.operator (text_of v) c.str_value c.regexp
  match_typed custom_var_col c v = do
    m ← custom_vars v
    match_text c.operator (custom_text c.custom_tag m) c.str_value c.regexp
  match_typed time_col c v = match_numeric c v
  match_typed int_col c v = match_numeric c v
  match_typed float_col c v = match_numeric c v
  match_typed string_list_col c v = match_string_list c.operator c.str_value v
  match_typed int_list_col c v = match_int_list c.operator c.is_empty c.float_value v
  match_typed _ c v = err raised

  unfoldable pub match_filter : Condition go → Value Float → Result Panic Bool
  unfolding match_typed
  match_filter c v = match_typed (value_type c.column c.column.col_type) c v
