-- ===== src/Filter.antt =====
-- The filter expressions of lmd/filter.go.
pub mod Parse
pub mod Print
pub mod Match
pub mod Group
pub mod Stats
mod Tests
use lmd.Prelude.{ℕ, zero, suc, Bool, true, false, Option, none, List, [], ◌∷◌, ◌++◌, Bytes}
use lmd.Prelude.Int.{ℤ, pos}
use lmd.Runtime.{Go}
use lmd.Objects.{Column, no_col_type, no_update, no_flags}

pub data StatsType : Type 0 where
  no_stats counter sum average min max : StatsType

pub data Operator : Type 0 where
  -- the zero value
  no_operator : Operator
  equal_to unequal equal_nocase unequal_nocase : Operator
  regex_match regex_match_not regex_no_case_match regex_no_case_match_not : Operator
  less less_than greater greater_than : Operator
  group_contains_not : Operator

pub data GroupOperator : Type 0 where
  -- the zero value
  no_group and or : GroupOperator

abbrev pub zero_column : Column
zero_column = record {
  name = [];
  col_type = no_col_type;
  index = 0;
  ref_index = 0;
  ref_col_index = 0;
  update = no_update;
  optional = no_flags;
  description = [];
}

module _ (go : Go) where
  open go use {Float, Regexp, of_int}

  -- the fields of `Filter` but for the group
  pub record Condition : Type 0 where
    pub column : Column
    pub operator : Operator
    pub str_value : Bytes
    pub float_value : Float
    pub regexp : Option Regexp
    pub custom_tag : Bytes
    pub is_empty : Bool
    pub stats : Float
    pub stats_count : ℤ
    pub stats_type : StatsType

  abbrev pub no_condition : Condition
  no_condition = record {
    column = zero_column;
    operator = no_operator;
    str_value = [];
    float_value = of_int (pos 0);
    regexp = none;
    custom_tag = [];
    is_empty = false;
    stats = of_int (pos 0);
    stats_count = pos 0;
    stats_type = no_stats;
  }

  -- `Filters` is the field `Filter []Filter`; a filter is a group if it is not empty.
  mutual
    pub data Filter : Type 0 where
      filter : Condition → Filters → GroupOperator → Filter

    pub data Filters : Type 0 where
      nil : Filters
      cons : Filter → Filters → Filters

  abbrev pub condition_of : Filter → Condition
  condition_of (filter c subs op) = c

  unfoldable pub filters : List Filter → Filters
  filters [] = nil
  filters (f ∷ fs) = cons f (filters fs)

  unfoldable pub filter_list : Filters → List Filter
  filter_list nil = []
  filter_list (cons f fs) = f ∷ filter_list fs

  unfoldable pub filter_count : Filters → ℕ
  filter_count nil = 0
  filter_count (cons f fs) = suc (filter_count fs)
