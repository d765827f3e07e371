-- ===== src/Filter/Stats.antt =====
-- The statistics of a request: `ApplyValue` of lmd/filter.go, `createLocalStatsCopy` and the loop over
-- the stats of a row in `gatherStatsResult` of lmd/peer.go, `finalStatsApply` of lmd/response.go.
pub mod Merge
pub mod Minimum
mod Tests
use lmd.Prelude.{
  ℕ, zero, suc, Bool, true, false, ◌||◌, List, [], ◌∷◌, Result, ok, err, ◌>>=◌, if◌then◌else◌,
}
use lmd.Prelude.Int.{ℤ, pos, negsuc, ◌+ℤ◌, ltb_ℤ, eqb_ℤ}
use lmd.Runtime.{Go, Panic, raised}
use lmd.Runtime.Dynamic.{Value, float, int}
use lmd.Filter.{
  StatsType, no_stats, counter, sum, average, min, max, Condition, no_condition, Filter, filter,
}

module _ (go : Go) where
  open go use {Float, float_eq, float_lt, float_add, float_div, of_int}

  -- the new `Stats`, by the type of the statistics
  abbrev apply_stats : StatsType → Float → ℤ → Float → Result Panic Float
  apply_stats counter val count stats = ok (float_add stats (of_int count))
  apply_stats average val count stats = ok (float_add stats val)
  apply_stats sum val count stats = ok (float_add stats val)
  apply_stats min val count stats =
      ok (if float_lt val stats || float_eq stats (of_int (negsuc 0)) then val else stats)
  apply_stats max val count stats = ok (if float_lt stats val then val else stats)
  apply_stats no_stats val count stats = err raised

  -- the value, the count and the statistics
  unfoldable pub apply_value : Float → ℤ → Condition go → Result Panic (Condition go)
  unfolding ◌+ℤ◌
  apply_value val count c = do
    stats ← apply_stats c.stats_type val count c.stats
    ok (record c { stats = stats; stats_count = c.stats_count +ℤ count })

  abbrev initial : StatsType → Float
  initial min = of_int (negsuc 0)
  initial _ = of_int (pos 0)

  -- one element of `createLocalStatsCopy`
  unfoldable pub local_copy : Condition go → Condition go
  local_copy c = record (no_condition go) {
    stats_type = c.stats_type;
    stats = initial c.stats_type;
  }

  unfoldable pub create_local_stats_copy : List (Filter go) → List (Condition go)
  unfolding local_copy
  create_local_stats_copy [] = []
  create_local_stats_copy (filter c subs op ∷ fs) = local_copy c ∷ create_local_stats_copy fs

  -- The values of the rows that pass the filters, each with a count of 1.
  unfoldable pub apply_rows : List Float → Condition go → Result Panic (Condition go)
  unfolding apply_value
  apply_rows [] c = ok c
  apply_rows (v ∷ vs) c = do d ← apply_value v (pos 1) c; apply_rows vs d

  abbrev average_of : Condition go → Value Float
  average_of c =
      if ltb_ℤ (pos 0) c.stats_count
      then float (float_div c.stats (of_int c.stats_count))
      else int (pos 0)

  abbrev final_value : StatsType → Condition go → Result Panic (Value Float)
  final_value counter c = ok (float c.stats)
  final_value min c = ok (float c.stats)
  final_value max c = ok (float c.stats)
  final_value sum c = ok (float c.stats)
  final_value average c = ok (average_of c)
  final_value no_stats c = err raised

  unfoldable pub final_stats_apply : Condition go → Result Panic (Value Float)
  final_stats_apply c = do
    value ← final_value c.stats_type c
    ok (if eqb_ℤ c.stats_count (pos 0) then int (pos 0) else value)
