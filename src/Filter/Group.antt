-- ===== src/Filter/Group.antt =====
-- `MatchRowFilter` of lmd/peer.go: a filter, or a group of filters, against a row.
pub mod Meaning
use lmd.Prelude.{ℕ, Bool, true, false, List, [], ◌∷◌, Result, ok, err, ◌>>=◌, if◌then◌else◌}
use lmd.Runtime.{Go, Panic}
use lmd.Runtime.Dynamic.{Value}
use lmd.Filter.{Condition, Filter, filter, Filters, nil, cons, GroupOperator, no_group, and, or}
use lmd.Filter.Match.{match_filter}

-- `filter.GroupOperator == And`
abbrev pub is_and : GroupOperator → Bool
is_and and = true
is_and _ = false

-- `value_at` is the access to the row: directly, or by `GetRowValue`.
module _ (go : Go) (value_at : ℕ → Result Panic (Value go.Float)) where
  unfoldable mutual
    pub match_row_filter : Filter go → Result Panic Bool
    match_row_filter (filter c nil op) = value_at c.column.index >>= match_filter go c
    match_row_filter (filter c (cons f fs) op) = match_group op (cons f fs)

    -- the loop, with its early returns
    pub match_group : GroupOperator → Filters go → Result Panic Bool
    match_group op nil = ok (is_and op)
    match_group and (cons f fs) =
        let rest = match_group and fs in match_row_filter f >>= λ b. if b then rest else ok false
    match_group or (cons f fs) =
        let rest = match_group or fs in match_row_filter f >>= λ b. if b then ok true else rest
    match_group no_group (cons f fs) =
        let rest = match_group no_group fs in match_row_filter f >>= λ b. rest

  -- the loop over `req.Filter` in `gatherResultRows` and `gatherStatsResult`
  unfoldable pub matches_all : List (Filter go) → Result Panic Bool
  unfolding match_row_filter
  matches_all [] = ok true
  matches_all (f ∷ fs) =
      let rest = matches_all fs in match_row_filter f >>= λ b. if b then rest else ok false
