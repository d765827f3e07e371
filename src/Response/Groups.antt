-- ===== src/Response/Groups.antt =====
-- The rows of grouped statistics: the key of `getStatsKey` of lmd/peer.go and the rows that
-- `CalculateFinalStats` of lmd/response.go makes of it.
use lmd.Prelude.{
  ℕ, zero, suc, ◌+◌, Bool, List, [], ◌∷◌, Bytes, codes, length, set, replicate, ltb, Result, ok,
  err, ◌>>=◌, if◌then◌else◌,
}
use lmd.Runtime.{Go, Panic, index_out_of_range}
use lmd.Runtime.Dynamic.{Value, null, str, list, float, int, nil, cons}
use lmd.Text.{split, join}
use lmd.Filter.{Condition}
use lmd.Filter.Stats.{final_stats_apply}

-- the key of a row, of its values as `fmt.Sprintf` formats them
unfoldable pub get_stats_key : List Bytes → Bytes
unfolding join
get_stats_key values = join values (codes ";")

-- row[i] = v
unfoldable pub put {ℓ} : {A : Type ℓ} → List A → ℕ → A → Result Panic (List A)
put row i v = if ltb i (length row) then ok (set row i v) else err index_out_of_range

module _ (go : Go) where
  open go use {Float}

  -- the loop over the parts of the key, from the place `i`
  unfoldable pub put_parts : List (Value Float) → ℕ → List Bytes → Result Panic (List (Value Float))
  unfolding put
  put_parts row i [] = ok row
  put_parts row i (p ∷ ps) = do row' ← put row i (str p); put_parts row' (i + 1) ps

  -- the value, or for another node of the cluster the value and its count
  unfoldable pub stats_cell : Bool → Condition go → Result Panic (Value Float)
  unfolding final_stats_apply
  stats_cell send_stats_data c = do
    final ← final_stats_apply go c
    ok (
        if send_stats_data
        then list (cons (float c.stats) (cons (int c.stats_count) nil))
        else final)

  -- the loop over the statistics, from the place `i`
  unfoldable pub put_stats :
      Bool → List (Value Float) → ℕ → List (Condition go) → Result Panic (List (Value Float))
  unfolding put stats_cell
  put_stats send row i [] = ok row
  put_stats send row i (c ∷ cs) = do
    cell ← stats_cell send c
    row' ← put row i cell
    put_stats send row' (i + 1) cs

  abbrev put_key : ℕ → List (Value Float) → Bytes → Result Panic (List (Value Float))
  put_key zero row key = ok row
  put_key (suc n) row key = put_parts row 0 (split key b';')

  -- The row of a group: the number of columns, the key and the statistics.
  unfoldable pub group_row :
      Bool → ℕ → Bytes → List (Condition go) → Result Panic (List (Value Float))
  unfolding split put_parts put_stats
  group_row send columns key stats = do
    row ← put_key columns (replicate (length stats + columns) null) key
    put_stats send row columns stats
