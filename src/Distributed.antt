-- ===== src/Distributed.antt =====
-- Requests in a cluster: `GetResponse`, `getSubBackends`, the limit of `buildDistributedRequestData`
-- and `mergeDistributedResponse` of lmd/request.go. What the nodes answer is a parameter, in the
-- order in which the answers arrive.
pub mod Cover
pub mod Window
mod Tests
use lmd.Prelude.{
  is_nil, ℕ, zero, suc, Bool, true, false, ◌&&◌, ◌||◌, Option, none, some, List, [], ◌∷◌, ◌++◌,
  Bytes, codes, equal, Result, ok, err, ◌>>=◌, if◌then◌else◌, length, drop, get_elem?,
}
use lmd.Prelude.Int.{ℤ, pos, eqb_ℤ, ◌+ℤ◌}
use lmd.Prelude.Dict.{Dict, lookup, insert}
use lmd.Runtime.{Go, Panic, index_out_of_range, type_assertion}
use lmd.Runtime.Dynamic.{Value, Values, str, float, list, nil, cons}
use lmd.Text.{join}
use lmd.Filter.{Filter, Condition}
use lmd.Filter.Stats.{apply_value, create_local_stats_copy}

-- the loop over `req.Backends`
unfoldable pub is_requested : Bool → List Bytes → Bytes → Bool
is_requested all [] b = all
is_requested all (r ∷ rs) b = let rest = is_requested all rs b in equal r b || rest

-- whether all backends are requested, `req.Backends` and the backends of a node
unfoldable pub get_sub_backends : Bool → List Bytes → List Bytes → List Bytes
unfolding is_requested
get_sub_backends all requested [] = []
get_sub_backends all requested (b ∷ bs) =
    let rest = get_sub_backends all requested bs in
    if is_requested all requested b then b ∷ rest else rest

-- How a request is answered: from this node's data, or by asking the nodes.
pub data Route : Type 0 where
  local distributed : Route

pub all_ours : (Bytes → Bool) → List Bytes → Bool
all_ours is_ours [] = true
all_ours is_ours (b ∷ bs) = let rest = all_ours is_ours bs in is_ours b && rest

-- `GetResponse`, with `IsClustered`, `IsOurBackend` and `req.Backends`
unfoldable pub get_response : Bool → (Bytes → Bool) → List Bytes → Route
unfolding all_ours
get_response clustered is_ours backends =
    if clustered
    then (if is_nil backends
        then distributed
        else if all_ours is_ours backends
        then local
        else distributed)
    else local

-- the limit and the offset of the request; 0 is no limit
unfoldable pub sub_limit : ℤ → ℤ → ℤ
unfolding ◌+ℤ◌
sub_limit limit offset = if eqb_ℤ limit (pos 0) then pos 0 else limit +ℤ offset

module _ {ℓ} {A : Type ℓ} where
  -- the rows of a request without statistics
  unfoldable pub merge_rows : List (List A) → List A
  merge_rows [] = []
  merge_rows (rows ∷ datasets) = rows ++ merge_rows datasets

module _ (go : Go) where
  open go use {Float, to_int}

  -- the parts of the key of a row, which are strings
  abbrev key_part : Option (Value Float) → Result Panic Bytes
  key_part none = err index_out_of_range
  key_part (some (str s)) = ok s
  key_part (some _) = err type_assertion

  unfoldable pub row_key : ℕ → List (Value Float) → Result Panic (List Bytes)
  row_key zero row = ok []
  row_key (suc n) [] = err index_out_of_range
  row_key (suc n) (v ∷ row) = do k ← key_part (some v); ks ← row_key n row; ok (k ∷ ks)

  -- value and count
  abbrev partial_result : Value Float → Result Panic (Float × ℤ)
  partial_result (list (cons (float v) (cons (float n) rest))) = ok (v, to_int n)
  partial_result (list (cons _ (cons _ rest))) = err type_assertion
  partial_result (list _) = err index_out_of_range
  partial_result _ = err type_assertion

  -- the statistics of one row, applied one by one
  unfoldable pub apply_row :
      List (Value Float) → List (Condition go) → Result Panic (List (Condition go))
  unfolding apply_value
  apply_row [] stats = ok stats
  apply_row (v ∷ vs) [] = partial_result v >>= λ _. err index_out_of_range
  apply_row (v ∷ vs) (s ∷ stats) = do
    (value, count) ← partial_result v
    s' ← apply_value go value count s
    rest ← apply_row vs stats
    ok (s' ∷ rest)

  abbrev pub stats_of : List (Filter go) → Bytes → Dict (List (Condition go)) → List (Condition go)
  stats_of stats key m = elim (lookup key m) [
    | none ↦ create_local_stats_copy go stats
    | some s ↦ s
  ]

  -- `req.Stats`, the number of columns, the rows and the result so far
  unfoldable pub merge_stats :
      List (Filter go)
      → ℕ
      → List (List (Value Float))
      → Dict (List (Condition go))
      → Result Panic (Dict (List (Condition go)))
  unfolding row_key apply_row lookup insert join create_local_stats_copy
  merge_stats stats columns [] m = ok m
  merge_stats stats columns (row ∷ rows) m = do
    key ← row_key columns row
    merged ← apply_row (drop columns row) (stats_of stats (join key (codes ";")) m)
    merge_stats stats columns rows (insert (join key (codes ";")) merged m)
