-- ===== src/Response/Window.antt =====
-- `PostProcessing` of lmd/response.go for requests without statistics, and `optimizeResultLimit` and
-- the row loop of `gatherResultRows` of lmd/peer.go.
use lmd.Prelude.{
  is_nil, ℕ, ◌+◌, Bool, false, ◌&&◌, ◌||◌, not, List, [], ◌∷◌, ◌++◌, Bytes, length, take, drop, leb,
  ltb, ◌==◌, Result, ok, err, ◌>>=◌, if◌then◌else◌,
}
use lmd.Prelude.Int.{ℤ, pos, negsuc, ltb_ℤ, ◌+ℤ◌}
use lmd.Runtime.{Panic, index_out_of_range}
use lmd.Request.{SortField}
use lmd.Request.Sort.{is_default_sort_order}

-- is the result sorted? with the number of backends, the table and the sort fields
abbrev pub needs_sort : ℕ → Bytes → List SortField → Bool
needs_sort backends table sort =
    not (is_nil sort) && (leb 1 backends || not (is_default_sort_order table sort))

module _ {ℓ} {A : Type ℓ} where
  -- xs[n:]
  abbrev pub slice_from : ℕ → List A → Result Panic (List A)
  slice_from n xs = if leb n (length xs) then ok (drop n xs) else err index_out_of_range

  -- the offset, the total and the rows
  unfoldable pub apply_offset : ℤ → ℕ → List A → Result Panic (List A)
  apply_offset (negsuc n) total rows = ok rows
  apply_offset (pos offset) total rows =
      if offset == 0 then ok rows else if ltb total offset then ok [] else slice_from offset rows

  unfoldable pub apply_limit : ℤ → List A → List A
  apply_limit (negsuc n) rows = rows
  apply_limit (pos limit) rows =
      if ltb 0 limit && ltb limit (length rows) then take limit rows else rows

  abbrev pub total_or : ℕ → List A → ℕ
  total_or total rows = if total == 0 then length rows else total

  -- The sorted rows, the total, the offset and the limit; the total that is reported and the rows.
  unfoldable pub window : ℤ → ℤ → ℕ → List A → Result Panic (ℕ × List A)
  unfolding apply_offset apply_limit
  window offset limit total rows = do
    moved ← apply_offset offset (total_or total rows) rows
    ok (total_or total rows, apply_limit limit moved)

  -- `sort_rows` is `sort.Sort` with `Less`, which leaves the order of rows that tie open.
  unfoldable pub post_processing :
      (List A → Result Panic (List A))
      → ℕ
      → Bytes
      → List SortField
      → ℤ
      → ℤ
      → ℕ
      → List A
      → Result Panic (ℕ × List A)
  unfolding window
  post_processing sort_rows backends table sort offset limit total rows =
      let windowed = (do sorted ← sort_rows rows; window offset limit total sorted) in
      if needs_sort backends table sort then windowed else window offset limit total rows

-- the limit, the offset, the table and the sort fields; 0 is no limit
unfoldable pub optimize_result_limit : ℤ → ℤ → Bytes → List SortField → ℤ
unfolding ◌+ℤ◌
optimize_result_limit limit offset table sort =
    if ltb_ℤ (pos 0) limit && is_default_sort_order table sort
    then (if ltb_ℤ (pos 0) offset then limit +ℤ offset else limit)
    else pos 0

-- `limit > 0 && found > limit`
abbrev pub is_over : ℤ → ℕ → Bool
is_over (pos limit) n = ltb 0 limit && ltb limit n
is_over (negsuc _) n = false

module _ {ℓ κ} {A : Type ℓ} {B : Type κ} (passes : A → Result Panic Bool)
    (row_of : A → Result Panic B) where
  -- The loop over the rows: the limit, the number of matches so far and the rows that are left; the
  -- number of matches and the result rows.
  unfoldable pub gather_rows : ℤ → ℕ → List A → Result Panic (ℕ × List B)
  gather_rows limit n [] = ok (n, [])
  gather_rows limit n (a ∷ rest) =
      let passed = gather_rows limit n rest in
      let counted = gather_rows limit (n + 1) rest in
      let kept = (do b ← row_of a; (total, bs) ← counted; ok (total, b ∷ bs)) in
      passes a >>= λ p. if p then (if is_over limit (n + 1) then counted else kept) else passed

  -- The rows of the peers, in the order in which their answers are joined.
  unfoldable pub gather_all : ℤ → List (List A) → Result Panic (ℕ × List B)
  unfolding gather_rows
  gather_all limit [] = ok (0, [])
  gather_all limit (rows ∷ peers) = do
    (total, result) ← gather_rows limit 0 rows
    (total', result') ← gather_all limit peers
    ok (total + total', result ++ result')
