-- ===== src/Distributed/Window.antt =====
-- The offset and the limit of a request that the nodes answer in parts.
use lmd.Prelude.{
  Result, Bytes, ℕ, suc, ◌+◌, ◌≤◌, ◌≡◌, refl, ap, ◌∙◌, sym, List, [], ◌∷◌, length, take, drop,
  drop_all, length-take, length-append, ltb, arith, map, ok, Bool-cases, inl, inr,
}
use lmd.Prelude.Int.{ℤ, pos, ◌+ℤ◌}
use lmd.Runtime.{Panic}
use lmd.Response.Window.{window, apply_limit, post_processing}
use lmd.Response.Limit.{
  take-append_prefix, take-drop, apply_limit-take, window_inside, window_outside,
}
use lmd.Distributed.{sub_limit, merge_rows}

sub_limit_lem :
    (offset limit : ℕ) → sub_limit (pos (suc limit)) (pos offset) ≡ pos (suc (offset + limit))
unfolding sub_limit ◌+ℤ◌
sub_limit_lem offset limit = ground arith

module _ {ℓ} {A : Type ℓ} where
  merge_rows-prefix :
      (n m : ℕ) (datasets : List (List A))
      → n ≤ suc m
      → take n (merge_rows (map (apply_limit (pos (suc m))) datasets))
        ≡ take n (merge_rows datasets)
  unfolding merge_rows
  merge_rows-prefix n m [] h = refl
  merge_rows-prefix n m (rows ∷ datasets) h =
      rw (apply_limit-take m rows)
        (take-append_prefix n (suc m) rows _ _ h (merge_rows-prefix n m datasets h))

  merge_rows-shorter :
      (m : ℕ) (datasets : List (List A))
      → length (merge_rows (map (apply_limit (pos (suc m))) datasets))
        ≤ length (merge_rows datasets)
  unfolding merge_rows
  merge_rows-shorter m [] = omega arith
  merge_rows-shorter m (rows ∷ datasets) =
      let rest = merge_rows (map (apply_limit (pos (suc m))) datasets) in
      rw (apply_limit-take m rows) (
        omega (
          arith,
          length-append (take (suc m) rows) rest,
          length-append rows (merge_rows datasets),
          length-take (suc m) rows,
          merge_rows-shorter m datasets,
        ))

  -- what post-processing makes of merged rows, whose total is their number
  merged_window :
      (offset limit : ℕ) (rows : List A)
      → window (pos offset) (pos (suc limit)) 0 rows
        ≡ ok (length rows, take (suc limit) (drop offset rows))
  unfolding window
  merged_window offset limit rows =
      let same : window (pos offset) (pos (suc limit)) 0 rows
          ≡ window (pos offset) (pos (suc limit)) (length rows) rows =
        ground arith in
      elim (Bool-cases (ltb (length rows) offset)) [
        | inl outside ↦
            same
            ∙ window_outside offset limit (length rows) rows (omega arith) (ground arith)
            ∙ (rw (drop_all offset rows (ground arith)) refl)
        | inr inside ↦
            same ∙ window_inside offset limit (length rows) rows (omega arith) (ground arith)
      ]

  unsorted :
      (sort_rows : List A → Result Panic (List A)) (backends : ℕ) (table : Bytes) (offset limit : ℤ)
      (total : ℕ) (rows : List A)
      → post_processing sort_rows backends table [] offset limit total rows
        ≡ window offset limit total rows
  unfolding post_processing
  unsorted sort_rows backends table offset limit total rows = ground arith

  -- For a request without sort fields, with a limit above zero, where each node answers with the
  -- first rows up to the limit of its sub-request: post-processing makes of the merged rows the rows
  -- that it would make without the nodes' limits. The total that it reports is the number of rows
  -- that the nodes sent, which is not above that of all matching rows and may be below it.
  pub distributed_window :
      (sort_rows : List A → Result Panic (List A)) (backends : ℕ) (table : Bytes) (offset limit : ℕ)
      (datasets : List (List A))
      → (rows : List A) × (post_processing sort_rows backends table []
            (pos offset)
            (pos (suc limit))
            0
            (merge_rows (map (apply_limit (sub_limit (pos (suc limit)) (pos offset))) datasets))
          ≡ ok (
            length (
                merge_rows (map (apply_limit (sub_limit (pos (suc limit)) (pos offset))) datasets)),
            rows,
          ))
        × (post_processing sort_rows backends table []
              (pos offset)
              (pos (suc limit))
              0
              (merge_rows datasets)
            ≡ ok (length (merge_rows datasets), rows))
        × (length
              (merge_rows (map (apply_limit (sub_limit (pos (suc limit)) (pos offset))) datasets))
            ≤ length (merge_rows datasets))
  distributed_window sort_rows backends table offset limit datasets =
      let cut = merge_rows (map (apply_limit (pos (suc (offset + limit)))) datasets) in
      let all = merge_rows datasets in
      let same = merge_rows-prefix (offset + suc limit) (offset + limit) datasets (omega arith) in
      let rows =
        take-drop offset (suc limit) cut
        ∙ ap (drop offset) same
        ∙ sym (take-drop offset (suc limit) all) in
      let plain = unsorted sort_rows backends table (pos offset) (pos (suc limit)) 0 in
      (
        take (suc limit) (drop offset all),
        rw (sub_limit_lem offset limit)
            (plain cut ∙ merged_window offset limit cut ∙ ap (λ xs. ok (length cut, xs)) rows),
        plain all ∙ merged_window offset limit all,
        rw (sub_limit_lem offset limit) (merge_rows-shorter (offset + limit) datasets),
      )
