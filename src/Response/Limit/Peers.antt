-- ===== src/Response/Limit/Peers.antt =====
-- The limit of the peers, over all the peers of a request without sort fields.
use lmd.Prelude.{
  ℕ, suc, ◌+◌, ◌-◌, ◌≤◌, ◌≡◌, refl, ap, ◌∙◌, sym, Bool, true, false, List, [], ◌∷◌, ◌++◌, length,
  take, length-take, length-append, Result, ok, err, ok-injective, arith, if◌then◌else◌, Bytes,
  >>=-eq-ok, ◌>>=◌,
}
use lmd.Prelude.Int.{pos, ◌+ℤ◌}
use lmd.Runtime.{Panic}
use lmd.Request.Sort.{is_default_sort_order}
use lmd.Response.Window.{gather_rows, gather_all, post_processing, optimize_result_limit}
use lmd.Response.Limit.{Limits, take-append_prefix, window-prefix, gather_rows-Limits}

optimized_limit :
    (table : Bytes) (offset limit : ℕ)
    → optimize_result_limit (pos (suc limit)) (pos offset) table [] ≡ pos (suc (offset + limit))
unfolding optimize_result_limit is_default_sort_order ◌+ℤ◌
optimized_limit table offset limit = ground arith

module _ {ℓ κ} {A : Type ℓ} {B : Type κ} (passes : A → Result Panic Bool)
    (row_of : A → Result Panic B) where
  Counts : ℕ → Result Panic (ℕ × List B) → Type κ
  Counts n gathered =
      (total : ℕ) (result : List B) → gathered ≡ ok (total, result) → total ≡ n + length result

  kept-Counts :
      (n : ℕ) (row : Result Panic B) (counted : Result Panic (ℕ × List B))
      → Counts (n + 1) counted
      → Counts n (row >>= λ b. counted >>= λ r. ok (r.0, b ∷ r.1))
  unfolding Counts
  kept-Counts n (err e) counted h total result eq = absurd (cc eq)
  kept-Counts n (ok b) (err e) h total result eq = absurd (cc eq)
  kept-Counts n (ok b) (ok (t, r)) h total result eq =
      let counts = h t r refl in
      let same : t ≡ total = cc in let rest : b ∷ r ≡ result = cc in rw (sym rest) (omega arith)

  gather_rows-Counts : (n : ℕ) (rows : List A) → Counts n (gather_rows passes row_of (pos 0) n rows)
  unfolding gather_rows Counts
  gather_rows-Counts n [] total result eq =
      let same : n ≡ total = cc in let empty : [] ≡ result = cc in rw (sym empty) (omega arith)
  gather_rows-Counts n (a ∷ rows) total result eq =
      elim (passes a)
          as (λ p.
            (p >>= λ b.
            if b
            then (row_of a >>= λ b.
                gather_rows passes row_of (pos 0) (n + 1) rows >>= λ r. ok (r.0, b ∷ r.1))
            else gather_rows passes row_of (pos 0) n rows)
              ≡ ok (total, result)
            → total ≡ n + length result) [
              | err e ↦ λ h. absurd (cc h)
              | ok false ↦ gather_rows-Counts n rows total result
              | ok true ↦ kept-Counts n (row_of a) _ (gather_rows-Counts (n + 1) rows) total result
            ]
        eq

  -- What the peers return under a limit, next to what they return without.
  pub record IsCut (limit total : ℕ) (peers : List (List A)) (all cut : List B) : Type κ where
    pub cut_is : gather_all passes row_of (pos (suc limit)) peers ≡ ok (total, cut)
    pub counted : total ≡ length all
    pub shorter : length cut ≤ length all
    pub prefix : (m : ℕ) → m ≤ suc limit → take m cut ≡ take m all

  gather_all-IsCut :
      (limit : ℕ) (peers : List (List A)) (total : ℕ) (all : List B)
      → gather_all passes row_of (pos 0) peers ≡ ok (total, all)
      → (cut : List B) × IsCut limit total peers all cut
  unfolding gather_all Limits Counts
  gather_all-IsCut limit [] total all eq =
      let none : 0 ≡ total = cc in
      let empty : [] ≡ all = cc in
      (
        [],
        record {
          cut_is = rw (sym none) refl;
          counted = rw (sym none, sym empty) refl;
          shorter = rw (sym empty) (omega arith);
          prefix = λ m h. rw (sym empty) refl;
        },
      )
  gather_all-IsCut limit (rows ∷ peers) total all eq =
      let (first, gathered, eq') =
        >>=-eq-ok (gather_rows passes row_of (pos 0) 0 rows)
          (λ r. gather_all passes row_of (pos 0) peers >>= λ r'. ok (r.0 + r'.0, r.1 ++ r'.1)) eq in
      let (later, gathered', eq'') =
        >>=-eq-ok (gather_all passes row_of (pos 0) peers)
          (λ r'. ok (first.0 + r'.0, first.1 ++ r'.1)) eq' in
      let (cut, is) = gather_all-IsCut limit peers later.0 later.1 gathered' in
      let limited = gather_rows-Limits passes row_of limit 0 rows first.0 first.1 gathered in
      let totals : first.0 + later.0 ≡ total = ap (λ r. r.0) (ok-injective eq'') in
      let joined : first.1 ++ later.1 ≡ all = ap (λ r. r.1) (ok-injective eq'') in
      let counts = gather_rows-Counts 0 rows first.0 first.1 gathered in
      let whole : suc limit - 0 ≡ suc limit = omega arith in
      let kept = take (suc limit) first.1 in
      (
        kept ++ cut,
        record {
          cut_is = rw (limited, whole) (rw (is.cut_is, totals) refl);
          counted =
              omega (
                arith,
                totals,
                ap length joined,
                length-append first.1 later.1,
                counts,
                is.counted,
              );
          shorter = omega (
            arith,
            ap length joined,
            length-append first.1 later.1,
            length-append kept cut,
            length-take (suc limit) first.1,
            is.shorter,
          );
          prefix = λ m h.
              take-append_prefix m (suc limit) first.1 cut later.1 h (is.prefix m h)
              ∙ ap (take m) joined;
        },
      )

  -- For a request without sort fields, with a limit above zero: if the peers gather all their rows,
  -- then under the limit that they apply they report the same total, and post-processing makes of
  -- the fewer rows the total and the rows that it makes of all.
  pub limited-post_processing :
      (sort_rows : List B → Result Panic (List B)) (backends : ℕ) (table : Bytes)
      (offset limit total : ℕ) (peers : List (List A)) (all : List B)
      → gather_all passes row_of (pos 0) peers ≡ ok (total, all)
      → (cut : List B) × (gather_all passes row_of
            (optimize_result_limit (pos (suc limit)) (pos offset) table [])
            peers
          ≡ ok (total, cut))
        × (post_processing sort_rows backends table [] (pos offset) (pos (suc limit)) total cut
            ≡ post_processing sort_rows backends table [] (pos offset) (pos (suc limit)) total all)
  unfolding post_processing
  limited-post_processing sort_rows backends table offset limit total peers all eq =
      let (cut, is) = gather_all-IsCut (offset + limit) peers total all eq in
      let optimized = optimized_limit table offset limit in
      let same = is.prefix (offset + suc limit) (omega arith) in
      let windows = window-prefix offset limit cut all is.shorter same in
      (cut, rw optimized is.cut_is, rw (is.counted) windows)
