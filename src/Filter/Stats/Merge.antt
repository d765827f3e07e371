-- ===== src/Filter/Stats/Merge.antt =====
-- Statistics over the rows of several backends, or of several nodes of a cluster, are merged from
-- partial results.
use lmd.Prelude.{
  ℕ, suc, ◌≤◌, ◌∙◌, ◌+◌, List, [], ◌∷◌, ◌++◌, Result, ok, ◌>>=◌, ◌≡◌, refl, arith, length,
  length-append, ap,
}
use lmd.Prelude.Int.{pos}
use lmd.Runtime.{Go, Panic}
use lmd.Filter.{StatsType, sum, average, Condition, no_condition}
use lmd.Filter.Stats.{apply_value, local_copy, apply_rows}

-- 2^53
abbrev pub max_exact : ℕ
max_exact = 9007199254740992

module _ (go : Go) where
  open go use {Float, float_eq, float_lt, float_add, float_div, of_int}

  -- A float64 adds integers of at most 2^53 without rounding, if their sum is at most that.
  pub record AddsIntegers : Type 0 where
    pub adds :
        (n m : ℕ)
        → n + m ≤ max_exact
        → float_add (of_int (pos n)) (of_int (pos m)) ≡ of_int (pos (n + m))

  add_up : Float → List Float → Float
  add_up s [] = s
  add_up s (v ∷ vs) = add_up (float_add s v) vs

  -- the values of rows, which are numbers
  abbrev pub floats : List ℕ → List Float
  floats [] = []
  floats (n ∷ ns) = of_int (pos n) ∷ floats ns

  abbrev pub total : List ℕ → ℕ
  total [] = 0
  total (n ∷ ns) = n + total ns

  total-append : (xs ys : List ℕ) → total (xs ++ ys) ≡ total xs + total ys
  total-append [] ys = omega arith
  total-append (x ∷ xs) ys = let rest = total-append xs ys in omega (arith, rest)

  pub length-floats : (ns : List ℕ) → length (floats ns) ≡ length ns
  length-floats [] = refl
  length-floats (n ∷ ns) = ap suc (length-floats ns)

  add_up-floats :
      AddsIntegers
      → (s : ℕ) (ns : List ℕ) → s + total ns ≤ max_exact
      → add_up (of_int (pos s)) (floats ns) ≡ of_int (pos (s + total ns))
  unfolding add_up
  add_up-floats e s [] h = ap (λ k. of_int (pos k)) (omega arith)
  add_up-floats e s (n ∷ ns) h =
      ap (λ t. add_up t (floats ns)) (e.adds s n (omega arith))
      ∙ add_up-floats e (s + n) ns (omega arith)
      ∙ ap (λ k. of_int (pos k)) (omega arith)

  abbrev IsSum : StatsType → Type 0
  IsSum sum = Unit
  IsSum average = Unit
  IsSum _ = ⊥

  -- the statistics `c` with this value after this many rows
  abbrev pub at : Condition go → Float → ℕ → Condition go
  at c s n = record c { stats = s; stats_count = pos n }

  apply_value-sum :
      (v s : Float) (n k : ℕ) (c : Condition go)
      → IsSum c.stats_type
      → apply_value go v (pos k) (at c s n) ≡ ok (at c (float_add s v) (n + k))
  unfolding apply_value
  apply_value-sum v s n k c h = ground arith

  apply_rows-sum :
      (vs : List Float) (s : Float) (n : ℕ) (c : Condition go)
      → IsSum c.stats_type
      → apply_rows go vs (at c s n) ≡ ok (at c (add_up s vs) (n + length vs))
  unfolding apply_rows add_up
  apply_rows-sum [] s n c h = ap (λ k. ok (at c s k)) (omega arith)
  apply_rows-sum (v ∷ vs) s n c h =
      rw (apply_value-sum v s n 1 c h, apply_rows-sum vs (float_add s v) (n + 1) c h)
        (ap (λ k. ok (at c (add_up (float_add s v) vs) k)) (omega arith))

  abbrev pub of_type : StatsType → Condition go
  of_type t = record (no_condition go) { stats_type = t }

  copy-sum :
      (c : Condition go)
      → IsSum c.stats_type
      → local_copy go c ≡ at (of_type c.stats_type) (of_int (pos 0)) 0
  unfolding local_copy
  copy-sum c h = ground arith

  -- the merge of two partial results
  abbrev pub merge : Condition go → Condition go → Result Panic (Condition go)
  merge a b = apply_value go b.stats b.stats_count a

  abbrev pub over_rows : List Float → Condition go → Result Panic (Condition go)
  over_rows vs c = apply_rows go vs (local_copy go c)

  -- If the values of the rows are natural numbers that add up to at most 2^53, sums and averages over
  -- the rows of one backend after those of another are the merge of the results over each: the sum of
  -- the values and the count of rows.
  pub merge-sum :
      (xs ys : List ℕ) (c : Condition go)
      → AddsIntegers
      → total xs + total ys ≤ max_exact
      → IsSum c.stats_type
      → (do a ← over_rows (floats xs) c; b ← over_rows (floats ys) c; merge a b)
        ≡ over_rows (floats (xs ++ ys)) c
  merge-sum xs ys c exact bound h =
      let d = of_type c.stats_type in
      let z = of_int (pos 0) in
      let whole : 0 + total (xs ++ ys) ≤ max_exact = omega (arith, total-append xs ys) in
      let us = floats xs in
      let vs = floats ys in
      rw
        (
          copy-sum c h,
          apply_rows-sum us z 0 d h,
          apply_rows-sum vs z 0 d h,
          apply_rows-sum (floats (xs ++ ys)) z 0 d h,
          apply_value-sum (add_up z vs) (add_up z us) (0 + length us) (0 + length vs) d h,
          add_up-floats exact 0 xs (omega arith),
          add_up-floats exact 0 ys (omega arith),
          add_up-floats exact 0 (xs ++ ys) whole,
        )
        (cc (exact.adds (0 + total xs) (0 + total ys) (omega arith), sums, counts))
    where
      sums : 0 + total xs + (0 + total ys) ≡ 0 + total (xs ++ ys)
      sums = omega (arith, total-append xs ys)

      counts : 0 + length (floats xs) + (0 + length (floats ys)) ≡ 0 + length (floats (xs ++ ys))
      counts =
          omega (
            arith,
            length-append xs ys,
            length-floats xs,
            length-floats ys,
            length-floats (xs ++ ys),
          )
