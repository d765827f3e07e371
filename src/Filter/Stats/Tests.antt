-- ===== src/Filter/Stats/Tests.antt =====
-- The theorems about statistics at concrete rows.
use lmd.Prelude.{ℕ, ◌+◌, ◌≡◌, refl, List, [], ◌∷◌, ◌++◌, ok, ◌>>=◌, arith}
use lmd.Prelude.Int.{pos, negsuc, ◌+ℤ◌}
use lmd.Runtime.Sample.{sample}
use lmd.Filter.{Condition, no_condition, sum, min}
use lmd.Filter.Stats.Merge.{AddsIntegers, floats, merge, over_rows, merge-sum}
use lmd.Filter.Stats.Minimum.{ComparesIntegers, merge-min, merge-min_empty}

adds_ℤ : (n m : ℕ) → pos n +ℤ pos m ≡ pos (n + m)
unfolding ◌+ℤ◌
adds_ℤ n m = ground arith

sample-AddsIntegers : AddsIntegers sample
sample-AddsIntegers = record { adds = λ n m h. adds_ℤ n m }

sample-ComparesIntegers : ComparesIntegers sample
sample-ComparesIntegers = record {
  compares = λ n m h h'. ground arith;
  distinguishes = λ n h. ground arith;
  recognises = refl;
}

abbrev of_sum : Condition sample
of_sum = record (no_condition sample) { stats_type = sum }

abbrev of_min : Condition sample
of_min = record (no_condition sample) { stats_type = min }

abbrev few : List ℕ
few = 3 ∷ 5 ∷ []

abbrev more : List ℕ
more = 4 ∷ 2 ∷ []

merge-sum_example :
    (do
      a ← over_rows sample (floats sample few) of_sum
      b ← over_rows sample (floats sample more) of_sum
      merge sample a b)
    ≡ over_rows sample (floats sample (few ++ more)) of_sum
merge-sum_example = merge-sum sample few more of_sum sample-AddsIntegers (omega arith) tt

merge-min_example :
    (do
      a ← over_rows sample (floats sample few) of_min
      b ← over_rows sample (floats sample (4 ∷ 2 ∷ [])) of_min
      merge sample a b)
    ≡ over_rows sample (floats sample (few ++ 4 ∷ 2 ∷ [])) of_min
merge-min_example =
    merge-min sample few 4 (2 ∷ []) of_min sample-ComparesIntegers (omega arith, (omega arith, tt))
      (omega arith, (omega arith, tt)) refl

abbrev three : Condition sample
three = record of_min { stats = pos 3; stats_count = pos 1 }

merge-min_empty_example :
    (do b ← over_rows sample [] of_min; merge sample three b)
    ≡ ok (record three { stats = negsuc 0 })
merge-min_empty_example = merge-min_empty sample three of_min refl refl refl
