-- ===== src/Filter/Stats/Minimum.antt =====
-- Minima over the rows of several backends or nodes, merged from partial results.
use lmd.Prelude.{
  ℕ, ◌≤◌, ltb, ◌∙◌, sym, ◌+◌, true, false, ◌||◌, List, [], ◌∷◌, ◌++◌, ok, ◌>>=◌, ◌≡◌, refl, arith,
  if◌then◌else◌, length, length-append, ap,
}
use lmd.Prelude.Int.{pos, negsuc}
use lmd.Runtime.{Go}
use lmd.Filter.{min, Condition}
use lmd.Filter.Stats.{apply_value, local_copy, apply_rows}
use lmd.Filter.Stats.Merge.{max_exact, floats, length-floats, at, of_type, merge, over_rows}

module _ (go : Go) where
  open go use {Float, float_eq, float_lt, of_int}

  -- A float64 compares integers of at most 2^53 as they are.
  pub record ComparesIntegers : Type 0 where
    pub compares :
        (n m : ℕ)
        → n ≤ max_exact
        → m ≤ max_exact
        → float_lt (of_int (pos n)) (of_int (pos m)) ≡ ltb n m
    pub distinguishes :
        (n : ℕ) → n ≤ max_exact → float_eq (of_int (pos n)) (of_int (negsuc 0)) ≡ false
    pub recognises : float_eq (of_int (negsuc 0)) (of_int (negsuc 0)) ≡ true

  abbrev pub AllExact : List ℕ → Type 0
  AllExact [] = Unit
  AllExact (n ∷ ns) = (n ≤ max_exact) × AllExact ns

  abbrev step : Float → Float → Float
  step m v = if float_lt v m || float_eq m (of_int (negsuc 0)) then v else m

  min_from : Float → List Float → Float
  min_from m [] = m
  min_from m (v ∷ vs) = min_from (step m v) vs

  abbrev least : ℕ → List ℕ → ℕ
  least m [] = m
  least m (n ∷ ns) = least (if ltb n m then n else m) ns

  least-le : (m : ℕ) (ns : List ℕ) → least m ns ≤ m
  least-le m [] = omega arith
  least-le m (n ∷ ns) = let rest = least-le (if ltb n m then n else m) ns in ground (arith, rest)

  least_assoc :
      (m n : ℕ) (ns : List ℕ)
      → least (if ltb n m then n else m) ns ≡ (if ltb (least n ns) m then least n ns else m)
  least_assoc m n [] = refl
  least_assoc m n (k ∷ ns) =
      least_assoc (if ltb n m then n else m) k ns ∙ ground (arith, least_assoc n k ns)

  least-append : (m : ℕ) (xs ys : List ℕ) → least m (xs ++ ys) ≡ least (least m xs) ys
  least-append m [] ys = refl
  least-append m (x ∷ xs) ys = least-append (if ltb x m then x else m) xs ys

  apply_value-min :
      (v m : Float) (n k : ℕ) (c : Condition go)
      → c.stats_type ≡ min
      → apply_value go v (pos k) (at go c m n) ≡ ok (at go c (step m v) (n + k))
  unfolding apply_value
  apply_value-min v m n k c h = ground arith

  apply_rows-min :
      (vs : List Float) (m : Float) (n : ℕ) (c : Condition go)
      → c.stats_type ≡ min
      → apply_rows go vs (at go c m n) ≡ ok (at go c (min_from m vs) (n + length vs))
  unfolding apply_rows min_from
  apply_rows-min [] m n c h = ap (λ k. ok (at go c m k)) (omega arith)
  apply_rows-min (v ∷ vs) m n c h =
      rw (apply_value-min v m n 1 c h, apply_rows-min vs (step m v) (n + 1) c h)
        (ap (λ k. ok (at go c (min_from (step m v) vs) k)) (omega arith))

  copy-min :
      (c : Condition go)
      → c.stats_type ≡ min
      → local_copy go c ≡ at go (of_type go min) (of_int (negsuc 0)) 0
  unfolding local_copy
  copy-min c h = ground arith

  step-first : ComparesIntegers → (v : Float) → step (of_int (negsuc 0)) v ≡ v
  step-first o v = ground (arith, o.recognises)

  step-integers :
      ComparesIntegers
      → (m n : ℕ) → m ≤ max_exact
      → n ≤ max_exact
      → step (of_int (pos m)) (of_int (pos n)) ≡ of_int (pos (if ltb n m then n else m))
  step-integers o m n hm hn = ground (arith, o.compares n m hn hm, o.distinguishes m hm)

  min_from-floats :
      ComparesIntegers
      → (m : ℕ) (ns : List ℕ) → m ≤ max_exact
      → AllExact ns
      → min_from (of_int (pos m)) (floats go ns) ≡ of_int (pos (least m ns))
  unfolding min_from
  min_from-floats o m [] hm h = refl
  min_from-floats o m (n ∷ ns) hm h =
      ap (λ t. min_from t (floats go ns)) (step-integers o m n hm h.0)
      ∙ min_from-floats o (if ltb n m then n else m) ns (ground (arith, hm, h.0)) h.1

  AllExact-append : (xs ys : List ℕ) → AllExact xs → AllExact ys → AllExact (xs ++ ys)
  AllExact-append [] ys h h' = h'
  AllExact-append (x ∷ xs) ys h h' = (h.0, AllExact-append xs ys h.1 h')

  minimum-floats :
      ComparesIntegers
      → (n : ℕ) (ns : List ℕ) → AllExact (n ∷ ns)
      → min_from (of_int (negsuc 0)) (floats go (n ∷ ns)) ≡ of_int (pos (least n ns))
  unfolding min_from
  minimum-floats o n ns h =
      ap (λ t. min_from t (floats go ns)) (step-first o (of_int (pos n)))
      ∙ min_from-floats o n ns h.0 h.1

  merged_first :
      ComparesIntegers
      → (y : ℕ) (ys : List ℕ)
      → step (of_int (negsuc 0)) (min_from (of_int (negsuc 0)) (floats go (y ∷ ys)))
        ≡ min_from (of_int (negsuc 0)) (floats go (y ∷ ys))
  merged_first o y ys = step-first o (min_from (of_int (negsuc 0)) (floats go (y ∷ ys)))

  minimum-empty : min_from (of_int (negsuc 0)) (floats go []) ≡ of_int (negsuc 0)
  unfolding min_from
  minimum-empty = refl

  -- the minimum of the rows of two backends is the lesser of their minima
  merged :
      ComparesIntegers
      → (xs : List ℕ) (y : ℕ) (ys : List ℕ) → AllExact xs
      → AllExact (y ∷ ys)
      → step
          (min_from (of_int (negsuc 0)) (floats go xs))
          (min_from (of_int (negsuc 0)) (floats go (y ∷ ys)))
        ≡ min_from (of_int (negsuc 0)) (floats go (xs ++ y ∷ ys))
  merged o [] y ys h h' = rw minimum-empty (merged_first o y ys)
  merged o (x ∷ xs) y ys h h' =
      rw
        (
          minimum-floats o x xs h,
          minimum-floats o y ys h',
          minimum-floats o x (xs ++ y ∷ ys) (h.0, AllExact-append xs (y ∷ ys) h.1 h'),
        )
        (step-integers o (least x xs) (least y ys) (omega (arith, h.0, least-le x xs))
            (omega (arith, h'.0, least-le y ys))
          ∙ ap (λ k. of_int (pos k))
              (sym (least_assoc (least x xs) y ys) ∙ sym (least-append x xs (y ∷ ys))))

  -- If the values of the rows are natural numbers of at most 2^53 and the second backend has a row,
  -- the minimum over the rows of one backend after those of another is the merge of their minima.
  pub merge-min :
      (xs : List ℕ) (y : ℕ) (ys : List ℕ) (c : Condition go)
      → ComparesIntegers
      → AllExact xs
      → AllExact (y ∷ ys)
      → c.stats_type ≡ min
      → (do
        a ← over_rows go (floats go xs) c
        b ← over_rows go (floats go (y ∷ ys)) c
        merge go a b)
        ≡ over_rows go (floats go (xs ++ y ∷ ys)) c
  merge-min xs y ys c o h h' t =
      let d = of_type go min in
      let z = of_int (negsuc 0) in
      let us = floats go xs in
      let vs = floats go (y ∷ ys) in
      rw
        (
          copy-min c t,
          apply_rows-min us z 0 d refl,
          apply_rows-min vs z 0 d refl,
          apply_rows-min (floats go (xs ++ y ∷ ys)) z 0 d refl,
          apply_value-min (min_from z vs) (min_from z us) (0 + length us) (0 + length vs) d refl,
        )
        (cc (merged o xs y ys h h', counts))
    where
      counts :
          0 + length (floats go xs) + (0 + length (floats go (y ∷ ys)))
          ≡ 0 + length (floats go (xs ++ y ∷ ys))
      counts = omega (
        arith,
        length-append xs (y ∷ ys),
        length-floats go xs,
        length-floats go (y ∷ ys),
        length-floats go (xs ++ y ∷ ys),
      )

  -- A partial minimum over no rows, merged after a minimum above -1, replaces it by -1, and the count
  -- of rows stays.
  pub merge-min_empty :
      (a c : Condition go)
      → a.stats_type ≡ min
      → c.stats_type ≡ min
      → float_lt (of_int (negsuc 0)) a.stats ≡ true
      → (do b ← over_rows go [] c; merge go a b) ≡ ok (record a { stats = of_int (negsuc 0) })
  unfolding apply_rows apply_value local_copy
  merge-min_empty a c ha hc above = ground arith
