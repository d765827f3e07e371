-- ===== src/Response/Limit.antt =====
-- The limit that each peer applies to its own rows does not change what a request returns.
pub mod Peers
use Prim.Native.Nat.add
use native.Mathlib.Nat.{zero-add}
use lmd.Prelude.{
  ℕ, zero, suc, ◌+◌, ◌-◌, ◌≤◌, ◌<◌, ◌≡◌, refl, ap, ◌∙◌, sym, Bool, true, false, List, [], ◌∷◌, ◌++◌,
  length, take, drop, take_all, take-nil, drop-nil, length-take, length-drop, length-append, leb,
  ltb, ◌==◌, Result, ok, err, ok-injective, arith, if◌then◌else◌, Bytes, Bool-cases, inl, inr,
  >>=-eq-ok, ◌>>=◌,
}
use lmd.Prelude.Int.{ℤ, pos, negsuc}
use lmd.Runtime.{Panic}
use lmd.Response.Window.{
  window, apply_offset, apply_limit, gather_rows, gather_all, is_over, slice_from, total_or,
  post_processing, optimize_result_limit,
}
use lmd.Request.Sort.{is_default_sort_order}

module _ {ℓ} {A : Type ℓ} where
  pub take-take : (n m : ℕ) (xs : List A) → n ≤ m → take n (take m xs) ≡ take n xs
  take-take zero m xs h = refl
  take-take (suc n) zero xs h = absurd (omega arith)
  take-take (suc n) (suc m) [] h = refl
  take-take (suc n) (suc m) (x ∷ xs) h = ap (◌∷◌ x) (take-take n m xs (omega arith))

  -- a prefix of a join needs no more than that prefix of each part
  pub take-append_prefix :
      (n m : ℕ) (xs ys ys' : List A)
      → n ≤ m
      → take n ys ≡ take n ys'
      → take n (take m xs ++ ys) ≡ take n (xs ++ ys')
  take-append_prefix zero m xs ys ys' h e = refl
  take-append_prefix (suc n) zero xs ys ys' h e = absurd (omega arith)
  take-append_prefix (suc n) (suc m) [] ys ys' h e = e
  take-append_prefix (suc n) (suc m) (x ∷ xs) ys ys' h e = ap (◌∷◌ x) (
      take-append_prefix n m xs ys ys' (omega arith) (
        sym (take-take n (suc n) ys (omega arith))
        ∙ ap (take n) e
        ∙ take-take n (suc n) ys' (omega arith)))

  pub take-drop : (o l : ℕ) (xs : List A) → take l (drop o xs) ≡ drop o (take (o + l) xs)
  take-drop zero l xs = rw zero-add
  take-drop (suc o) l [] = rw (take-nil l, take-nil (suc o + l))
  take-drop (suc o) l (x ∷ xs) = rw (add.suc o l) (take-drop o l xs)

  pub apply_limit-take : (l : ℕ) (xs : List A) → apply_limit (pos (suc l)) xs ≡ take (suc l) xs
  unfolding apply_limit
  apply_limit-take l xs = elim (Bool-cases (ltb (suc l) (length xs))) [
    | inl shorter ↦ ground arith
    | inr all ↦ ground (arith, take_all (suc l) xs (ground arith))
  ]

  total_or-total : (total : ℕ) (rows : List A) → length rows ≤ total → total_or total rows ≡ total
  total_or-total total rows h = ground arith

  pub window_inside :
      (offset l total : ℕ) (rows : List A)
      → length rows ≤ total
      → offset ≤ length rows
      → window (pos offset) (pos (suc l)) total rows ≡ ok (total, take (suc l) (drop offset rows))
  unfolding window apply_offset
  window_inside zero l total rows h inside =
      rw (total_or-total total rows h) (ap (λ xs. ok (total, xs)) (apply_limit-take l rows))
  window_inside (suc offset) l total rows h inside =
      let same = apply_limit-take l (drop (suc offset) rows) in
      ground (arith, total_or-total total rows h, same)

  pub window_outside :
      (offset l total : ℕ) (rows : List A)
      → length rows ≤ total
      → total < offset
      → window (pos offset) (pos (suc l)) total rows ≡ ok (total, [])
  unfolding window apply_offset
  window_outside offset l total rows h outside =
      ground (arith, total_or-total total rows h, apply_limit-take l [])

  -- the rows of a window are among the first `offset + limit`
  pub window-prefix :
      (offset l : ℕ) (rows all : List A)
      → length rows ≤ length all
      → take (offset + suc l) rows ≡ take (offset + suc l) all
      → window (pos offset) (pos (suc l)) (length all) rows
        ≡ window (pos offset) (pos (suc l)) (length all) all
  window-prefix offset l rows all h same = elim (Bool-cases (ltb (length all) offset)) [
    | inl outside ↦
        window_outside offset l (length all) rows h (ground arith)
        ∙ sym (window_outside offset l (length all) all (omega arith) (ground arith))
    | inr inside ↦
        let sizes = ap length same in
        let some = length-take (offset + suc l) rows in
        let some' = length-take (offset + suc l) all in
        let within : offset ≤ length all = ground arith in
        window_inside offset l (length all) rows h (omega (arith, sizes, some, some', within))
        ∙ ap (λ xs. ok (length all, xs))
            (take-drop offset (suc l) rows
              ∙ ap (drop offset) same
              ∙ sym (take-drop offset (suc l) all))
        ∙ sym (window_inside offset l (length all) all (omega arith) within)
  ]

module _ {κ} {B : Type κ} where
  unfoldable pub Limits : ℕ → Result Panic (ℕ × List B) → Result Panic (ℕ × List B) → Type κ
  Limits n full cut =
      (total : ℕ) (result : List B) → full ≡ ok (total, result) → cut ≡ ok (total, take n result)

  abbrev counting : Bool → Result Panic B → Result Panic (ℕ × List B) → Result Panic (ℕ × List B)
  counting over row counted =
      let kept = row >>= λ b. counted >>= λ r. ok (r.0, b ∷ r.1) in if over then counted else kept

  -- one row of the loop, which passes
  counting-Limits :
      (limit n : ℕ) (row : Result Panic B) (counted counted' : Result Panic (ℕ × List B))
      → Limits (suc limit - (n + 1)) counted counted'
      → Limits
          (suc limit - n)
          (counting false row counted)
          (counting (is_over (pos (suc limit)) (n + 1)) row counted')
  unfolding Limits
  counting-Limits limit n (err e) counted counted' h total result eq = absurd (cc eq)
  counting-Limits limit n (ok b) (err e) counted' h total result eq = absurd (cc eq)
  counting-Limits limit n (ok b) (ok (t, r)) counted' h total result eq =
      elim (Bool-cases (is_over (pos (suc limit)) (n + 1))) [
        | inl over ↦
            let none_left : suc limit - n ≡ 0 = ground arith in
            let none_left' : suc limit - (n + 1) ≡ 0 = ground arith in
            let limited = h t r refl in
            let same : t ≡ total = cc in rw (over, none_left) (limited ∙ (rw (none_left', same)))
        | inr under ↦
            let one_left : suc limit - n ≡ suc (suc limit - (n + 1)) = ground arith in
            let limited = h t r refl in
            let same : t ≡ total = cc in
            let rest : b ∷ r ≡ result = cc in rw (under, one_left, limited, sym rest, same)
      ]

module _ {ℓ κ} {A : Type ℓ} {B : Type κ} (passes : A → Result Panic Bool)
    (row_of : A → Result Panic B) where
  pub gather_rows-Limits :
      (limit n : ℕ) (rows : List A)
      → Limits
          (suc limit - n)
          (gather_rows passes row_of (pos 0) n rows)
          (gather_rows passes row_of (pos (suc limit)) n rows)
  unfolding gather_rows Limits
  gather_rows-Limits limit n [] total result eq =
      let same : n ≡ total = cc in
      let empty : [] ≡ result = cc in rw (sym empty, take-nil (suc limit - n), same)
  gather_rows-Limits limit n (a ∷ rows) total result eq =
      elim (passes a)
          as (λ p.
            (p >>= λ b.
            if b
            then counting false (row_of a) (gather_rows passes row_of (pos 0) (n + 1) rows)
            else gather_rows passes row_of (pos 0) n rows)
              ≡ ok (total, result)
            → (p >>= λ b.
                if b
                then counting (is_over (pos (suc limit)) (n + 1)) (row_of a)
                    (gather_rows passes row_of (pos (suc limit)) (n + 1) rows)
                else gather_rows passes row_of (pos (suc limit)) n rows)
              ≡ ok (total, take (suc limit - n) result)) [
                | err e ↦ λ h. absurd (cc h)
                | ok false ↦ gather_rows-Limits limit n rows total result
                | ok true ↦
                    counting-Limits limit n (row_of a) _ _ (gather_rows-Limits limit (n + 1) rows)
                      total result
              ]
        eq
