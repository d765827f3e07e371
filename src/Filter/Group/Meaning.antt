-- ===== src/Filter/Group/Meaning.antt =====
-- What groups of filters mean, and what the headers And and Or do to the meaning of a request.
use lmd.Prelude.{
  ℕ, zero, suc, ◌-◌, ◌≤◌, ◌<◌, Bool, true, false, ◌&&◌, ◌||◌, List, [], ◌∷◌, ◌++◌, Bytes, Result,
  ok, ◌>>=◌, Option, none, some, length-drop, ◌≡◌, refl, ap, take, drop, length, arith,
  take-append-drop, if◌then◌else◌, codes, equal,
}
use lmd.Prelude.Int.{ℤ, pos, negsuc}
use lmd.Runtime.{Go, Panic}
use lmd.Runtime.Dynamic.{Value}
use lmd.Filter.{
  Condition, no_condition, Filter, filter, Filters, nil, cons, filters, GroupOperator, no_group,
  and, or,
}
use lmd.Filter.Match.{match_filter}
use lmd.Filter.Group.{match_row_filter, match_group, matches_all, is_and}
use lmd.Text.Decimal.{atoi}
use lmd.Filter.Parse.{parse_filter_op, combine_number, group_of}

and_then :
    {m n : Result Panic Bool} {b c : Bool}
    → m ≡ ok b
    → n ≡ ok c
    → (m >>= λ x. if x then n else ok false) ≡ ok (b && c)
and_then p q = ground arith

or_else :
    {m n : Result Panic Bool} {b c : Bool}
    → m ≡ ok b
    → n ≡ ok c
    → (m >>= λ x. if x then ok true else n) ≡ ok (b || c)
or_else p q = ground arith

passed_over : {m n : Result Panic Bool} {b c : Bool} → m ≡ ok b → n ≡ ok c → (m >>= λ x. n) ≡ ok c
passed_over p q = ground arith

module _ (go : Go) where
  -- The meaning of a filter where `test` says which conditions hold: And is the conjunction of the
  -- members, Or the disjunction.
  mutual
    pub holds : (Condition go → Bool) → Filter go → Bool
    holds test (filter c nil op) = test c
    holds test (filter c (cons f fs) op) = holds_group test op (cons f fs)

    pub holds_group : (Condition go → Bool) → GroupOperator → Filters go → Bool
    holds_group test op nil = is_and op
    holds_group test and (cons f fs) = holds test f && holds_group test and fs
    holds_group test or (cons f fs) = holds test f || holds_group test or fs
    holds_group test no_group (cons f fs) = holds_group test no_group fs

  pub holds_all : (Condition go → Bool) → List (Filter go) → Bool
  holds_all test [] = true
  holds_all test (f ∷ fs) = holds test f && holds_all test fs

  pub holds_any : (Condition go → Bool) → List (Filter go) → Bool
  holds_any test [] = false
  holds_any test (f ∷ fs) = holds test f || holds_any test fs

  module _ (value_at : ℕ → Result Panic (Value go.Float)) (test : Condition go → Bool) where
    -- Every condition below a filter can be tested against the row, and `test` is what comes out.
    abbrev mutual
      pub IsTested : Filter go → Type 0
      IsTested (filter c nil op) = (value_at c.column.index >>= match_filter go c) ≡ ok (test c)
      IsTested (filter c (cons f fs) op) = IsTested f × AreTested fs

      pub AreTested : Filters go → Type 0
      AreTested nil = Unit
      AreTested (cons f fs) = IsTested f × AreTested fs

    abbrev pub AllTested : List (Filter go) → Type 0
    AllTested [] = Unit
    AllTested (f ∷ fs) = IsTested f × AllTested fs

    mutual
      unfolding match_row_filter holds

      match_row-holds :
          (f : Filter go) → IsTested f → match_row_filter go value_at f ≡ ok (holds test f)
      match_row-holds (filter c nil op) h = h
      match_row-holds (filter c (cons f fs) op) h = match_group-holds op (cons f fs) h

      match_group-holds :
          (op : GroupOperator) (fs : Filters go)
          → AreTested fs
          → match_group go value_at op fs ≡ ok (holds_group test op fs)
      match_group-holds op nil h = refl
      match_group-holds and (cons f fs) h =
          and_then (match_row-holds f h.0) (match_group-holds and fs h.1)
      match_group-holds or (cons f fs) h =
          or_else (match_row-holds f h.0) (match_group-holds or fs h.1)
      match_group-holds no_group (cons f fs) h =
          passed_over (match_row-holds f h.0) (match_group-holds no_group fs h.1)

    -- If every condition can be tested, a row passes the filters of a request exactly if they all
    -- hold: leaving a loop early changes no result.
    pub matches_all-holds :
        (fs : List (Filter go)) → AllTested fs → matches_all go value_at fs ≡ ok (holds_all test fs)
    unfolding matches_all holds_all
    matches_all-holds [] h = refl
    matches_all-holds (f ∷ fs) h = and_then (match_row-holds f h.0) (matches_all-holds fs h.1)

  grouped : GroupOperator → ℕ → List (Filter go) → List (Filter go)
  grouped op num stack =
      take (length stack - num) stack
      ++ filter (no_condition go) (filters go (drop (length stack - num) stack)) op ∷ []

  combine_number-grouped :
      (header line : Bytes) (stack : List (Filter go)) (number : Option ℤ)
      {stack' : List (Filter go)}
      → combine_number go header line stack number ≡ ok stack'
      → (num : ℕ) × (number ≡ some (pos num))
        × (0 < num)
        × (num ≤ length stack)
        × (stack' ≡ grouped (group_of go header) num stack)
  unfolding combine_number grouped
  combine_number-grouped header line stack (some (pos (suc n))) h =
      (suc n, refl, omega arith, ground arith, ground arith)
  combine_number-grouped header line stack none h = cc
  combine_number-grouped header line stack (some (pos zero)) h = cc
  combine_number-grouped header line stack (some (negsuc n)) h = cc

  module _ (test : Condition go → Bool) where
    holds_all-append :
        (xs ys : List (Filter go))
        → holds_all test (xs ++ ys) ≡ (holds_all test xs && holds_all test ys)
    unfolding holds_all
    holds_all-append [] ys = refl
    holds_all-append (x ∷ xs) ys = ground (arith, holds_all-append xs ys)

    holds_group-and :
        (fs : List (Filter go)) → holds_group test and (filters go fs) ≡ holds_all test fs
    unfolding holds_all holds filters
    holds_group-and [] = refl
    holds_group-and (f ∷ fs) = ap (λ b. holds test f && b) (holds_group-and fs)

    holds_group-or :
        (fs : List (Filter go)) → holds_group test or (filters go fs) ≡ holds_any test fs
    unfolding holds_any holds filters
    holds_group-or [] = refl
    holds_group-or (f ∷ fs) = ap (λ b. holds test f || b) (holds_group-or fs)

    -- the group over a list that is not empty
    holds-group :
        (op : GroupOperator) (c : Condition go) (fs : List (Filter go))
        → 0 < length fs
        → holds test (filter c (filters go fs) op) ≡ holds_group test op (filters go fs)
    unfolding holds filters
    holds-group op c [] h = absurd (omega arith)
    holds-group op c (f ∷ fs) h = refl

    holds_all-grouped :
        (op : GroupOperator) (num : ℕ) (stack : List (Filter go))
        → 0 < num
        → num ≤ length stack
        → holds_all test (grouped op num stack) ≡ (
            holds_all test (take (length stack - num) stack)
            && holds_group test op (filters go (drop (length stack - num) stack)))
    unfolding grouped holds_all
    holds_all-grouped op num stack positive fits =
        let front = take (length stack - num) stack in
        let back = drop (length stack - num) stack in
        let long : 0 < length back = omega (arith, length-drop (length stack - num) stack) in
        ground (
          arith,
          holds_all-append front (filter (no_condition go) (filters go back) op ∷ []),
          holds-group op (no_condition go) back long,
        )

    -- If the header And is accepted, it changes nothing of what the filters of a request mean
    -- together.
    pub parse_filter_op-and :
        (value line : Bytes) (stack : List (Filter go)) {stack' : List (Filter go)}
        → parse_filter_op go (codes "and") value line stack ≡ ok stack'
        → holds_all test stack' ≡ holds_all test stack
    unfolding parse_filter_op
    parse_filter_op-and value line stack {stack'} h =
        let (num, read, positive, fits, is) =
          combine_number-grouped (codes "and") line stack (atoi value) h in
        let is' : stack' ≡ grouped and num stack = unfold equal in is in
        let front = take (length stack - num) stack in
        let back = drop (length stack - num) stack in
        cc (
          ap (holds_all test) is',
          holds_all-grouped and num stack positive fits,
          holds_group-and back,
          holds_all-append front back,
          ap (holds_all test) (take-append-drop (length stack - num) stack),
        )

    -- If the header Or is accepted, its value is a positive number of filters that are on the stack.
    -- The filters below those have to hold as before, and of those one at least.
    pub parse_filter_op-or :
        (value line : Bytes) (stack : List (Filter go)) {stack' : List (Filter go)}
        → parse_filter_op go (codes "or") value line stack ≡ ok stack'
        → (num : ℕ) × (atoi value ≡ some (pos num))
          × (0 < num)
          × (num ≤ length stack)
          × (holds_all test stack' ≡ (
              holds_all test (take (length stack - num) stack)
              && holds_any test (drop (length stack - num) stack)))
    unfolding parse_filter_op
    parse_filter_op-or value line stack {stack'} h =
        let (num, read, positive, fits, is) =
          combine_number-grouped (codes "or") line stack (atoi value) h in
        let is' : stack' ≡ grouped or num stack = unfold equal in is in
        let back = drop (length stack - num) stack in
        (
          num,
          read,
          positive,
          fits,
          cc (
            ap (holds_all test) is',
            holds_all-grouped or num stack positive fits,
            holds_group-or back,
          ),
        )
