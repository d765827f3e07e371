-- ===== src/DataTable/Entries/Indexed.antt =====
-- The rows and the index of the comments or downtimes of a peer of lmd/peer.go agree, through removals
-- and additions.
use mathlib.Core.Path.{subst}
use lmd.Prelude.{
  ℕ, suc, zero, ◌<◌, Bool, true, false, ◌&&◌, ◌||◌, not, Option, none, some, List, [], ◌∷◌, ◌++◌,
  Bytes, equal, equal_iff, length, ok, ◌==◌, if◌then◌else◌, ◌≡◌, refl, arith, sym, ap, ◌∙◌,
  >>=-eq-ok, ok-injective, Bool-cases, ◌⊎◌, inl, inr,
}
use lmd.Prelude.Dict.{Dict, lookup, insert, lookup-insert}
use lmd.Runtime.{Go}
use lmd.Runtime.Dynamic.{Value}
use lmd.Filter.Match.{sprint}
use lmd.DataTable.{at, Row, Memory, has_row, without_row, key_at}

abbrev pub RowsDistinct : List ℕ → Type 0
RowsDistinct [] = Unit
RowsDistinct (x ∷ xs) = (has_row xs x ≡ false) × RowsDistinct xs

has_row-without_row :
    (r x : ℕ) (rows : List ℕ)
    → RowsDistinct rows
    → has_row (without_row r rows) x ≡ (has_row rows x && not (r == x))
unfolding has_row without_row
has_row-without_row r x [] h = refl
has_row-without_row r x (y ∷ rows) h = ground (arith, has_row-without_row r x rows)

without_row-RowsDistinct :
    (r : ℕ) (rows : List ℕ) → RowsDistinct rows → RowsDistinct (without_row r rows)
unfolding without_row
without_row-RowsDistinct r [] h = tt
without_row-RowsDistinct r (y ∷ rows) h =
    ground (arith, without_row-RowsDistinct r rows, has_row-without_row r y rows)

has_row-snoc : (rows : List ℕ) (r x : ℕ) → has_row (rows ++ r ∷ []) x ≡ (has_row rows x || r == x)
unfolding has_row
has_row-snoc [] r x = ground arith
has_row-snoc (y ∷ rows) r x = ground (arith, has_row-snoc rows r x)

snoc-RowsDistinct :
    (rows : List ℕ) (r : ℕ)
    → RowsDistinct rows
    → has_row rows r ≡ false
    → RowsDistinct (rows ++ r ∷ [])
unfolding has_row
snoc-RowsDistinct [] r h f = (refl, tt)
snoc-RowsDistinct (y ∷ rows) r h f = ground (arith, snoc-RowsDistinct rows r, has_row-snoc rows r y)

not_removed :
    (b : Bool) (o : Option ℕ) (r : ℕ)
    → (if b then none else o) ≡ some r
    → (b ≡ false) × (o ≡ some r)
not_removed true o r eq = absurd (cc eq)
not_removed false o r eq = (refl, eq)

module _ {ℓ} {A : Type ℓ} where
  pub at-within : (xs : List A) (i : ℕ) {x : A} → at xs i ≡ ok x → i < length xs
  at-within [] i h = absurd (cc h)
  at-within (y ∷ xs) zero h = omega arith
  at-within (y ∷ xs) (suc i) h = omega (arith, at-within xs i h)

  pub at-snoc : (xs : List A) (i : ℕ) (y : A) {x : A} → at xs i ≡ ok x → at (xs ++ y ∷ []) i ≡ ok x
  at-snoc [] i y h = absurd (cc h)
  at-snoc (z ∷ xs) zero y h = h
  at-snoc (z ∷ xs) (suc i) y h = at-snoc xs i y h

  at-snoc_last : (xs : List A) (y : A) → at (xs ++ y ∷ []) (length xs) ≡ ok y
  at-snoc_last [] y = refl
  at-snoc_last (z ∷ xs) y = at-snoc_last xs y

still_keyed :
    (key x : Bytes) (r s : ℕ) (index : Dict ℕ)
    → lookup key index ≡ some r
    → lookup x index ≡ some s
    → (r == s) ≡ false
    → (if equal key x then none else lookup x index) ≡ some s
still_keyed key x r s index at_key at_x apart = elim (Bool-cases (equal key x)) [
  | inl same ↦
      let is = (equal_iff key x).0 same in
      let both = sym at_key ∙ ap (λ k. lookup k index) is ∙ at_x in absurd (ground arith)
  | inr differ ↦ rw differ at_x
]

inserted :
    (b : Bool) (n s : ℕ) (o : Option ℕ)
    → (if b then some n else o) ≡ some s
    → ((b ≡ true) × (n ≡ s)) ⊎ ((b ≡ false) × (o ≡ some s))
inserted true n s o eq = inl (refl, cc eq)
inserted false n s o eq = inr (refl, eq)

still_inserted :
    (key x : Bytes) (n s : ℕ) (index : Dict ℕ)
    → lookup key index ≡ none
    → lookup x index ≡ some s
    → (if equal key x then some n else lookup x index) ≡ some s
still_inserted key x n s index free at_x = elim (Bool-cases (equal key x)) [
  | inl same ↦
      let is = (equal_iff key x).0 same in
      let both = sym free ∙ ap (λ k. lookup k index) is ∙ at_x in absurd (cc both)
  | inr differ ↦ rw differ at_x
]

now_there : (b c : Bool) → (b || c) ≡ true → (b ≡ true) ⊎ (c ≡ true)
now_there true c h = inl refl
now_there false c h = inr h

was_there : (b c : Bool) → (b && not c) ≡ true → (b ≡ true) × (c ≡ false)
was_there b c h = ground arith

module _ (go : Go) where
  -- Each key of the index leads to a row with this key; each row is in the index under its key; no
  -- row is listed twice. `field` is the index of the key in a row.
  pub record IsIndexed (mem : Memory go) (field : ℕ) (rows : List ℕ) (index : Dict ℕ) : Type 0 where
    pub leads :
        (key : Bytes) (r : ℕ)
        → lookup key index ≡ some r
        → (key_at go mem field r ≡ ok key) × (has_row rows r ≡ true)
    pub keyed :
        (r : ℕ)
        → has_row rows r ≡ true
        → (key : Bytes) × (key_at go mem field r ≡ ok key) × (lookup key index ≡ some r)
    pub distinct : RowsDistinct rows

  key_at-within :
      (mem : Memory go) (field r : ℕ) {key : Bytes}
      → key_at go mem field r ≡ ok key
      → r < length mem
  unfolding key_at
  key_at-within mem field r h = at-within mem r (>>=-eq-ok (at mem r) _ h).1

  key_at-snoc :
      (mem : Memory go) (field r : ℕ) (row : Row go) {key : Bytes}
      → key_at go mem field r ≡ ok key
      → key_at go (mem ++ row ∷ []) field r ≡ ok key
  unfolding key_at
  key_at-snoc mem field r row h =
      let (found, at_r, rest) = >>=-eq-ok (at mem r) _ h in rw (at-snoc mem r row at_r) rest

  key_at-snoc_last :
      (mem : Memory go) (field : ℕ) (row : Row go) {v : Value go.Float}
      → at row field ≡ ok v
      → key_at go (mem ++ row ∷ []) field (length mem) ≡ ok (sprint go v)
  unfolding key_at
  key_at-snoc_last mem field row h = rw (at-snoc_last mem row, h) refl

  module _ (mem : Memory go) (field : ℕ) (rows : List ℕ) (index : Dict ℕ)
      (i : IsIndexed mem field rows index) where
    -- rows under different keys are different
    rows_apart :
        (r s : ℕ) (key x : Bytes)
        → key_at go mem field r ≡ ok key
        → key_at go mem field s ≡ ok x
        → equal key x ≡ false
        → (r == s) ≡ false
    rows_apart r s key x at_r at_s apart = elim (Bool-cases (r == s)) [
      | inl same ↦
          let is : r ≡ s = ground arith in
          let keys : key ≡ x = ok-injective (sym at_r ∙ ap (key_at go mem field) is ∙ at_s) in
          absurd (cc (apart, (equal_iff key x).1 keys))
      | inr differ ↦ differ
    ]

    pub removed-IsIndexed :
        (key : Bytes) (r : ℕ) (index' : Dict ℕ)
        → lookup key index ≡ some r
        → ((x : Bytes) → lookup x index' ≡ (if equal key x then none else lookup x index))
        → IsIndexed mem field (without_row r rows) index'
    removed-IsIndexed key r index' at_key is = record {
      leads = λ x s there.
          let (apart, before) = not_removed (equal key x) (lookup x index) s (sym (is x) ∙ there) in
          let (key_s, in_rows) = i.leads x s before in
          let others = rows_apart r s key x (i.leads key r at_key).0 key_s apart in
          (key_s, ground (arith, has_row-without_row r s rows, i.distinct));
      keyed = λ s there.
          let (held, apart) =
            was_there (has_row rows s) (r == s)
              (sym (has_row-without_row r s rows i.distinct) ∙ there) in
          let (x, key_s, under) = i.keyed s held in
          (x, key_s, is x ∙ still_keyed key x r s index at_key under apart);
      distinct = without_row-RowsDistinct r rows i.distinct;
    }

    fresh : has_row rows (length mem) ≡ false
    fresh = elim (Bool-cases (has_row rows (length mem))) [
      | inl held ↦
          let (x, key_r, under) = i.keyed (length mem) held in
          absurd (omega (arith, key_at-within mem field (length mem) key_r))
      | inr free ↦ free
    ]

    pub added-IsIndexed :
        (row : Row go) {v : Value go.Float}
        → at row field ≡ ok v
        → lookup (sprint go v) index ≡ none
        → IsIndexed
            (mem ++ row ∷ [])
            field
            (rows ++ length mem ∷ [])
            (insert (sprint go v) (length mem) index)
    added-IsIndexed row {v} at_field free = record {
      leads = λ x s there.
          elim (inserted (equal (sprint go v) x) (length mem) s (lookup x index)
            (sym (lookup-insert (sprint go v) x (length mem) index) ∙ there)) [
              | inl (same, is) ↦
                  subst
                    (λ n.
                      (key_at go (mem ++ row ∷ []) field n ≡ ok x)
                      × (has_row (rows ++ length mem ∷ []) n ≡ true))
                    is
                    (
                      key_at-snoc_last mem field row at_field
                          ∙ ap ok ((equal_iff (sprint go v) x).0 same),
                      ground (arith, has_row-snoc rows (length mem) (length mem)),
                    )
              | inr (differ, before) ↦
                  let (key_s, held) = i.leads x s before in
                  (
                    key_at-snoc mem field s row key_s,
                    ground (arith, has_row-snoc rows (length mem) s),
                  )
            ];
      keyed = λ s there.
          elim (now_there (has_row rows s) (length mem == s)
            (sym (has_row-snoc rows (length mem) s) ∙ there)) [
              | inl held ↦
                  let (x, key_s, under) = i.keyed s held in
                  (
                    x,
                    key_at-snoc mem field s row key_s,
                    lookup-insert (sprint go v) x (length mem) index
                        ∙ still_inserted (sprint go v) x (length mem) s index free under,
                  )
              | inr is ↦
                  let same : length mem ≡ s = ground arith in
                  (
                    sprint go v,
                    ap (key_at go (mem ++ row ∷ []) field) (sym same)
                        ∙ key_at-snoc_last mem field row at_field,
                    lookup-insert (sprint go v) (sprint go v) (length mem) index
                        ∙ (rw ((equal_iff (sprint go v) (sprint go v)).1 refl) (ap some same)),
                  )
            ];
      distinct = snoc-RowsDistinct rows (length mem) i.distinct fresh;
    }
