-- ===== src/Response/Order/Ties.antt =====
-- How `Less` of lmd/response.go orders rows by columns of strings.
use lmd.Prelude.{
  ◌≡◌, refl, ◌∙◌, Bool, true, false, not, ◌&&◌, List, [], ◌∷◌, Bytes, equal, equal_iff, bytes_less,
  Result, ok, arith, Bool-cases, inl, inr,
}
use lmd.Runtime.{Go, Panic}
use lmd.Runtime.Dynamic.{str}
use lmd.Objects.{Column, string_col}
use lmd.Request.{SortField, SortDirection, asc, desc}
use lmd.Response.{value, Row, at}
use lmd.Response.Order.{sort_type, compare_texts, conclude, less, compare_by}

bytes_less-total : (s t : Bytes) → equal s t ≡ false → bytes_less s t ≡ not (bytes_less t s)
unfolding equal bytes_less
bytes_less-total [] [] h = absurd (cc h)
bytes_less-total [] (y ∷ t) h = refl
bytes_less-total (x ∷ s) [] h = refl
bytes_less-total (x ∷ s) (y ∷ t) h = ground (arith, bytes_less-total s t)

module _ (go : Go) (columns : List Column) (a b : Row go.Float) where
  -- each sort field is a column of strings with a string in both rows
  unfoldable pub AreTexts : List SortField → Type 0
  AreTexts [] = Unit
  AreTexts (s ∷ ss) =
      (x : Bytes) × (y : Bytes) × (sort_type go columns s ≡ ok string_col)
      × (at a s.index ≡ ok (value (str x)))
      × (at b s.index ≡ ok (value (str y)))
      × AreTexts ss

  unfoldable pub tied : (ss : List SortField) → AreTexts ss → Bool
  unfolding AreTexts
  tied [] h = true
  tied (s ∷ ss) h = let rest = tied ss h.5 in equal h.0 h.1 && rest

-- the two comparisons of a pair of rows
Compared : Bool → Result Panic Bool → Result Panic Bool → Type 0
Compared tie there back =
    (x : Bool) × (y : Bool) × (there ≡ ok x)
    × (back ≡ ok y)
    × (tie ≡ true → (x ≡ true) × (y ≡ true))
    × (tie ≡ false → x ≡ not y)

equal-sym : (s t : Bytes) → equal t s ≡ equal s t
equal-sym s t = ground (arith, equal_iff s t, equal_iff t s)

-- one field, and the comparison by the fields behind it
compare_texts-Compared :
    (go : Go) (d : SortDirection) (x y : Bytes) (tie : Bool) (there back : Result Panic Bool)
    → Compared tie there back
    → Compared
        (equal x y && tie)
        (conclude go there (compare_texts go d x y))
        (conclude go back (compare_texts go d y x))
unfolding Compared
compare_texts-Compared go asc x y tie there back h = elim (Bool-cases (equal x y)) [
  | inl same ↦ rw (same, equal-sym x y, same) h
  | inr differ ↦
      rw (differ, equal-sym x y, differ)
        (
          bytes_less x y,
          bytes_less y x,
          refl,
          refl,
          (λ e. absurd (cc e)),
          (λ e. bytes_less-total x y differ),
        )
]
compare_texts-Compared go desc x y tie there back h = elim (Bool-cases (equal x y)) [
  | inl same ↦ rw (same, equal-sym x y, same) h
  | inr differ ↦
      rw (differ, equal-sym x y, differ)
        (
          bytes_less y x,
          bytes_less x y,
          refl,
          refl,
          (λ e. absurd (cc e)),
          (λ e. bytes_less-total y x (equal-sym x y ∙ differ)),
        )
]

module _ (go : Go) (columns : List Column) where
  less-texts :
      (s : SortField) (ss : List SortField) (a b : Row go.Float) (x y : Bytes)
      → sort_type go columns s ≡ ok string_col
      → at a s.index ≡ ok (value (str x))
      → at b s.index ≡ ok (value (str y))
      → less go columns (s ∷ ss) a b
        ≡ conclude go (less go columns ss a b) (compare_texts go s.direction x y)
  unfolding less compare_by
  less-texts s ss a b x y typed first second = rw (typed, first, second) refl

  -- If the rows have strings in all columns of the sort fields, they can be compared both ways. Rows
  -- that differ in one of them are less one way only, but rows that differ in none are less than each
  -- other, both ways.
  pub less-ties :
      (ss : List SortField) (a b : Row go.Float) (h : AreTexts go columns a b ss)
      → (x : Bool) × (y : Bool) × (less go columns ss a b ≡ ok x)
        × (less go columns ss b a ≡ ok y)
        × (tied go columns a b ss h ≡ true → (x ≡ true) × (y ≡ true))
        × (tied go columns a b ss h ≡ false → x ≡ not y)
  unfolding less tied AreTexts Compared
  less-ties [] a b h = (true, true, refl, refl, (λ e. (refl, refl)), (λ e. absurd (cc e)))
  less-ties (s ∷ ss) a b (x, y, typed, first, second, rest) =
      rw (less-texts s ss a b x y typed first second, less-texts s ss b a y x typed second first)
        (compare_texts-Compared go s.direction x y (tied go columns a b ss rest) _ _
          (less-ties ss a b rest))
