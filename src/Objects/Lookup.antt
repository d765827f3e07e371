-- ===== src/Objects/Lookup.antt =====
-- Columns are found by their names: the index of a table agrees with its list of columns.
use mathlib.Core.Path.{subst}
use lmd.Prelude.{
  ℕ, zero, suc, Bool, true, false, some, List, [], ◌∷◌, ◌++◌, Bytes, equal, equal_iff, length,
  length-append, get_elem?, ok, ok-injective, arith, ◌≡◌, refl, if◌then◌else◌, Bool-cases,
  Option-cases, inl, inr,
}
use lmd.Prelude.Dict.{lookup, lookup-insert}
use lmd.Objects.{
  UpdateType, ColumnType, OptionalFlags, add_opt_column, reference_column, is_skipped, fake_column,
  ObjectsType, Table, Column, add_column_object, add_fake_columns, add_ref_column, new_table,
}

-- The counter is the number of columns, and a name in the index leads to a column of that name,
-- which knows its place.
pub record IsIndexed (t : Table) : Type 0 where
  pub counted : t.max_index ≡ length t.columns
  pub found :
      (name : Bytes) (i : ℕ)
      → lookup name t.columns_index ≡ some i
      → (col : Column) × (get_elem? t.columns i ≡ some col) × (col.name ≡ name) × (col.index ≡ i)

pub new_table-IsIndexed : (name : Bytes) → IsIndexed (new_table name)
unfolding lookup
new_table-IsIndexed name = record { counted = refl; found = λ n i h. absurd (cc h) }

get_elem?-append_last :
    {A : Type 0} (xs : List A) (x : A) → get_elem? (xs ++ x ∷ []) (length xs) ≡ some x
get_elem?-append_last [] x = refl
get_elem?-append_last (y ∷ xs) x = get_elem?-append_last xs x

get_elem?-append_left :
    {A : Type 0} (xs : List A) (x : A) (i : ℕ) (y : A)
    → get_elem? xs i ≡ some y
    → get_elem? (xs ++ x ∷ []) i ≡ some y
get_elem?-append_left [] x i y h = cc
get_elem?-append_left (z ∷ xs) x zero y h = h
get_elem?-append_left (z ∷ xs) x (suc i) y h = get_elem?-append_left xs x i y h

found_after :
    (col : Column) (t : Table)
    → IsIndexed t
    → (name : Bytes) (i : ℕ)
    → (if equal col.name name then some t.max_index else lookup name t.columns_index) ≡ some i
    → (c : Column) × (get_elem? (t.columns ++ record col { index = t.max_index } ∷ []) i ≡ some c)
      × (c.name ≡ name)
      × (c.index ≡ i)
found_after col t h name i e = elim (Bool-cases (equal col.name name)) [
  | inl same ↦ (
    record col { index = t.max_index },
    ground (arith, h.counted, get_elem?-append_last t.columns (record col { index = t.max_index })),
    (equal_iff col.name name).0 same,
    ground arith,
  )
  | inr other ↦
      let (c, at, named, placed) = h.found name i (ground arith) in
      (c, get_elem?-append_left t.columns _ i c at, named, placed)
]

pub add_column_object-IsIndexed :
    (col : Column) (t : Table) → IsIndexed t → IsIndexed (add_column_object col t)
unfolding add_column_object
add_column_object-IsIndexed col t h = record {
  counted =
      ground (arith, h.counted, length-append t.columns (record col { index = t.max_index } ∷ []));
  found = λ name i e.
      found_after col t h name i
        (rw (lookup-insert col.name name t.max_index t.columns_index) at e);
}

pub add_opt_column-IsIndexed :
    (name : Bytes) (upd : UpdateType) (typ : ColumnType) (restrict : OptionalFlags)
    (description : Bytes) (t : Table)
    → IsIndexed t
    → IsIndexed (add_opt_column name upd typ restrict description t)
unfolding add_opt_column
add_opt_column-IsIndexed name upd typ restrict description t h =
    add_column_object-IsIndexed
      (record {
        name = name;
        col_type = typ;
        index = 0;
        ref_index = 0;
        ref_col_index = 0;
        update = upd;
        optional = restrict;
        description = description;
      })
      t h

if-IsIndexed : (b : Bool) (t u : Table) → IsIndexed t → IsIndexed u → IsIndexed (if b then t else u)
if-IsIndexed true t u ht hu = ht
if-IsIndexed false t u ht hu = hu

add_fake_columns-IsIndexed :
    (ref_index : ℕ) (prefix name : Bytes) (cols : List Column) (t : Table)
    → IsIndexed t
    → IsIndexed (add_fake_columns ref_index prefix name cols t)
unfolding add_fake_columns
add_fake_columns-IsIndexed ref_index prefix name [] t h = h
add_fake_columns-IsIndexed ref_index prefix name (col ∷ cols) t h =
    add_fake_columns-IsIndexed ref_index prefix name cols _ (
      if-IsIndexed (is_skipped name col) t _ h
        (add_column_object-IsIndexed (fake_column ref_index prefix col) t h))

-- Adding a reference to another table keeps the index in step with the columns.
pub add_ref_column-IsIndexed :
    (o : ObjectsType) (ref prefix name local_name : Bytes) (t : Table) {u : Table}
    → IsIndexed t
    → add_ref_column o ref prefix name local_name t ≡ ok u
    → IsIndexed u
unfolding add_ref_column
add_ref_column-IsIndexed o ref prefix name local_name t {u} h added =
    elim (Option-cases (lookup ref o.tables)) [
      | inl missing ↦ cc (rw (missing, add_ref_column) at added)
      | inr (referenced, there) ↦
          subst IsIndexed (ok-injective (rw (there, add_ref_column) at added)) (
            add_fake_columns-IsIndexed t.max_index prefix name referenced.columns _
              (add_column_object-IsIndexed (reference_column referenced ref name local_name t) t h))
    ]
