-- ===== src/Response/Columns/Places.antt =====
-- What `BuildResponseIndexes` and `ExpandRequestedBackends` of lmd/response.go establish.
use mathlib.Core.Path.{subst}
use lmd.Prelude.{
  ℕ, suc, ◌+◌, ◌<◌, ◌≡◌, refl, ap, ◌∙◌, sym, Bool, true, false, Option, none, some, List, [], ◌∷◌,
  ◌++◌, Bytes, equal, length, length-append, get_elem?, Result, ok, err, ok-injective, >>=-eq-ok,
  ◌>>=◌, if◌then◌else◌, arith, Bool-cases, inl, inr,
}
use lmd.Prelude.Int.{ℤ, pos}
use lmd.Prelude.Dict.{Dict, lookup, insert, lookup-insert}
use lmd.Runtime.{Go}
use lmd.BadRequest.{Failure}
use lmd.Objects.{Column, ObjectsType, Table}
use lmd.Objects.Virtual.{virt_key}
use lmd.Text.{to_lower}
use lmd.Request.{Request, SortField}
use lmd.Response.Columns.{
  Indexes, no_indexes, resolve, of_table, is_virt, response_column, note_column, index_columns,
  index_sort, with_columns, build_response_indexes,
}

-- one index and one column for each requested name, and places among them
pub record IsPlaced (n : ℕ) (found : Indexes) : Type 0 where
  pub indexed : length found.indexes ≡ n
  pub columned : length found.columns ≡ n
  pub placed : (name : Bytes) (i : ℕ) → lookup name found.places ≡ some i → i < n

grown-IsPlaced :
    (name : Bytes) (ix : ℤ) (c : Column) (j : ℕ) (found : Indexes)
    → IsPlaced j found
    → IsPlaced (j + 1) (record {
      indexes = found.indexes ++ ix ∷ [];
      columns = found.columns ++ c ∷ [];
      places = insert name j found.places;
    })
grown-IsPlaced name ix c j found h = record {
  indexed = omega (arith, h.indexed, length-append found.indexes (ix ∷ []));
  columned = omega (arith, h.columned, length-append found.columns (c ∷ []));
  placed = λ k i e. elim (Bool-cases (equal name k)) [
    | inl same ↦ ground (arith, lookup-insert name k j found.places)
    | inr other ↦
        let before = h.placed k i (ground (arith, lookup-insert name k j found.places)) in
        omega (arith, before)
  ];
}

if-IsPlaced :
    (b : Bool) (n : ℕ) (f g : Indexes)
    → IsPlaced n f
    → IsPlaced n g
    → IsPlaced n (if b then f else g)
if-IsPlaced true n f g hf hg = hf
if-IsPlaced false n f g hf hg = hg

note_column-IsPlaced :
    (name : Bytes) (i j : ℕ) (column : Column) (found : Indexes)
    → IsPlaced j found
    → IsPlaced (j + 1) (note_column name i j column found)
note_column-IsPlaced name i j column found h =
    if-IsPlaced (is_virt column.col_type) (j + 1) _ _
      (grown-IsPlaced name (virt_key name).index (response_column name (virt_key name).col_type j i)
        j found h)
      (grown-IsPlaced name (pos i) (response_column name column.col_type j 0) j found h)

index_columns-IsPlaced :
    (o : ObjectsType) (t : Table) (table : Bytes) (j : ℕ) (cols : List Bytes) (found : Indexes)
    {found' : Indexes}
    → IsPlaced j found
    → index_columns o t table j cols found ≡ ok found'
    → IsPlaced (j + length cols) found'
unfolding index_columns
index_columns-IsPlaced o t table j [] found {found'} h eq =
    let same : j ≡ j + 0 = omega arith in
    subst (λ n. IsPlaced n found') same (subst (IsPlaced j) (ok-injective eq) h)
index_columns-IsPlaced o t table j (col ∷ cols) found {found'} h eq =
    let (named, resolved, eq') =
      >>=-eq-ok (resolve o t table (to_lower col))
        (λ r. of_table (get_elem? t.columns r.1) >>= λ column.
          index_columns o t table (j + 1) cols (note_column r.0 r.1 j column found))
        eq in
    let (column, at, rest) =
      >>=-eq-ok (of_table (get_elem? t.columns named.1))
        (λ column.
          index_columns o t table (j + 1) cols (note_column named.0 named.1 j column found))
        eq' in
    let same : j + 1 + length cols ≡ j + suc (length cols) = omega arith in
    subst (λ n. IsPlaced n found') same
      (index_columns-IsPlaced o t table (j + 1) cols _
        (note_column-IsPlaced named.0 named.1 j column found h) rest)

-- each sort field has a place below the bound
unfoldable pub AllPlaced : ℕ → List SortField → Type 0
AllPlaced n [] = Unit
AllPlaced n (s ∷ ss) = ((i : ℕ) × (s.index ≡ pos i) × (i < n)) × AllPlaced n ss

sort_step :
    (o p : Option ℕ) (e e' : Failure) (s : SortField) (rest : Result Failure (List SortField))
    {ss' : List SortField}
    → (elim o [
      | none ↦ err e
      | some _ ↦ elim p [
        | none ↦ err e'
        | some i ↦ rest >>= λ r. ok (record s { index = pos i } ∷ r)
      ]
    ])
      ≡ ok ss'
    → (i : ℕ) × (p ≡ some i)
      × (r : List SortField) × (rest ≡ ok r)
      × (record s { index = pos i } ∷ r ≡ ss')
sort_step none p e e' s rest eq = absurd (cc eq)
sort_step (some _) none e e' s rest eq = absurd (cc eq)
sort_step (some _) (some i) e e' s (err _) eq = absurd (cc eq)
sort_step (some _) (some i) e e' s (ok r) eq = (i, refl, r, refl, ok-injective eq)

index_sort-AllPlaced :
    (t : Table) (table : Bytes) (places : Dict ℕ) (n : ℕ) (ss : List SortField)
    {ss' : List SortField}
    → ((name : Bytes) (i : ℕ) → lookup name places ≡ some i → i < n)
    → index_sort t table places ss ≡ ok ss'
    → AllPlaced n ss'
unfolding index_sort AllPlaced
index_sort-AllPlaced t table places n [] h eq = subst (AllPlaced n) (ok-injective eq) tt
index_sort-AllPlaced t table places n (s ∷ ss) h eq =
    let (i, placed, r, rest, is) =
      sort_step (lookup s.name t.columns_index) (lookup s.name places) _ _ s
        (index_sort t table places ss) eq in
    subst (AllPlaced n) is
      ((i, refl, h s.name i placed), index_sort-AllPlaced t table places n ss h rest)

no_indexes-IsPlaced : IsPlaced 0 no_indexes
unfolding lookup
no_indexes-IsPlaced = record { indexed = refl; columned = refl; placed = λ name i e. absurd (cc e) }

module _ (go : Go) where
  -- When the indexes are built, there is one index and one column for each column of the request, and
  -- each sort field has a place among them: comparing rows does not read behind the columns.
  pub build_response_indexes-places :
      (o : ObjectsType) (t : Table) (req : Request go) {req' : Request go} {found : Indexes}
      → build_response_indexes go o t req ≡ ok (req', found)
      → (length found.indexes ≡ length req'.columns)
        × (length found.columns ≡ length req'.columns)
        × AllPlaced (length found.columns) req'.sort
  unfolding build_response_indexes
  build_response_indexes-places o t req {req'} {found} eq =
      let start = with_columns go t req in
      let (read, indexed, eq') =
        >>=-eq-ok (index_columns o t req.table 0 start.columns no_indexes)
          (λ f. index_sort t req.table f.places start.sort >>= λ sort.
            ok (record start { sort = sort }, f))
          eq in
      let (sorts, sorted, last) =
        >>=-eq-ok (index_sort t req.table read.places start.sort)
          (λ sort. ok (record start { sort = sort }, read)) eq' in
      let placed =
        index_columns-IsPlaced o t req.table 0 start.columns no_indexes no_indexes-IsPlaced
          indexed in
      let same : record start { sort = sorts } ≡ req' = ap (λ r. r.0) (ok-injective last) in
      let same' : read ≡ found = ap (λ r. r.1) (ok-injective last) in
      let names : length start.columns ≡ length req'.columns = ap (λ r. length r.columns) same in
      let size : length read.columns ≡ 0 + length start.columns = placed.columned in
      let sorts_placed =
        index_sort-AllPlaced t req.table read.places (0 + length start.columns) start.sort
          placed.placed sorted in
      (
        omega (arith, placed.indexed, names, ap (λ f. length f.indexes) same'),
        omega (arith, size, names, ap (λ f. length f.columns) same'),
        subst (λ n. AllPlaced n req'.sort) (sym size ∙ ap (λ f. length f.columns) same')
            (subst (AllPlaced (0 + length start.columns)) (ap (λ r. r.sort) same) sorts_placed),
      )
