-- ===== src/Response/Columns.antt =====
-- `BuildResponseIndexes` and `ExpandRequestedBackends` of lmd/response.go, and
-- `fixBrokenClientsRequestColumn` of lmd/filter.go as it is used there.
pub mod Places
pub mod Backends
use lmd.Prelude.{
  is_nil, ℕ, zero, suc, ◌+◌, Bool, true, false, ◌&&◌, ◌||◌, not, Option, none, some, List, [], ◌∷◌,
  ◌++◌, Bytes, equal, get_elem?, Result, ok, err, ◌>>=◌, if◌then◌else◌, map,
}
use lmd.Prelude.Int.{ℤ, pos}
use lmd.Prelude.Dict.{Dict, lookup, insert}
use lmd.Runtime.{Go, Panic, index_out_of_range}
use lmd.BadRequest.{
  Failure, bad, panicked, no_such_column, no_such_sort_column, sort_column_not_in_result,
  no_such_backend,
}
use lmd.Objects.{
  Column, ColumnType, virt_col, ObjectsType, Table, UpdateType, ref_update, no_update, no_flags,
  index_of,
}
use lmd.Objects.Virtual.{virt_key}
use lmd.Text.{to_lower}
use lmd.Filter.Parse.{fix_broken_column}
use lmd.Request.{Request, SortField}

abbrev is_ref_update : UpdateType → Bool
is_ref_update ref_update = true
is_ref_update _ = false

-- the names of the columns that are no references to other tables
pub default_columns : List Column → List Bytes
default_columns [] = []
default_columns (col ∷ cols) =
    let rest = default_columns cols in if is_ref_update col.update then rest else col.name ∷ rest

abbrev pub is_virt : ColumnType → Bool
is_virt virt_col = true
is_virt _ = false

abbrev pub response_column : Bytes → ColumnType → ℕ → ℕ → Column
response_column name col_type j ref_index = record {
  name = name;
  col_type = col_type;
  index = j;
  ref_index = ref_index;
  ref_col_index = 0;
  update = no_update;
  optional = no_flags;
  description = [];
}

-- the indexes, the columns and the places of the requested columns in the rows
pub record Indexes : Type 0 where
  pub indexes : List ℤ
  pub columns : List Column
  pub places : Dict ℕ

-- the name as the table has it, and its index
unfoldable pub resolve : ObjectsType → Table → Bytes → Bytes → Result Failure (Bytes × ℕ)
unfolding lookup fix_broken_column
resolve o t table col = elim (lookup col t.columns_index) [
  | some i ↦ ok (col, i)
  | none ↦ elim (fix_broken_column o t.name col) [
    | none ↦ err (bad (no_such_column table col))
    | some fixed ↦ ok (fixed, index_of fixed t.columns_index)
  ]
]

abbrev pub note_column : Bytes → ℕ → ℕ → Column → Indexes → Indexes
note_column name i j of_table found =
    if is_virt of_table.col_type
    then record {
      indexes = found.indexes ++ (virt_key name).index ∷ [];
      columns = found.columns ++ response_column name (virt_key name).col_type j i ∷ [];
      places = insert name j found.places;
    }
    else record {
      indexes = found.indexes ++ pos i ∷ [];
      columns = found.columns ++ response_column name of_table.col_type j 0 ∷ [];
      places = insert name j found.places;
    }

abbrev pub of_table : Option Column → Result Failure Column
of_table none = err (panicked index_out_of_range)
of_table (some col) = ok col

-- the loop over the requested columns; `j` counts them
unfoldable pub index_columns :
    ObjectsType → Table → Bytes → ℕ → List Bytes → Indexes → Result Failure Indexes
unfolding resolve insert virt_key
index_columns o t table j [] found = ok found
index_columns o t table j (col ∷ cols) found = do
  (name, i) ← resolve o t table (to_lower col)
  column ← of_table (get_elem? t.columns i)
  index_columns o t table (j + 1) cols (note_column name i j column found)

-- the loop over the sort fields, which get their places
unfoldable pub index_sort :
    Table → Bytes → Dict ℕ → List SortField → Result Failure (List SortField)
unfolding lookup
index_sort t table places [] = ok []
index_sort t table places (s ∷ ss) = elim (lookup s.name t.columns_index) [
  | none ↦ err (bad (no_such_sort_column table s.name))
  | some _ ↦ elim (lookup s.name places) [
    | none ↦ err (bad (sort_column_not_in_result s.name))
    | some i ↦ do rest ← index_sort t table places ss; ok (record s { index = pos i } ∷ rest)
  ]
]

abbrev pub no_indexes : Indexes
no_indexes = record { indexes = []; columns = []; places = [] }

abbrev pub has_key {ℓ} : {V : Type ℓ} → Bytes → Dict V → Bool
has_key k m = elim (lookup k m) [ none ↦ false | some _ ↦ true ]

-- the loop over the requested backends
unfoldable pub expand_backends : Dict Bytes → List Bytes → Dict Bytes → Result Failure (Dict Bytes)
unfolding lookup insert
expand_backends store [] m = ok m
expand_backends store (b ∷ bs) m =
    let rest = expand_backends store bs (insert b b m) in
    if has_key b store then rest else err (bad (no_such_backend b))

abbrev pub itself : Bytes × Bytes → Bytes × Bytes
itself (id, _) = (id, id)

module _ (go : Go) where
  -- All columns are sent, with a header, where none is asked for.
  unfoldable pub with_columns : Table → Request go → Request go
  unfolding default_columns
  with_columns t req =
      if is_nil req.columns && is_nil req.stats
      then record req { send_columns_header = true; columns = default_columns t.columns }
      else req

  -- The request, whose columns and sort fields are set, with the indexes.
  unfoldable pub build_response_indexes :
      ObjectsType → Table → Request go → Result Failure (Request go × Indexes)
  unfolding with_columns index_columns index_sort
  build_response_indexes o t req = do
    found ← index_columns o t req.table 0 (with_columns t req).columns no_indexes
    sort ← index_sort t req.table found.places (with_columns t req).sort
    ok (record (with_columns t req) { sort = sort }, found)

  -- `DataStore` maps the ids of the peers to the peers.
  unfoldable pub expand_requested_backends : Dict Bytes → Request go → Result Failure (Request go)
  unfolding expand_backends
  expand_requested_backends store req =
      let expanded = (do
        m ← expand_backends store req.backends []
        ok (record req { backends_map = m })) in
      if is_nil req.backends then ok (record req { backends_map = map itself store }) else expanded
