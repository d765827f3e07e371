-- ===== src/DataTable/Index.antt =====
-- `createIndex` of lmd/peer.go, and the table that `CreateObjectByType` sets up for the rows of the remote
-- site, without the references to the rows of other tables. The new rows are the memory.
pub mod Created
use lmd.Prelude.{
  err, ℕ, zero, suc, ◌+◌, Bool, true, false, ◌||◌, Option, none, some, List, [], ◌∷◌, ◌++◌, Bytes,
  codes, equal, length, Result, ok, ◌>>=◌, if◌then◌else◌,
}
use lmd.Prelude.Dict.{Dict, insert}
use lmd.Runtime.{Go, Panic, type_assertion}
use lmd.Objects.{Table, index_of}
use lmd.Filter.Match.{sprint}
use lmd.DataTable.{at, DataTable, Row}
use lmd.DataTable.Entries.{Entries}
use lmd.Runtime.Dynamic.{Value, str}

abbrev is_named : Bytes → Bool
is_named table =
    equal table (codes "hosts")
    || (equal table (codes "hostgroups") || equal table (codes "servicegroups"))

abbrev pub is_numbered : Bytes → Bool
is_numbered table = equal table (codes "comments") || equal table (codes "downtimes")

-- the references from one on
unfoldable pub references : ℕ → ℕ → List ℕ
references n zero = []
references n (suc count) = n ∷ references (n + 1) count

module _ (go : Go) where
  -- .(string)
  abbrev as_name : Value go.Float → Result Panic Bytes
  as_name (str s) = ok s
  as_name _ = err type_assertion

  -- the key of a row, if the table has an index
  unfoldable pub index_key : Table → Row go → Result Panic (Option Bytes)
  index_key t row =
      let named = (do
        v ← at row (index_of (codes "name") t.columns_index)
        name ← as_name v
        ok (some name)) in
      let service = (do
        v ← at row (index_of (codes "host_name") t.columns_index)
        host ← as_name v
        w ← at row (index_of (codes "description") t.columns_index)
        description ← as_name w
        ok (some (host ++ b';' ∷ description))) in
      let numbered = (do
        v ← at row (index_of (codes "id") t.columns_index)
        ok (some (sprint go v))) in
      if is_numbered t.name
      then numbered
      else if equal t.name (codes "services")
      then service
      else if is_named t.name
      then named
      else ok none

  abbrev pub note_key : Option Bytes → ℕ → Dict ℕ → Dict ℕ
  note_key none n index = index
  note_key (some key) n index = insert key n index

  -- the loop over the rows, from a reference on
  unfoldable pub create_index : Table → ℕ → List (Row go) → Dict ℕ → Result Panic (Dict ℕ)
  unfolding index_key insert
  create_index t n [] index = ok index
  create_index t n (row ∷ rows) index = do
    key ← index_key t row
    create_index t (n + 1) rows (note_key key n index)

  unfoldable pub created_entries : Table → List (Row go) → Result Panic (Entries go)
  unfolding create_index references
  created_entries t rows = do
    index ← create_index t 0 rows []
    ok (record {
      memory = rows;
      held = record { table = t; rows = references 0 (length rows); index = index };
    })
