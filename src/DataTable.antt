-- ===== src/DataTable.antt =====
-- The tables in which a peer of lmd/peer.go keeps its rows. `Data` and `Index` share the rows: a row is
-- a slice, so they hold references, which are positions in the memory of the peer.
pub mod Index
pub mod Entries
pub mod Dynamic
mod Tests
use lmd.Prelude.{
  ℕ, suc, ◌+◌, Bool, true, false, Option, none, some, List, [], ◌∷◌, ◌++◌, Bytes, codes, equal,
  length, get_elem?, set, Result, ok, err, ◌>>=◌, ◌==◌, if◌then◌else◌,
}
use lmd.Prelude.Dict.{Dict, lookup, insert, delete}
use lmd.Runtime.{Go, Panic, raised, index_out_of_range, type_assertion}
use lmd.Runtime.Dynamic.{Value, str}
use lmd.Objects.{Table, index_of}
use lmd.Filter.Match.{sprint}

abbrev pub or_fault {ℓ} : {A : Type ℓ} → Option A → Result Panic A
or_fault none = err index_out_of_range
or_fault (some v) = ok v

-- the element at an index
abbrev pub at {ℓ} : {A : Type ℓ} → List A → ℕ → Result Panic A
at xs i = or_fault (get_elem? xs i)

-- `DataTable`, without the references to the rows of other tables
pub record DataTable : Type 0 where
  pub table : Table
  pub rows : List ℕ
  pub index : Dict ℕ

unfoldable pub has_row : List ℕ → ℕ → Bool
has_row [] r = false
has_row (x ∷ xs) r = let rest = has_row xs r in if x == r then true else rest

-- d.Data without the first reference to this row
unfoldable pub without_row : ℕ → List ℕ → List ℕ
without_row r [] = []
without_row r (x ∷ xs) = let rest = without_row r xs in if x == r then xs else x ∷ rest

-- `table.GetColumn("id").Index`
unfoldable pub id_column : Table → Result Panic ℕ
id_column t = do col ← at t.columns (index_of (codes "id") t.columns_index); ok col.index

-- `AddItem`; the row is the next one in the memory
unfoldable pub add_item : ℕ → DataTable → DataTable
add_item row d = record d { rows = d.rows ++ row ∷ [] }

module _ (go : Go) where
  open go use {Float}

  abbrev pub Row : Type 0
  Row = List (Value Float)

  abbrev pub Memory : Type 0
  Memory = List Row

  -- `fmt.Sprintf("%v", row[i])` of the row at a reference
  unfoldable pub key_at : Memory → ℕ → ℕ → Result Panic Bytes
  key_at mem i row = do r ← at mem row; v ← at r i; ok (sprint go v)

  unfoldable pub remove_item : Memory → ℕ → DataTable → Result Panic DataTable
  unfolding has_row without_row key_at id_column delete
  remove_item mem row d =
      let removed = (do
        i ← id_column d.table
        key ← key_at mem i row
        ok (record d { rows = without_row row d.rows; index = delete key d.index })) in
      if has_row d.rows row then removed else err raised
