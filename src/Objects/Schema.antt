-- ===== src/Objects/Schema.antt =====
-- `InitObjects` of lmd/objects.go and the tables it makes. The calls on a new table are a list of
-- entries, in their order.
pub mod Backends
pub mod Status
pub mod Hosts
pub mod Services
pub mod Groups
pub mod Init
pub mod Indexed
use lmd.Prelude.{
  Bool, true, false, Option, none, some, List, [], ◌∷◌, Bytes, codes, Result, ok, err, ◌>>=◌,
  String,
}
use lmd.Runtime.{Panic}
use lmd.Objects.{
  UpdateType, ref_no_update, ColumnType, virt_col, OptionalFlags, Table, new_table, ObjectsType,
  add_column, add_opt_column, add_ref_column,
}

pub data Entry : Type 0 where
  column : String → UpdateType → ColumnType → String → Entry
  opt_column : String → UpdateType → ColumnType → OptionalFlags → String → Entry
  ref_column : String → String → String → String → Entry

pub add_entry : ObjectsType → Entry → Table → Result Panic Table
unfolding add_column add_opt_column add_ref_column
add_entry o (column name update col_type description) t =
    ok (add_column (codes name) update col_type (codes description) t)
add_entry o (opt_column name update col_type restrict description) t =
    ok (add_opt_column (codes name) update col_type restrict (codes description) t)
add_entry o (ref_column ref prefix name local_name) t =
    add_ref_column o (codes ref) (codes prefix) (codes name) (codes local_name) t

unfoldable pub add_entries : ObjectsType → List Entry → Table → Result Panic Table
unfolding add_entry
add_entries o [] t = ok t
add_entries o (e ∷ es) t = do t' ← add_entry o e t; add_entries o es t'
