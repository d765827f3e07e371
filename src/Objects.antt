-- ===== src/Objects.antt =====
-- The tables and columns of lmd/objects.go.
pub mod Lookup
pub mod Virtual
pub mod Schema
use lmd.Prelude.{
  ℕ, zero, suc, ◌+◌, ◌%◌, ◌/◌, Bool, true, false, ◌&&◌, ◌||◌, not, Option, none, some, List, [],
  ◌∷◌, ◌++◌, Bytes, codes, equal, length, get_elem?, Result, ok, err, ◌>>=◌, ◌==◌, if◌then◌else◌,
  ltb, leb,
}
use lmd.Prelude.Dict.{Dict, lookup, insert}
use lmd.Runtime.{Panic, raised}

pub data UpdateType : Type 0 where
  -- the zero value
  no_update : UpdateType
  static_update dynamic_update ref_update ref_no_update virt_update : UpdateType

pub data ColumnType : Type 0 where
  -- the zero value
  no_col_type : ColumnType
  string_col string_list_col int_col int_list_col float_col ref_col time_col custom_var_col :
      ColumnType
  virt_col string_fake_sort_col : ColumnType

pub data OptionalFlags : Type 0 where
  no_flags shinken_only icinga2_only : OptionalFlags

-- the flags of a peer, one bit for each
pub record PeerFlags : Type 0 where
  pub shinken : Bool
  pub icinga2 : Bool

pub record Column : Type 0 where
  pub name : Bytes
  pub col_type : ColumnType
  pub index : ℕ
  pub ref_index : ℕ
  pub ref_col_index : ℕ
  pub update : UpdateType
  pub optional : OptionalFlags
  pub description : Bytes

pub record Table : Type 0 where
  pub name : Bytes
  pub max_index : ℕ
  pub columns_index : Dict ℕ
  pub columns : List Column
  pub static_col_cache_names : List Bytes
  pub static_col_cache_indexes : List ℕ
  pub dynamic_col_cache_names : List Bytes
  pub dynamic_col_cache_indexes : List ℕ
  pub ref_col_cache_names : List Bytes
  pub ref_col_cache_indexes : List ℕ
  pub passthrough_only : Bool
  pub is_virtual : Bool
  pub group_by : Bool

pub record ObjectsType : Type 0 where
  pub tables : Dict Table
  pub order : List Bytes

abbrev pub new_table : Bytes → Table
new_table name = record {
  name = name;
  max_index = 0;
  columns_index = [];
  columns = [];
  static_col_cache_names = [];
  static_col_cache_indexes = [];
  dynamic_col_cache_names = [];
  dynamic_col_cache_indexes = [];
  ref_col_cache_names = [];
  ref_col_cache_indexes = [];
  passthrough_only = false;
  is_virtual = false;
  group_by = false;
}

-- the switch on `col.Update`
pub note_update : UpdateType → Bytes → ℕ → Table → Table
note_update static_update name index t = record t {
  static_col_cache_names = t.static_col_cache_names ++ name ∷ [];
  static_col_cache_indexes = t.static_col_cache_indexes ++ index ∷ [];
}
note_update dynamic_update name index t = record t {
  dynamic_col_cache_names = t.dynamic_col_cache_names ++ name ∷ [];
  dynamic_col_cache_indexes = t.dynamic_col_cache_indexes ++ index ∷ [];
}
note_update ref_update name index t = record t {
  ref_col_cache_names = t.ref_col_cache_names ++ name ∷ [];
  ref_col_cache_indexes = t.ref_col_cache_indexes ++ index ∷ [];
}
note_update _ name index t = t

unfoldable pub add_column_object : Column → Table → Table
unfolding note_update
add_column_object col t =
    let noted = note_update col.update col.name t.max_index t in
    record noted {
      max_index = t.max_index + 1;
      columns_index = insert col.name t.max_index t.columns_index;
      columns = t.columns ++ record col { index = t.max_index } ∷ [];
    }

-- `AddColumn` and `AddOptColumn`; the first has no flags.
unfoldable pub add_opt_column :
    Bytes → UpdateType → ColumnType → OptionalFlags → Bytes → Table → Table
unfolding add_column_object
add_opt_column name update col_type restrict description t =
    add_column_object
      (record {
        name = name;
        col_type = col_type;
        index = 0;
        ref_index = 0;
        ref_col_index = 0;
        update = update;
        optional = restrict;
        description = description;
      })
      t

unfoldable pub add_column : Bytes → UpdateType → ColumnType → Bytes → Table → Table
unfolding add_opt_column
add_column name update col_type description =
    add_opt_column name update col_type no_flags description

abbrev is_virt : ColumnType → Bool
is_virt virt_col = true
is_virt _ = false

abbrev pub is_ref : UpdateType → Bool
is_ref ref_update = true
is_ref ref_no_update = true
is_ref _ = false

-- the prefix of the columns of the referenced table
abbrev ref_name : Bytes → Bytes → Bytes
ref_name [] name = name
ref_name (c ∷ prefix) name = (c ∷ prefix) ++ b'_' ∷ name

-- which columns of the referenced table get no fake column
abbrev pub is_skipped : Bytes → Column → Bool
is_skipped name col = equal col.name name || is_virt col.col_type || is_ref col.update

abbrev pub fake_column : ℕ → Bytes → Column → Column
fake_column ref_index prefix col = record {
  name = ref_name prefix col.name;
  col_type = col.col_type;
  index = 0;
  ref_index = ref_index;
  ref_col_index = col.index;
  update = ref_no_update;
  optional = no_flags;
  description = col.description;
}

-- the loop of `AddRefColumn` over the columns of the referenced table
pub add_fake_columns : ℕ → Bytes → Bytes → List Column → Table → Table
unfolding add_column_object
add_fake_columns ref_index prefix name [] t = t
add_fake_columns ref_index prefix name (col ∷ cols) t =
    add_fake_columns ref_index prefix name cols
      (if is_skipped name col then t else add_column_object (fake_column ref_index prefix col) t)

-- a map of ints at a missing key is 0
abbrev pub index_of : Bytes → Dict ℕ → ℕ
index_of name m = elim (lookup name m) [ none ↦ 0 | some i ↦ i ]

abbrev pub reference_column : Table → Bytes → Bytes → Bytes → Table → Column
reference_column referenced ref name local_name t = record {
  name = ref;
  col_type = ref_col;
  index = 0;
  ref_index = index_of local_name t.columns_index;
  ref_col_index = index_of name referenced.columns_index;
  update = ref_update;
  optional = no_flags;
  description = [];
}

unfoldable pub add_ref_column :
    ObjectsType → Bytes → Bytes → Bytes → Bytes → Table → Result Panic Table
unfolding add_column_object add_fake_columns
add_ref_column o ref prefix name local_name t = elim (lookup ref o.tables) [
  | none ↦ err raised
  | some referenced ↦ ok (
      add_fake_columns t.max_index prefix name referenced.columns
        (add_column_object (reference_column referenced ref name local_name t) t))
]

unfoldable pub add_table : Bytes → Table → ObjectsType → Result Panic ObjectsType
add_table name table o = elim (lookup name o.tables) [
  | some _ ↦ err raised
  | none ↦ ok (record { tables = insert name table o.tables; order = o.order ++ name ∷ [] })
]

-- `col.Optional == NoFlags || flags&col.Optional != 0`
abbrev pub has_flag : PeerFlags → OptionalFlags → Bool
has_flag flags no_flags = true
has_flag flags shinken_only = flags.shinken
has_flag flags icinga2_only = flags.icinga2

pub initial_keys : PeerFlags → List Column → List Bytes
initial_keys flags [] = []
initial_keys flags (col ∷ cols) =
    let rest = initial_keys flags cols in
    if not (is_ref col.update) && not (is_virt col.col_type) && has_flag flags col.optional
    then col.name ∷ rest
    else rest

unfoldable pub get_initial_keys : PeerFlags → Table → List Bytes
unfolding initial_keys
get_initial_keys flags t = initial_keys flags t.columns

abbrev pub is_dynamic : UpdateType → Bool
is_dynamic dynamic_update = true
is_dynamic _ = false

pub dynamic_columns : PeerFlags → List Column → List (Bytes × ℕ)
dynamic_columns flags [] = []
dynamic_columns flags (col ∷ cols) =
    let rest = dynamic_columns flags cols in
    if is_dynamic col.update && has_flag flags col.optional
    then (col.name, col.index) ∷ rest
    else rest

-- the keys, each beside its index
unfoldable pub get_dynamic_columns : PeerFlags → Table → List (Bytes × ℕ)
unfolding dynamic_columns
get_dynamic_columns flags t = dynamic_columns flags t.columns
