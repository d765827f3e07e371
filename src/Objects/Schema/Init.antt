-- ===== src/Objects/Schema/Init.antt =====
-- `InitObjects` and `AddTable` of lmd/objects.go; the keys of virtual columns are in Virtual.
use lmd.Prelude.{true, List, [], ◌∷◌, codes, String, Result, ok, ◌>>=◌}
use lmd.Runtime.{Panic}
use lmd.Objects.{Table, new_table, ObjectsType, add_table}
use lmd.Objects.Schema.{Entry, add_entries}
use lmd.Objects.Schema.Backends.{backends_columns, columns_columns}
use lmd.Objects.Schema.Status.{
  status_columns, timeperiods_columns, contacts_columns, contactgroups_columns, commands_columns,
}
use lmd.Objects.Schema.Hosts.{hosts_columns}
use lmd.Objects.Schema.Services.{services_columns}
use lmd.Objects.Schema.Groups.{
  hostgroups_columns, servicegroups_columns, comments_columns, downtimes_columns, log_columns,
  hosts_by_group_columns, services_by_group_columns, services_by_hostgroup_columns,
}

-- the kinds of tables, by the flags that are set
pub data Kind : Type 0 where
  plain virtual passthrough grouping : Kind

abbrev pub flagged : Kind → Table → Table
flagged plain t = t
flagged virtual t = record t { is_virtual = true }
flagged passthrough t = record t { passthrough_only = true }
flagged grouping t = record t { group_by = true }

pub record Spec : Type 0 where
  pub name : String
  pub kind : Kind
  pub columns : List Entry

abbrev pub spec : String → Kind → List Entry → Spec
spec name kind columns = record { name = name; kind = kind; columns = columns }

abbrev pub specs : List Spec
specs =
    spec "backends" virtual backends_columns
    ∷ spec "status" plain status_columns
    ∷ spec "timeperiods" plain timeperiods_columns
    ∷ spec "contacts" plain contacts_columns
    ∷ spec "contactgroups" plain contactgroups_columns
    ∷ spec "commands" plain commands_columns
    ∷ spec "hosts" plain hosts_columns
    ∷ spec "hostgroups" plain hostgroups_columns
    ∷ spec "services" plain services_columns
    ∷ spec "servicegroups" plain servicegroups_columns
    ∷ spec "comments" plain comments_columns
    ∷ spec "downtimes" plain downtimes_columns
    ∷ spec "log" passthrough log_columns
    ∷ spec "hostsbygroup" grouping hosts_by_group_columns
    ∷ spec "servicesbygroup" grouping services_by_group_columns
    ∷ spec "servicesbyhostgroup" grouping services_by_hostgroup_columns
    ∷ spec "sites" virtual backends_columns
    ∷ spec "columns" virtual columns_columns
    ∷ spec "tables" virtual columns_columns
    ∷ []

unfoldable pub add_specs : List Spec → ObjectsType → Result Panic ObjectsType
unfolding add_entries add_table
add_specs [] o = ok o
add_specs (s ∷ rest) o = do
  t ← add_entries o s.columns (flagged s.kind (new_table (codes s.name)))
  o' ← add_table (codes s.name) t o
  add_specs rest o'

unfoldable pub init_objects : Result Panic ObjectsType
unfolding add_specs
init_objects = add_specs specs (record { tables = []; order = [] })
