-- ===== src/DataTable/Tests.antt =====
-- Updates of small tables: a comment is removed and one is added, and two hosts change their states.
use mathlib.Core.Path.{subst}
use lmd.Prelude.{
  ℕ, zero, suc, Bool, true, false, none, some, List, [], ◌∷◌, Bytes, codes, equal, Result, ok, ◌≡◌,
  refl, arith, sym, ap, ◌∙◌, ◌⊎◌, inl, inr, equal_iff, if◌then◌else◌,
}
use lmd.Prelude.Int.{pos}
use lmd.Prelude.Dict.{lookup, insert}
use lmd.Runtime.Dynamic.{float, str}
use lmd.Text.Decimal.{format_int}
use lmd.Runtime.Sample.{sample}
use lmd.Objects.{
  Table, PeerFlags, new_table, add_column, static_update, dynamic_update, string_col, int_col,
  index_of, get_dynamic_columns,
}
use lmd.Request.{Request}
use lmd.DataTable.{key_at, DataTable, Row, Memory, id_column, has_row}
use lmd.DataTable.Entries.{
  Entries, listed, missing_ids, update_delta_comments_or_downtimes, read_keys, count_request,
  ids_request, rows_request, is_unchanged,
}
use lmd.DataTable.Entries.Indexed.{RowsDistinct}
use lmd.DataTable.Entries.Mirror.{has_entry, TableIndexed, Supplies, update_delta-mirrors}
use lmd.DataTable.Index.{created_entries}
use lmd.DataTable.Index.Created.{created_entries-indexed}
use lmd.DataTable.Dynamic.{update_object_by_type, indexes_of}
use lmd.DataTable.Dynamic.Written.{
  Ended, IsUpdated, Fit, Fill, Synchronised, SameBut, update_object_by_type-synchronises,
}

abbrev no_flags : PeerFlags
no_flags = record { shinken = false; icinga2 = false }

comments : Table
unfolding add_column
comments =
    add_column (codes "id") static_update int_col []
      (add_column (codes "author") static_update string_col [] (new_table (codes "comments")))

abbrev comment : ℕ → Row sample
comment id = str (codes "me") ∷ float (pos id) ∷ []

abbrev entries : Entries sample
entries = record {
  memory = comment 3 ∷ comment 5 ∷ [];
  held = record {
    table = comments;
    rows = 0 ∷ 1 ∷ [];
    index = (codes "3", 0) ∷ (codes "5", 1) ∷ [];
  };
}

-- the remote site has removed the comment 3 and added the comment 7
abbrev site : Request sample → Result Bytes (List (Row sample))
site req =
    if equal req.filter_str (codes "Stats: id != -1\nStats: max id\n")
    then ok ((float (pos 2) ∷ float (pos 7) ∷ []) ∷ [])
    else if equal req.filter_str []
    then ok ((float (pos 5) ∷ []) ∷ (float (pos 7) ∷ []) ∷ [])
    else ok (comment 7 ∷ [])

abbrev remote : List Bytes
remote = codes "5" ∷ codes "7" ∷ []

updated :
    update_delta_comments_or_downtimes sample site comments no_flags entries
    ≡ ok (
      (record {
        memory = comment 3 ∷ comment 5 ∷ comment 7 ∷ [];
        held = record {
          table = comments;
          rows = 1 ∷ 2 ∷ [];
          index = (codes "5", 1) ∷ (codes "7", 2) ∷ [];
        };
      }),
      none,
    )
unfolding update_delta_comments_or_downtimes comments equal format_int
updated = refl

key_0 : key_at sample entries.memory 1 0 ≡ ok (codes "3")
unfolding key_at format_int
key_0 = refl

key_1 : key_at sample entries.memory 1 1 ≡ ok (codes "5")
unfolding key_at format_int
key_1 = refl

two_keys :
    (b c : Bool) (r : ℕ)
    → (if b then some 0 else if c then some 1 else none) ≡ some r
    → ((b ≡ true) × (◌≡◌ {A = ℕ} 0 r)) ⊎ ((c ≡ true) × (◌≡◌ {A = ℕ} 1 r))
two_keys true c r h = inl (refl, cc h)
two_keys false true r h = inr (refl, cc h)
two_keys false false r h = absurd (cc h)

two_rows : (r : ℕ) → has_row (0 ∷ 1 ∷ []) r ≡ true → (◌≡◌ {A = ℕ} 0 r) ⊎ (◌≡◌ {A = ℕ} 1 r)
unfolding has_row
two_rows zero h = inl refl
two_rows (suc zero) h = inr refl
two_rows (suc (suc r)) h = absurd (ground arith)

entries-IsIndexed : TableIndexed sample 1 entries.memory entries.held
unfolding lookup has_row equal
entries-IsIndexed = record {
  leads = λ key r h. elim (two_keys (equal (codes "3") key) (equal (codes "5") key) r h) [
    | inl (same, is) ↦
        subst (λ n. (key_at sample entries.memory 1 n ≡ ok key) × (has_row (0 ∷ 1 ∷ []) n ≡ true))
          is (key_0 ∙ ap ok ((equal_iff (codes "3") key).0 same), refl)
    | inr (same, is) ↦
        subst (λ n. (key_at sample entries.memory 1 n ≡ ok key) × (has_row (0 ∷ 1 ∷ []) n ≡ true))
          is (key_1 ∙ ap ok ((equal_iff (codes "5") key).0 same), refl)
  ];
  keyed = λ r h. elim (two_rows r h) [
    | inl is ↦ (codes "3", ap (key_at sample entries.memory 1) (sym is) ∙ key_0, ap some is)
    | inr is ↦ (codes "5", ap (key_at sample entries.memory 1) (sym is) ∙ key_1, ap some is)
  ];
  distinct = (refl, (refl, tt));
}

comments_id : index_of (codes "id") comments.columns_index ≡ 1
unfolding comments lookup equal insert
comments_id = refl

comments_column : id_column comments ≡ ok 1
unfolding comments id_column lookup equal insert
comments_column = refl

counted : site (count_request sample comments) ≡ ok ((float (pos 2) ∷ float (pos 7) ∷ []) ∷ [])
unfolding count_request equal
counted = refl

has_changed :
    is_unchanged sample entries.memory entries.held.rows 1
      ((float (pos 2) ∷ float (pos 7) ∷ []) ∷ [])
    ≡ ok false
unfolding is_unchanged
has_changed = refl

asked : site (ids_request sample comments) ≡ ok ((float (pos 5) ∷ []) ∷ (float (pos 7) ∷ []) ∷ [])
unfolding ids_request equal
asked = refl

read_remote : read_keys sample 0 ((float (pos 5) ∷ []) ∷ (float (pos 7) ∷ []) ∷ []) ≡ ok remote
unfolding read_keys format_int
read_remote = refl

supplied : Supplies sample 1 site comments no_flags (missing_ids entries.held.index remote)
unfolding missing_ids lookup equal rows_request read_keys listed comments format_int
supplied = (comment 7 ∷ [], codes "7" ∷ [], refl, refl, (refl, tt), λ x. refl)

update_delta-mirrors_example :
    (e' : Entries sample) × (update_delta_comments_or_downtimes sample site comments no_flags
        entries
      ≡ ok (e', none))
    × TableIndexed sample 1 e'.memory e'.held
    × ((x : Bytes) → has_entry x e'.held.index ≡ listed remote x)
update_delta-mirrors_example =
    update_delta-mirrors sample 1 site comments no_flags entries
      ((float (pos 2) ∷ float (pos 7) ∷ []) ∷ []) ((float (pos 5) ∷ []) ∷ (float (pos 7) ∷ []) ∷ [])
      remote comments_id comments_column entries-IsIndexed counted has_changed asked read_remote
      supplied

hosts : Table
unfolding add_column
hosts = add_column (codes "plugin_output") dynamic_update string_col [] (
    add_column (codes "state") dynamic_update int_col []
      (add_column (codes "name") static_update string_col [] (new_table (codes "hosts"))))

abbrev host : Bytes → ℕ → Bytes → Row sample
host name state output = str name ∷ float (pos state) ∷ str output ∷ []

abbrev two_hosts : DataTable
two_hosts = record {
  table = hosts;
  rows = 0 ∷ 1 ∷ [];
  index = (codes "a", 0) ∷ (codes "b", 1) ∷ [];
}

abbrev host_memory : Memory sample
host_memory = host (codes "a") 0 (codes "fine") ∷ host (codes "b") 0 (codes "fine") ∷ []

abbrev states : List (Row sample)
states = (float (pos 1) ∷ str (codes "lost") ∷ []) ∷ (float (pos 0) ∷ str (codes "good") ∷ []) ∷ []

abbrev indexes : List ℕ
indexes = indexes_of (get_dynamic_columns no_flags hosts)

hosts-IsUpdated : IsUpdated two_hosts
unfolding hosts
hosts-IsUpdated = (refl, refl, refl)

indexes-distinct : RowsDistinct indexes
unfolding hosts get_dynamic_columns has_row
indexes-distinct = (refl, (refl, tt))

rows-distinct : RowsDistinct two_hosts.rows
unfolding has_row
rows-distinct = (refl, (refl, tt))

hosts-Fit : Fit sample indexes host_memory two_hosts.rows
unfolding hosts get_dynamic_columns
hosts-Fit = (
  (host (codes "a") 0 (codes "fine"), refl, omega arith),
  ((host (codes "b") 0 (codes "fine"), refl, omega arith), tt),
)

states-Fill : Fill sample indexes states two_hosts.rows
unfolding hosts get_dynamic_columns
states-Fill = omega arith

update_object_by_type-synchronises_example :
    (mem' : Memory sample) × Synchronised sample indexes states two_hosts.rows host_memory mem'
    × SameBut two_hosts.rows host_memory mem'
    × Ended sample (float (pos 1)) two_hosts mem' (
        update_object_by_type sample
          (λ req. ok states)
          no_flags
          (float (pos 1))
          two_hosts
          host_memory)
unfolding hosts equal
update_object_by_type-synchronises_example =
    update_object_by_type-synchronises sample (λ req. ok states) no_flags (float (pos 1)) two_hosts
      host_memory states refl hosts-IsUpdated refl indexes-distinct rows-distinct hosts-Fit
      states-Fill

-- a table that is created with the comments 3 and 5
ids_read :
    read_keys sample (index_of (codes "id") comments.columns_index) (comment 3 ∷ comment 5 ∷ [])
    ≡ ok (codes "3" ∷ codes "5" ∷ [])
unfolding comments read_keys format_int lookup equal insert
ids_read = refl

created_entries-indexed_example :
    (e : Entries sample) × (created_entries sample comments (comment 3 ∷ comment 5 ∷ []) ≡ ok e)
    × TableIndexed sample (index_of (codes "id") comments.columns_index) e.memory e.held
    × ((x : Bytes) → has_entry x e.held.index ≡ listed (codes "3" ∷ codes "5" ∷ []) x)
unfolding comments equal listed
created_entries-indexed_example =
    created_entries-indexed sample comments refl (comment 3 ∷ comment 5 ∷ [])
      (codes "3" ∷ codes "5" ∷ []) ids_read (refl, (refl, tt))
