-- ===== src/DataTable/Dynamic.antt =====
-- The updates of the dynamic columns of a table in lmd/peer.go: `UpdateObjectByType` but for the table of
-- time periods, `UpdateDeltaTableHosts`, `UpdateDeltaTableServices` and `UpdateDeltaTableFullScan`. `ask` is
-- `p.Query`, and its error is the text of Go's; what a failed query does to the status of the peer is
-- modelled in Peer.
pub mod Written
use lmd.Prelude.{
  is_nil, ℕ, zero, suc, ◌+◌, ◌-◌, Bool, true, false, ◌&&◌, ◌||◌, not, Option, none, some, List, [],
  ◌∷◌, ◌++◌, map, Bytes, codes, equal, length, get_elem?, set, Result, ok, err, ◌>>=◌, ltb, ◌==◌,
  if◌then◌else◌,
}
use lmd.Prelude.Int.{ℤ, pos, ◌-ℤ◌, ltb_ℤ, eqb_ℤ}
use lmd.Prelude.Dict.{Dict, lookup, insert}
use lmd.Runtime.{Go, Panic, raised, index_out_of_range, type_assertion}
use lmd.Runtime.Dynamic.{Value, null, bool, float, int, str, list, dict}
use lmd.Objects.{Table, PeerFlags, get_dynamic_columns, index_of}
use lmd.Text.Decimal.{format_int, format_ℕ}
use lmd.Request.{Request, no_request}
use lmd.DataTable.{at, DataTable, Row, Memory}
use lmd.DataTable.Entries.{as_float}

-- the first and the second of each pair
abbrev pub names_of : List (Bytes × ℕ) → List Bytes
names_of [] = []
names_of ((name, i) ∷ rest) = name ∷ names_of rest

abbrev pub indexes_of : List (Bytes × ℕ) → List ℕ
indexes_of [] = []
indexes_of ((name, i) ∷ rest) = i ∷ indexes_of rest

module _ {ℓ} {A : Type ℓ} where
  -- xs[i] = x
  abbrev pub put : List A → ℕ → A → Result Panic (List A)
  put xs i x = if ltb i (length xs) then ok (set xs i x) else err index_out_of_range

  -- `for j, k := range indexes { row[k] = values[j] }`
  unfoldable pub overwrite : List ℕ → List A → List A → Result Panic (List A)
  overwrite [] values row = ok row
  overwrite (k ∷ indexes) [] row = err index_out_of_range
  overwrite (k ∷ indexes) (v ∷ values) row = do row' ← put row k v; overwrite indexes values row'

module _ (go : Go) where
  open go use {Float, float_eq, to_int}

  -- the row at a reference; no reference is a slice that is nil, without an element
  unfoldable pub overwrite_at : List ℕ → Row go → Option ℕ → Memory go → Result Panic (Memory go)
  unfolding overwrite
  overwrite_at indexes values none mem = do _ ← overwrite indexes values []; ok mem
  overwrite_at indexes values (some r) mem = do
    old ← at mem r
    row ← overwrite indexes values old
    put mem r row

  -- how `UpdateObjectByType` ends
  pub data Update : Type 0 where
    done restart_required : Update
    failed : Bytes → Update
    -- the loop returns the error of a short row and leaves `DataLock` locked
    failed_locked : Update

  -- the loop over the rows of the answer and those of the table
  unfoldable pub write_rows :
      List ℕ → List (Row go) → List ℕ → Memory go → Result Panic (Memory go × Update)
  unfolding overwrite_at
  write_rows indexes [] rows mem = ok (mem, done)
  write_rows indexes (values ∷ answer) rows mem =
      if ltb (length values) (length indexes) then ok (mem, failed_locked) else (elim rows [
        | [] ↦ err index_out_of_range
        | r ∷ rest ↦
            (overwrite_at indexes values (some r) mem >>= λ mem'.
            write_rows indexes answer rest mem')
      ])

  abbrev pub query_of : Bytes → List Bytes → Bytes → Request go
  query_of table columns filter_str = record (no_request go) {
    table = table;
    columns = columns;
    response_fixed16 = true;
    output_format = codes "json";
    filter_str = filter_str;
  }

  -- `==` of two values of type `interface{}`, which panics for two slices or two maps
  unfoldable pub interface_equals : Value Float → Value Float → Result Panic Bool
  unfolding equal
  interface_equals null null = ok true
  interface_equals (bool a) (bool b) = ok (if a then b else not b)
  interface_equals (float a) (float b) = ok (float_eq a b)
  interface_equals (int a) (int b) = ok (eqb_ℤ a b)
  interface_equals (str a) (str b) = ok (equal a b)
  interface_equals (list a) (list b) = err raised
  interface_equals (dict a) (dict b) = err raised
  interface_equals _ _ = ok false

  -- data[0][table.ColumnsIndex["program_start"]]
  abbrev pub held_start : DataTable → Memory go → Result Panic (Value Float)
  held_start d mem = do
    r ← at d.rows 0
    row ← at mem r
    at row (index_of (codes "program_start") d.table.columns_index)

  -- the test of the table `status`, with the `ProgramStart` of the peer's status
  unfoldable pub is_restarted : Value Float → DataTable → Memory go → Result Panic Bool
  unfolding interface_equals
  is_restarted program_start d mem =
      let tested = (do
        held ← held_start d mem
        same ← interface_equals program_start held
        ok (not same)) in
      if equal d.table.name (codes "status") then tested else ok false

  abbrev pub note_restart :
      Value Float → DataTable → Memory go × Update → Result Panic (Memory go × Update)
  note_restart program_start d (mem, done) = do
    restarted ← is_restarted program_start d mem
    ok (mem, (if restarted then restart_required else done))
  note_restart program_start d other = ok other

  module _ (ask : Request go → Result Bytes (List (Row go))) where
    -- for the tables but `timeperiods`, with the `ProgramStart` of the peer's status
    unfoldable pub update_object_by_type :
        PeerFlags → Value Float → DataTable → Memory go → Result Panic (Memory go × Update)
    unfolding write_rows get_dynamic_columns is_restarted
    update_object_by_type flags program_start d mem =
        let columns = get_dynamic_columns flags d.table in
        let answered : Result Panic (Memory go × Update) =
          elim (ask (query_of d.table.name (names_of columns) [])) [
            | err message ↦ ok (mem, failed message)
            | ok answer ↦
                if ltb (length d.rows) (length answer)
                then ok (mem, restart_required)
                else (write_rows (indexes_of columns) answer d.rows mem >>= λ w.
                    note_restart program_start d w)
          ] in
        if is_nil d.table.dynamic_col_cache_names
          || (d.table.is_virtual || d.table.passthrough_only)
        then ok (mem, done)
        else answered

    -- .(string)
    abbrev pub as_text : Value Float → Result Panic Bytes
    as_text (str s) = ok s
    as_text _ = err type_assertion

    -- the key columns of the table
    abbrev pub key_columns : Bytes → List Bytes
    key_columns table =
        if equal table (codes "services")
        then codes "host_name" ∷ codes "description" ∷ []
        else codes "name" ∷ []

    -- The key of a row of the answer, behind the `n` dynamic columns: of a host its name, of a service
    -- its host and its description.
    unfoldable pub answer_key : Bytes → ℕ → Row go → Result Panic Bytes
    answer_key table n row =
        let name = at row n >>= as_text in
        let service = (do
          host ← name
          v ← at row (n + 1)
          description ← as_text v
          ok (host ++ b';' ∷ description)) in
        if equal table (codes "services") then service else name

    unfoldable pub write_keyed :
        Bytes → List ℕ → List (Row go) → Dict ℕ → Memory go → Result Panic (Memory go)
    unfolding answer_key overwrite_at lookup
    write_keyed table indexes [] index mem = ok mem
    write_keyed table indexes (row ∷ answer) index mem = do
      key ← answer_key table (length indexes) row
      mem' ← overwrite_at indexes row (lookup key index) mem
      write_keyed table indexes answer index mem'

    -- the memory, with the error that is returned
    abbrev pub Delta : Type 0
    Delta = Result Panic (Memory go × Option Bytes)

    -- `UpdateDeltaTableHosts` and `UpdateDeltaTableServices` with a filter
    unfoldable pub update_delta_with : PeerFlags → Bytes → DataTable → Memory go → Delta
    unfolding write_keyed get_dynamic_columns
    update_delta_with flags filter_str d mem =
        let columns = get_dynamic_columns flags d.table in
        elim (ask
          (query_of d.table.name (names_of columns ++ key_columns d.table.name) filter_str)) [
            | err message ↦ ok (mem, some message)
            | ok answer ↦
                (write_keyed d.table.name (indexes_of columns) answer d.index mem >>= λ mem'.
                ok (mem', none))
          ]

    abbrev pub scan_columns : List Bytes
    scan_columns =
        codes "last_check"
        ∷ codes "scheduled_downtime_depth"
        ∷ codes "acknowledged"
        ∷ codes "active_checks_enabled"
        ∷ codes "notifications_enabled"
        ∷ []

    -- `table.GetColumn(name).Index` for each name
    unfoldable pub column_indexes : Table → List Bytes → Result Panic (List ℕ)
    column_indexes t [] = ok []
    column_indexes t (name ∷ names) = do
      col ← at t.columns (index_of name t.columns_index)
      indexes ← column_indexes t names
      ok (col.index ∷ indexes)

    -- does a value of the answer differ from the one that is held? The loop stops at the first.
    unfoldable pub differs : List ℕ → Row go → Row go → Result Panic Bool
    differs [] row held = ok false
    differs (k ∷ indexes) [] held = err index_out_of_range
    differs (k ∷ indexes) (v ∷ row) held = do
      new ← as_float go v
      h ← at held k
      old ← as_float go h
      let rest = differs indexes row held
      if float_eq new old then rest else ok true

    abbrev pub note_missing : Float → List Float → List Float
    note_missing f [] = f ∷ []
    note_missing f (g ∷ fs) =
        let rest = note_missing f fs in if float_eq f g then g ∷ fs else g ∷ rest

    -- the times of the last checks of the rows that differ
    unfoldable pub missing_checks :
        List ℕ → List (Row go) → List ℕ → Memory go → List Float → Result Panic (List Float)
    unfolding differs
    missing_checks indexes [] rows mem missing = ok missing
    missing_checks indexes (row ∷ answer) [] mem missing = err index_out_of_range
    missing_checks indexes (row ∷ answer) (r ∷ rows) mem missing = do
      held ← at mem r
      changed ← differs indexes row held
      v ← at row 0
      last_check ← as_float go v
      missing_checks indexes answer rows mem
          (if changed then note_missing last_check missing else missing)

    unfoldable pub check_filters : List Float → Bytes
    unfolding format_int
    check_filters [] = []
    check_filters (f ∷ fs) =
        (codes "Filter: last_check = " ++ format_int (to_int f) ++ codes "\n") ++ check_filters fs

    -- the memory, whether there was an update, the error, and the time of the last full scan
    abbrev pub Scan : Type 0
    Scan = Result Panic (Memory go × Bool × Option Bytes × ℤ)

    -- The error of the delta update is dropped.
    abbrev pub after_scan : PeerFlags → ℤ → Bytes → DataTable → Memory go → List Float → Scan
    after_scan flags now filter_str d mem [] = ok (mem, true, none, now)
    after_scan flags now filter_str d mem (f ∷ fs) = do
      (mem', dropped) ←
          update_delta_with flags
            (filter_str
              ++ check_filters (f ∷ fs)
              ++ codes "Or: "
              ++ format_ℕ (length fs + 2)
              ++ codes "\n")
            d mem
      ok (mem', true, none, now)

    unfoldable pub full_scan : PeerFlags → ℤ → ℤ → Bytes → DataTable → Memory go → Scan
    unfolding column_indexes missing_checks check_filters update_delta_with ◌-ℤ◌ format_ℕ
    full_scan flags now last_full filter_str d mem =
        let scanned : Scan = elim (ask (query_of d.table.name scan_columns [])) [
          | err message ↦ ok (mem, false, some message, last_full)
          | ok answer ↦ do
            indexes ← column_indexes d.table scan_columns
            missing ← missing_checks indexes answer d.rows mem []
            after_scan flags now filter_str d mem missing
        ] in
        if ltb_ℤ (now -ℤ pos 30) last_full then ok (mem, false, none, last_full) else scanned

    -- `UpdateDeltaTableHosts("")` and `UpdateDeltaTableServices("")`: the memory, the error, and the time
    -- of the last full scan
    unfoldable pub update_delta_table :
        PeerFlags → ℤ → ℤ → ℤ → DataTable → Memory go → Result Panic (Memory go × Option Bytes × ℤ)
    unfolding full_scan update_delta_with ◌-ℤ◌ format_int
    update_delta_table flags now last_update last_full d mem =
        let filter_str =
          codes "Filter: last_check >= "
          ++ format_int (last_update -ℤ pos 3)
          ++ codes "\nFilter: is_executing = 1\nOr: 2\n" in
        full_scan flags now last_full filter_str d mem >>= λ (mem', updated, failure, last_full').
        let delta = update_delta_with flags filter_str d mem' >>= λ (mem'', failure').
        ok (mem'', failure', last_full') in
        elim failure [
          | some message ↦ ok (mem', some message, last_full')
          | none ↦ if updated then ok (mem', none, last_full') else delta
        ]
