-- ===== src/Objects/Schema/Backends.antt =====
-- The columns of the tables backends, columns of lmd/objects.go.
use lmd.Prelude.{List, [], ◌∷◌}
use lmd.Objects.{ref_no_update, string_col, virt_col, virt_update}
use lmd.Objects.Schema.{Entry, column}

abbrev pub backends_columns : List Entry
backends_columns =
    column "peer_key" ref_no_update virt_col "Id of this peer"
    ∷ column "peer_name" ref_no_update virt_col "Name of this peer"
    ∷ column "key" ref_no_update virt_col "Id of this peer"
    ∷ column "name" ref_no_update virt_col "Name of this peer"
    ∷ column "addr" ref_no_update virt_col "Address of this peer"
    ∷ column "status" ref_no_update virt_col
        "Status of this peer (0 - UP, 1 - Stale, 2 - Down, 4 - Pending)"
    ∷ column "bytes_send" ref_no_update virt_col "Bytes send to this peer"
    ∷ column "bytes_received" ref_no_update virt_col "Bytes received from this peer"
    ∷ column "queries" ref_no_update virt_col "Number of queries sent to this peer"
    ∷ column "last_error" ref_no_update virt_col "Last error message or empty if up"
    ∷ column "last_update" ref_no_update virt_col "Timestamp of last update"
    ∷ column "last_online" ref_no_update virt_col "Timestamp when peer was last online"
    ∷ column "response_time" ref_no_update virt_col "Duration of last update in seconds"
    ∷ column "idling" ref_no_update virt_col
        "Idle status of this backend (0 - Not idling, 1 - idling)"
    ∷ column "last_query" ref_no_update virt_col "Timestamp of the last incoming request"
    ∷ []

abbrev pub columns_columns : List Entry
columns_columns =
    column "name" virt_update string_col "The name of the column within the table"
    ∷ column "table" virt_update string_col "The name of the table"
    ∷ column "type" virt_update string_col "The data type of the column (int, float, string, list)"
    ∷ column "description" virt_update string_col "A description of the column"
    ∷ []
