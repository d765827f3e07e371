-- ===== src/Response/Tests.antt =====
-- The theorems about responses at concrete requests.
use lmd.Prelude.{
  not, false, ℕ, ◌≡◌, refl, Bool, true, some, List, [], ◌∷◌, Bytes, codes, length, Result, ok, leb,
  equal,
}
use lmd.Prelude.Int.{ℤ, pos}
use lmd.Prelude.Dict.{Dict, lookup, insert}
use lmd.Runtime.{Panic}
use lmd.Runtime.Sample.{sample}
use lmd.Objects.{Column, ObjectsType, Table, new_table, string_col, int_col}
use lmd.Text.{to_lower}
use lmd.Filter.{zero_column}
use lmd.Request.{Request, no_request, SortField, asc}
use lmd.Runtime.Dynamic.{str}
use lmd.Response.{Row, value}
use lmd.Response.Order.{less}
use lmd.Response.Order.Ties.{AreTexts, tied, less-ties}
use lmd.Response.Window.{gather_all, optimize_result_limit, post_processing}
use lmd.Response.Limit.Peers.{limited-post_processing}
use lmd.Response.Columns.{Indexes, build_response_indexes, expand_requested_backends, has_key}
use lmd.Response.Columns.Places.{AllPlaced, build_response_indexes-places}
use lmd.Response.Columns.Backends.{expand_requested_backends-known}

abbrev peers : List (List ℕ)
peers = (1 ∷ 2 ∷ 3 ∷ 4 ∷ []) ∷ (5 ∷ 6 ∷ []) ∷ []

-- the rows from 2 on
abbrev passes : ℕ → Result Panic Bool
passes n = ok (leb 2 n)

abbrev row_of : ℕ → Result Panic ℕ
row_of n = ok n

all_rows : gather_all passes row_of (pos 0) peers ≡ ok (5, 2 ∷ 3 ∷ 4 ∷ 5 ∷ 6 ∷ [])
unfolding gather_all
all_rows = refl

limited-post_processing_example :
    (cut : List ℕ) × (gather_all passes row_of
        (optimize_result_limit (pos 2) (pos 1) (codes "hosts") [])
        peers
      ≡ ok (5, cut))
    × (post_processing (λ rows. ok rows) 2 (codes "hosts") [] (pos 1) (pos 2) 5 cut
        ≡ post_processing
            (λ rows. ok rows)
            2
            (codes "hosts")
            []
            (pos 1)
            (pos 2)
            5
            (2 ∷ 3 ∷ 4 ∷ 5 ∷ 6 ∷ []))
limited-post_processing_example =
    limited-post_processing passes row_of (λ rows. ok rows) 2 (codes "hosts") 1 1 5 peers
      (2 ∷ 3 ∷ 4 ∷ 5 ∷ 6 ∷ []) all_rows

abbrev hosts : Table
hosts = record (new_table (codes "hosts")) {
  columns_index = (codes "name", 0) ∷ (codes "state", 1) ∷ [];
  columns =
      record (zero_column) { name = codes "name"; col_type = string_col }
      ∷ record (zero_column) { name = codes "state"; col_type = int_col; index = 1 }
      ∷ [];
  max_index = 2;
}

abbrev objects : ObjectsType
objects = record { tables = (codes "hosts", hosts) ∷ []; order = codes "hosts" ∷ [] }

abbrev by_state : Request sample
by_state = record (no_request sample) {
  table = codes "hosts";
  columns = codes "name" ∷ codes "State" ∷ [];
  sort = record { name = codes "state"; direction = asc; index = pos 0; args = [] } ∷ [];
  backends = codes "a" ∷ [];
}

indexed :
    (req : Request sample) × (found : Indexes) × (build_response_indexes sample objects hosts
        by_state
      ≡ ok (req, found))
unfolding build_response_indexes lookup to_lower equal
indexed = (_, _, refl)

build_response_indexes-places_example :
    (length indexed.1.indexes ≡ length indexed.0.columns)
    × (length indexed.1.columns ≡ length indexed.0.columns)
    × AllPlaced (length indexed.1.columns) indexed.0.sort
build_response_indexes-places_example =
    build_response_indexes-places sample objects hosts by_state indexed.2

abbrev store : Dict Bytes
store = (codes "a", codes "a") ∷ (codes "b", codes "b") ∷ []

expanded :
    expand_requested_backends sample store by_state
    ≡ ok (record by_state { backends_map = (codes "a", codes "a") ∷ [] })
unfolding expand_requested_backends lookup insert equal
expanded = refl

entry : lookup (codes "a") ((codes "a", codes "a") ∷ []) ≡ some (codes "a")
unfolding lookup equal
entry = refl

expand_requested_backends-known_example :
    (has_key (codes "a") store ≡ true) × (◌≡◌ {A = Bytes} (codes "a") (codes "a"))
expand_requested_backends-known_example =
    expand_requested_backends-known sample store by_state refl expanded (codes "a") (codes "a")
      entry

abbrev name_columns : List Column
name_columns = record zero_column { name = codes "name"; col_type = string_col } ∷ []

abbrev by_name : List SortField
by_name = record { name = codes "name"; direction = asc; index = pos 0; args = [] } ∷ []

abbrev row_a : Row ℤ
row_a = value (str (codes "a")) ∷ []

abbrev row_b : Row ℤ
row_b = value (str (codes "b")) ∷ []

names-AreTexts : AreTexts sample name_columns row_a row_b by_name
unfolding AreTexts
names-AreTexts = (codes "a", codes "b", refl, refl, refl, tt)

less-ties_example :
    (x : Bool) × (y : Bool) × (less sample name_columns by_name row_a row_b ≡ ok x)
    × (less sample name_columns by_name row_b row_a ≡ ok y)
    × (tied sample name_columns row_a row_b by_name names-AreTexts ≡ true → (x ≡ true) × (y ≡ true))
    × (tied sample name_columns row_a row_b by_name names-AreTexts ≡ false → x ≡ not y)
less-ties_example = less-ties sample name_columns by_name row_a row_b names-AreTexts
