-- ===== src/DataTable/Entries.antt =====
-- `UpdateDeltaCommentsOrDowntimes` of lmd/peer.go. What the remote site answers is a parameter: `ask`
-- is `p.Query`, and its error is the text of Go's. The locks are not modelled, nor what a failed query
-- does to the status of the peer (Peer).
pub mod Indexed
pub mod Mirror
use lmd.Prelude.{
  ℕ, ◌+◌, ◌-◌, Bool, true, false, ◌&&◌, ◌||◌, not, Option, none, some, List, [], ◌∷◌, ◌++◌, Bytes,
  codes, equal, length, get_elem?, Result, ok, err, ◌>>=◌, ◌==◌, if◌then◌else◌,
}
use lmd.Prelude.Int.{ℤ, pos}
use lmd.Prelude.Dict.{Dict, lookup, insert, delete}
use lmd.Runtime.{Go, Panic, raised, index_out_of_range, type_assertion}
use lmd.Runtime.Dynamic.{Value, float}
use lmd.Objects.{Table, PeerFlags, get_initial_keys, index_of}
use lmd.Text.{join}
use lmd.Text.Decimal.{format_ℕ}
use lmd.Filter.Match.{sprint}
use lmd.Request.{Request, no_request}
use lmd.DataTable.{at, DataTable, Row, Memory, add_item, key_at, remove_item}

unfoldable pub missing_ids : Dict ℕ → List Bytes → List Bytes
unfolding lookup
missing_ids index [] = []
missing_ids index (id ∷ ids) =
    let rest = missing_ids index ids in elim (lookup id index) [ none ↦ id ∷ rest | some _ ↦ rest ]

unfoldable pub listed : List Bytes → Bytes → Bool
listed [] id = false
listed (x ∷ xs) id = let rest = listed xs id in if equal x id then true else rest

abbrev pub keys : Dict ℕ → List Bytes
keys [] = []
keys ((id, row) ∷ rest) = id ∷ keys rest

abbrev drop_entry : Bytes → DataTable → DataTable
drop_entry id d = record d { index = delete id d.index }

module _ (go : Go) where
  open go use {Float, float_eq, of_int}

  -- the memory and the table
  pub record Entries : Type 0 where
    pub memory : Memory go
    pub held : DataTable

  -- .(float64)
  abbrev pub as_float : Value Float → Result Panic Float
  as_float (float v) = ok v
  as_float _ = err type_assertion

  abbrev base_request : Table → Request go
  base_request t = record (no_request go) {
    table = t.name;
    response_fixed16 = true;
    output_format = codes "json";
  }

  unfoldable pub count_request : Table → Request go
  count_request t = record (base_request t) {
    filter_str = codes "Stats: id != -1\nStats: max id\n";
  }

  unfoldable pub ids_request : Table → Request go
  ids_request t = record (base_request t) { columns = codes "id" ∷ [] }

  unfoldable pub rows_request : Table → PeerFlags → List Bytes → Request go
  unfolding get_initial_keys join
  rows_request t flags missing = record (base_request t) {
    columns = get_initial_keys flags t;
    filter_str =
        codes "Filter: id = "
        ++ join missing (codes "\nFilter: id = ")
        ++ codes "\nOr: "
        ++ format_ℕ (length missing)
        ++ codes "\n";
  }

  -- the last row has the highest id of the remote site
  abbrev last_matches : Memory go → List ℕ → ℕ → Row go → Result Panic Bool
  last_matches mem rows field counted = do
    ref ← at rows (length rows - 1)
    last ← at mem ref
    v ← at last field
    id ← as_float v
    m ← at counted 1
    max ← as_float m
    ok (float_eq id max)

  -- did the number of entries and the highest id stay the same?
  unfoldable pub is_unchanged : Memory go → List ℕ → ℕ → List (Row go) → Result Panic Bool
  is_unchanged mem rows field answer = do
    counted ← at answer 0
    c ← at counted 0
    number ← as_float c
    let last = last_matches mem rows field counted
    if not (float_eq (of_int (pos (length rows))) number)
        then ok false
        else if length rows == 0
        then ok true
        else last

  -- the keys of the rows of an answer, in one of their columns
  unfoldable pub read_keys : ℕ → List (Row go) → Result Panic (List Bytes)
  read_keys column [] = ok []
  read_keys column (row ∷ rows) = do
    v ← at row column
    ids ← read_keys column rows
    ok (sprint go v ∷ ids)

  -- The loop over the keys of the index. A key that a removal has deleted is not visited.
  unfoldable pub remove_old :
      Memory go → List Bytes → List Bytes → DataTable → Result Panic DataTable
  unfolding lookup delete listed remove_item
  remove_old mem remote [] d = ok d
  remove_old mem remote (id ∷ ids) d = elim (lookup id d.index) [
    | none ↦ remove_old mem remote ids d
    | some row ↦
        if listed remote id
        then remove_old mem remote ids d
        else (remove_item go mem row d >>= λ d'. remove_old mem remote ids (drop_entry id d'))
  ]

  -- The loop over the new rows: each is put into the memory.
  unfoldable pub add_new : ℕ → List (Row go) → Entries → Result Panic Entries
  unfolding add_item insert
  add_new field [] e = ok e
  add_new field (row ∷ rows) e = do
    v ← at row field
    let d = record e.held { index = insert (sprint go v) (length e.memory) e.held.index }
    add_new field rows
        (record { memory = e.memory ++ row ∷ []; held = add_item (length e.memory) d })

  module _ (ask : Request go → Result Bytes (List (Row go))) where
    -- the entries after the call, with the error that it returns
    abbrev pub Outcome : Type 0
    Outcome = Result Panic (Entries × Option Bytes)

    -- A query that fails ends the update with its error.
    abbrev pub with_answer :
        Entries → Result Bytes (List (Row go)) → (List (Row go) → Outcome) → Outcome
    with_answer e (err failure) next = ok (e, some failure)
    with_answer e (ok rows) next = next rows

    unfoldable pub fetch_new : Table → PeerFlags → List Bytes → Entries → Outcome
    unfolding rows_request add_new
    fetch_new t flags [] e = ok (e, none)
    fetch_new t flags (id ∷ ids) e =
        with_answer e (ask (rows_request t flags (id ∷ ids)))
          λ rows. do e' ← add_new (index_of (codes "id") t.columns_index) rows e; ok (e', none)

    unfoldable pub fetch_ids : Table → PeerFlags → Entries → Outcome
    unfolding ids_request read_keys missing_ids remove_old fetch_new
    fetch_ids t flags e = with_answer e (ask (ids_request t)) λ answer. do
      remote ← read_keys 0 answer
      d ← remove_old e.memory remote (keys e.held.index) e.held
      fetch_new t flags (missing_ids e.held.index remote) (record e { held = d })

    unfoldable pub update_delta_comments_or_downtimes : Table → PeerFlags → Entries → Outcome
    unfolding count_request is_unchanged fetch_ids
    update_delta_comments_or_downtimes t flags e = with_answer e (ask (count_request t)) λ answer.
        do
          unchanged ←
              is_unchanged e.memory e.held.rows (index_of (codes "id") t.columns_index) answer
          let fetched = fetch_ids t flags e
          if unchanged then ok (e, none) else fetched
