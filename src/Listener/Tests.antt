-- ===== src/Listener/Tests.antt =====
-- The connection of a client at a concrete input, with the theorems about it.
use lmd.Prelude.{true, some, List, [], ◌∷◌, Bytes, codes, ◌≡◌, arith, length}
use lmd.Prelude.Dict.{Dict}
use lmd.Runtime.Sample.{sample}
use lmd.Objects.{ObjectsType, new_table}
use lmd.Request.{Request, no_request}
use lmd.Listener.{Reply, sent, Batch, process_requests, parse_requests}
use lmd.Listener.Batch.{IsBatch, parse_requests-IsBatch}
use lmd.Listener.Order.{seen, asked, process_requests-seen}

abbrev objects : ObjectsType
objects = record {
  tables = (codes "hosts", new_table (codes "hosts")) ∷ [];
  order = codes "hosts" ∷ [];
}

abbrev store : Dict Bytes
store = (codes "a", codes "Site A") ∷ (codes "b", codes "Site B") ∷ []

abbrev lines : List Bytes
lines =
    codes "COMMAND [1] X"
    ∷ []
    ∷ codes "GET hosts"
    ∷ codes "KeepAlive: on"
    ∷ []
    ∷ codes "COMMAND [2] Y"
    ∷ []
    ∷ []

abbrev answers : Request sample → Reply sample
answers req = sent

-- a command, a query that keeps the connection open, and another command
abbrev requests : List (Request sample)
requests =
    record (no_request sample) {
      command = codes "COMMAND [1] X";
      backends_map = (codes "a", codes "a") ∷ (codes "b", codes "b") ∷ [];
    }
    ∷ record (no_request sample) { table = codes "hosts"; keep_alive = true }
    ∷ record (no_request sample) {
      command = codes "COMMAND [2] Y";
      backends_map = (codes "a", codes "a") ∷ [];
    }
    ∷ []

process_requests-seen_example :
    seen sample (codes "a") (process_requests sample answers requests).events
    ≡ asked sample (codes "a") answers requests
process_requests-seen_example = process_requests-seen sample (codes "a") answers requests

parse_requests-IsBatch_example :
    (r : Batch sample) × (parse_requests sample objects store 8 lines ≡ some r)
    × IsBatch sample (length lines) r
parse_requests-IsBatch_example = parse_requests-IsBatch sample objects store 8 lines (omega arith)
