-- ===== src/Listener.antt =====
-- `ProcessRequests` and `SendCommands` of lmd/listener.go, with `ParseRequests` of lmd/request.go:
-- what is done with the requests of a client, as a sequence of events. The input that a reader finds
-- is split at its line feeds; `QueryServer`, which makes a new reader for each batch, is not modelled.
pub mod Batch
pub mod Order
mod Tests
use lmd.Prelude.{
  is_nil, length, ◌+◌, ℕ, zero, suc, Bool, true, false, ◌||◌, Option, none, some, List, [], ◌∷◌,
  ◌++◌, Bytes, codes, Result, ok, err, ◌>>=◌, if◌then◌else◌,
}
use lmd.Prelude.Int.{ℤ}
use lmd.Prelude.Dict.{Dict, lookup, insert}
use lmd.Runtime.{Go}
use lmd.BadRequest.{Failure, bad, empty_request}
use lmd.Objects.{ObjectsType}
use lmd.Text.{join, trim_space}
use lmd.Request.{Request, no_request}
use lmd.Request.Reader.{Parsed, new_request}
use lmd.Response.Columns.{expand_requested_backends}
use lmd.Peer.{Peer, Config, schedule_immediate_update}

abbrev pub or_nil : Option (List Bytes) → List Bytes
or_nil none = []
or_nil (some cs) = cs

-- commandsByPeer[pID], which is nil if it is missing
abbrev pub commands_of : Bytes → Dict (List Bytes) → List Bytes
commands_of id pending = or_nil (lookup id pending)

-- the values of `BackendsMap`
unfoldable pub add_command : Bytes → Dict Bytes → Dict (List Bytes) → Dict (List Bytes)
unfolding lookup insert
add_command command [] pending = pending
add_command command ((_, id) ∷ backends) pending =
    add_command command backends (insert id (commands_of id pending ++ command ∷ []) pending)

-- What `SendCommands` notes of a peer, besides the query.
unfoldable pub note_commands : Config → ℤ → Peer → Peer
unfolding schedule_immediate_update
note_commands conf now p =
    schedule_immediate_update conf now (record p { last_query = now; idling = false })

module _ (go : Go) where
  -- the request that a peer is sent
  unfoldable pub command_request : List Bytes → Request go
  unfolding join
  command_request commands = record (no_request go) { command = join commands (codes "\n\n") }

  -- how `GetResponse` and `Send` end
  pub data Reply : Type 0 where
    sent unsent : Reply
    rejected : Failure → Reply

  -- Commands that are sent, by the ids of the peers; a query that is answered; an error that the client is
  -- sent.
  pub data Event : Type 0 where
    commands : Dict (List Bytes) → Event
    query : Request go → Event
    refused : Failure → Event

  -- the events, and whether the connection is kept open
  pub record Handled : Type 0 where
    pub events : List Event
    pub keep_alive : Bool

  abbrev pub before : List Event → Handled → Handled
  before es h = record h { events = es ++ h.events }

  -- all pending commands, if there are any
  abbrev pub send_commands : Dict (List Bytes) → List Event
  send_commands [] = []
  send_commands (entry ∷ pending) = commands (entry ∷ pending) ∷ []

  -- behind the answer to a query
  abbrev pub after_reply : Reply → Request go → Handled → Handled
  after_reply (rejected f) req rest = record { events = refused f ∷ []; keep_alive = false }
  after_reply unsent req rest = record { events = query req ∷ []; keep_alive = false }
  after_reply sent req rest =
      if req.keep_alive
      then before (query req ∷ []) rest
      else record { events = query req ∷ []; keep_alive = false }

  module _ (respond : Request go → Reply) where
    -- the loop: the requests, whether the last one is to be kept alive, and the pending commands
    unfoldable pub process_from : List (Request go) → Bool → Dict (List Bytes) → Handled
    unfolding add_command
    process_from [] keep pending = record { events = send_commands pending; keep_alive = keep }
    process_from (req ∷ reqs) keep pending =
        let queued =
          process_from reqs req.keep_alive
            (add_command (trim_space req.command) req.backends_map pending) in
        let rest = process_from reqs req.keep_alive [] in
        let answered = before (send_commands pending) (after_reply (respond req) req rest) in
        if is_nil req.command then answered else queued

    unfoldable pub process_requests : List (Request go) → Handled
    unfolding process_from
    process_requests reqs = process_from reqs false []

  -- requests and the lines that are left
  abbrev pub Batch : Type 0
  Batch = Result Failure (List (Request go) × List Bytes)

  -- only a command may have more requests behind it
  abbrev pub with_rest : Request go → List Bytes → Option Batch → Option Batch
  with_rest req left rest = if is_nil req.command then some (ok (req ∷ [], left)) else elim rest [
    | none ↦ none
    | some (err f) ↦ some (err f)
    | some (ok (reqs, left')) ↦ some (ok (req ∷ reqs, left'))
  ]

  module _ (o : ObjectsType) (store : Dict Bytes) where
    -- `none` without fuel
    unfoldable pub parse_requests : ℕ → List Bytes → Option Batch
    unfolding new_request expand_requested_backends
    parse_requests zero lines = none
    parse_requests (suc fuel) lines = elim (new_request go o lines) [
      | err f ↦ some (err f)
      | ok parsed ↦ elim parsed.request [
        | none ↦ some (ok ([], parsed.left))
        | some req ↦ elim (expand_requested_backends go store req) [
          | err f ↦ some (err f)
          | ok req' ↦ with_rest req' parsed.left (parse_requests fuel parsed.left)
        ]
      ]
    ]
