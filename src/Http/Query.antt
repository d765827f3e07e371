-- ===== src/Http/Query.antt =====
-- The handlers `query`, `table` and `queryTable` of lmd/http.go, and what `SendQuery` of lmd/nodes.go adds to
-- the data of a request. How a request is answered is a parameter.
pub mod Answered
use lmd.Prelude.{
  is_nil, Bool, true, false, Option, none, some, List, [], ◌∷◌, Bytes, codes, equal, map, Result,
  ok, err, ◌>>=◌, if◌then◌else◌,
}
use lmd.Prelude.Dict.{Dict, lookup, insert}
use lmd.Runtime.{Go, Panic, type_assertion}
use lmd.Runtime.Dynamic.{Value, str}
use lmd.BadRequest.{BadRequest, Failure, bad, panicked}
use lmd.Objects.{ObjectsType}
use lmd.Request.{Request}
use lmd.Response.Columns.{has_key, itself}
use lmd.Http.{RequestData, parse_request_data_to_request}

pub data HttpError : Type 0 where
  not_understood : HttpError
  table_not_found unknown_request : Bytes → HttpError
  failed : BadRequest → HttpError

pub data HttpReply : Type 0 where
  json : Bytes → HttpReply
  identifier : HttpReply
  error_output : HttpError → HttpReply

-- a panic of a handler is one of its goroutine
abbrev pub reply_of : Result Failure Bytes → Result Panic HttpReply
reply_of (ok s) = ok (json s)
reply_of (err (bad b)) = ok (error_output (failed b))
reply_of (err (panicked p)) = err p

-- the map that `ExpandRequestedBackends` fills before its error, if there is one
unfoldable pub known_backends : Dict Bytes → List Bytes → Dict Bytes → Dict Bytes
unfolding lookup insert
known_backends store [] m = m
known_backends store (b ∷ bs) m =
    let rest = known_backends store bs (insert b b m) in if has_key b store then rest else m

module _ (go : Go) where
  -- a string, or the empty one
  abbrev pub text_or_empty : Option (Value go.Float) → Bytes
  text_or_empty (some (str s)) = s
  text_or_empty _ = []

  unfoldable pub send_query_data : Bytes → RequestData go → RequestData go
  unfolding insert
  send_query_data name parameters = insert (codes "_name") (str name) parameters

  module _ (o : ObjectsType) (store : Dict Bytes)
      (respond : Request go → Result Failure Bytes) where
    -- The error of `ExpandRequestedBackends` is dropped.
    unfoldable pub expand_known : Request go → Request go
    unfolding known_backends
    expand_known req = record req {
      backends_map =
          if is_nil req.backends then map itself store else known_backends store req.backends [];
    }

    -- the table is known, or not
    abbrev pub query_known : Bool → Bytes → RequestData go → Result Panic HttpReply
    query_known false name req_data = ok (error_output (table_not_found name))
    query_known true name req_data =
        reply_of (do req ← parse_request_data_to_request go o req_data; respond (expand_known req))

    unfoldable pub query_table : RequestData go → Result Panic HttpReply
    unfolding lookup expand_known parse_request_data_to_request
    query_table req_data = elim (lookup (codes "table") req_data) [
      | some (str name) ↦ query_known (has_key name o.tables) name req_data
      | _ ↦ err type_assertion
    ]

    -- the name in the path, and the data of the body, if it can be read
    unfoldable pub table_handler : Bytes → Option (RequestData go) → Result Panic HttpReply
    unfolding query_table insert
    table_handler name none = ok (error_output not_understood)
    table_handler name (some req_data) =
        query_table (if is_nil name then req_data else insert (codes "table") (str name) req_data)

    abbrev pub query_function : Bytes → RequestData go → Result Panic HttpReply
    query_function name req_data =
        if equal name (codes "ping")
        then ok identifier
        else if equal name (codes "table")
        then query_table req_data
        else ok (error_output (unknown_request name))

    -- whether the body is JSON, and its data, if it can be read
    unfoldable pub query_handler : Bool → Option (RequestData go) → Result Panic HttpReply
    unfolding query_table lookup
    query_handler true none = ok (error_output not_understood)
    query_handler true (some req_data) =
        query_function (text_or_empty (lookup (codes "_name") req_data)) req_data
    query_handler false body = query_function [] []
