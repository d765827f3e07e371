-- ===== src/Request/Tests.antt =====
-- Tests of the requests, and the theorems about them at concrete inputs.
use lmd.Prelude.{
  not, ◌&&◌, drop, ◌≡◌, refl, Bool, true, ◌&&◌, ◌+◌, none, some, List, [], ◌∷◌, codes, Bytes,
  String, map, Result, ok, err,
}
use lmd.Runtime.Sample.{sample}
use lmd.Objects.{ObjectsType, new_table, add_column, static_update, string_col}
use lmd.Text.{has_prefix}
use lmd.Filter.Parse.Calm.{is_panic}
use lmd.Request.{Request, no_request}
use lmd.Request.Reader.{is_command, parse_request_action}
use lmd.Request.Reader.Panics.{parse_request_action-panics}
use lmd.Request.Reader.{Parsed, new_request}
use lmd.Request.Reader.Kept.{is_addressed, is_bounded}
use lmd.Request.Reader.Accepted.{is_complete, new_request-accepted}
use lmd.Request.Reader.Framing.{input_size, new_request-size}

abbrev objects : ObjectsType
objects = record {
  tables =
      ((
        codes "hosts",
        add_column (codes "name") static_update string_col (codes "Host name")
            (new_table (codes "hosts")),
      )
        ∷ []);
  order = codes "hosts" ∷ [];
}

abbrev lines : List Bytes
lines =
    codes "GET hosts" ∷ codes "Columns: name" ∷ codes "Limit: 10" ∷ codes "" ∷ codes "GET x" ∷ []

-- what the reader makes of them, and the request in it
accepted :
    (parsed : Parsed sample) × (req : Request sample) × (new_request sample objects lines
      ≡ ok parsed)
    × (parsed.request ≡ some req)
unfolding new_request lmd.Text.has_prefix lmd.Text.trim_space lmd.Prelude.Dict.lookup
    lmd.Prelude.equal lmd.Request.Header.parse_request_header_line lmd.Text.split_n
    lmd.Request.Header.keyword lmd.Text.to_lower lmd.Request.Header.parse_int_header
    lmd.Text.Decimal.atoi
accepted = (_, _, refl, refl)

new_request-size_example : accepted.0.size + input_size accepted.0.left ≡ input_size lines
new_request-size_example = new_request-size sample objects lines accepted.2

new_request-accepted_example :
    (is_addressed sample objects accepted.1 ≡ true)
    × (is_bounded sample objects accepted.1 ≡ true)
    × (is_complete sample objects accepted.1 ≡ true)
new_request-accepted_example = new_request-accepted sample objects lines accepted.2 accepted.3

parse_request_action-panics_example :
    is_panic (parse_request_action sample objects (codes "COMMAND x") (no_request sample)) ≡ (
      has_prefix (codes "COMMAND x") (codes "COMMAND ")
      && not (is_command (drop 8 (codes "COMMAND x"))))
parse_request_action-panics_example =
    parse_request_action-panics sample objects (codes "COMMAND x") (no_request sample)
