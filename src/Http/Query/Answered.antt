-- ===== src/Http/Query/Answered.antt =====
-- The handler of lmd/http.go on what a node sends by `SendQuery` of lmd/nodes.go.
use lmd.Prelude.{
  is_nil, Bool, true, false, not, some, List, [], ◌∷◌, Bytes, codes, equal, Result, ok, ◌>>=◌,
  bind-ok, >>=-eq-ok, map, if◌then◌else◌, ◌≡◌, ◌≢◌, refl, ap, sym, ◌∙◌, ok-injective, Bool-cases,
  inl, inr,
}
use lmd.Prelude.Int.{ℤ, pos, eqb_ℤ, ◌+ℤ◌}
use lmd.Prelude.Dict.{Dict, lookup, insert}
use lmd.Runtime.{Go}
use lmd.Runtime.Dynamic.{Values, list, of_list}
use lmd.BadRequest.{Failure}
use lmd.Objects.{ObjectsType}
use lmd.Objects.Lookup.{IsIndexed}
use lmd.Filter.{filters}
use lmd.Filter.Parse.{table_of}
use lmd.Filter.Print.Value.{Conversions, IsExact}
use lmd.Request.{Request}
use lmd.Response.Columns.{has_key, itself, expand_backends, expand_requested_backends}
use lmd.Http.{
  RequestData, text_values, sort_texts, parse_request_data_to_request,
  build_distributed_request_data,
}
use lmd.Http.Json.{through_json, json_value, through_json-kept, IsKept, unchanged, unchanged-IsKept}
use lmd.Http.Filters.All.{AreReadable}
use lmd.Http.Filters.Read.{parse_http_filter_request_data-print_all}
use lmd.Http.Sorts.{ArePlainSorts}
use lmd.Http.Sent.{sent, sent_for, sent_for-lists, build-sent, delegated}
use lmd.Http.Delegated.{build_distributed_request_data-read}
use lmd.Http.Query.{
  reply_of, send_query_data, query_handler, query_known, known_backends, expand_known,
}

-- where all backends are known, nothing is lost with the error
known_backends-expand :
    (store : Dict Bytes) (names : List Bytes) (m : Dict Bytes) {n : Dict Bytes}
    → expand_backends store names m ≡ ok n
    → known_backends store names m ≡ n
unfolding expand_backends known_backends
known_backends-expand store [] m eq = ok-injective eq
known_backends-expand store (b ∷ bs) m eq = elim (Bool-cases (has_key b store)) [
  | inl known ↦ rw known (known_backends-expand store bs _ (rw known at eq))
  | inr unknown ↦ absurd (cc (rw unknown at eq))
]

module _ (go : Go) (o : ObjectsType) (store : Dict Bytes)
    (respond : Request go → Result Failure Bytes) where
  -- The entry `_name` leads to the table, and is not read again.
  handler-sent :
      (table text : Bytes) (backends columns lines : Values go.Float) (n : ℤ)
      (with_filter with_limit with_sort : Bool)
      → query_handler go o store respond true (
          some (
            through_json go unchanged (
              send_query_data go (codes "table") (
                sent go table
                  (list backends)
                  (list columns)
                  (with_filter, text)
                  (with_limit, n)
                  (with_sort, list lines)))))
        ≡ query_known go o store respond (has_key table o.tables) table (
            through_json go unchanged (
              send_query_data go (codes "table") (
                sent go table
                  (list backends)
                  (list columns)
                  (with_filter, text)
                  (with_limit, n)
                  (with_sort, list lines))))
  unfolding query_handler send_query_data lookup insert equal through_json json_value
  handler-sent table text backends columns lines n true true true = refl
  handler-sent table text backends columns lines n true true false = refl
  handler-sent table text backends columns lines n true false true = refl
  handler-sent table text backends columns lines n true false false = refl
  handler-sent table text backends columns lines n false true true = refl
  handler-sent table text backends columns lines n false true false = refl
  handler-sent table text backends columns lines n false false true = refl
  handler-sent table text backends columns lines n false false false = refl

  parse-sent :
      (table text : Bytes) (backends columns lines : Values go.Float) (n : ℤ)
      (with_filter with_limit with_sort : Bool)
      → parse_request_data_to_request go o (
          through_json go unchanged (
            send_query_data go (codes "table") (
              sent go table
                (list backends)
                (list columns)
                (with_filter, text)
                (with_limit, n)
                (with_sort, list lines))))
        ≡ parse_request_data_to_request go o (
            through_json go unchanged (
              sent go table
                (list backends)
                (list columns)
                (with_filter, text)
                (with_limit, n)
                (with_sort, list lines)))
  unfolding parse_request_data_to_request send_query_data lookup insert equal through_json
      json_value
  parse-sent table text backends columns lines n true true true = refl
  parse-sent table text backends columns lines n true true false = refl
  parse-sent table text backends columns lines n true false true = refl
  parse-sent table text backends columns lines n true false false = refl
  parse-sent table text backends columns lines n false true true = refl
  parse-sent table text backends columns lines n false true false = refl
  parse-sent table text backends columns lines n false false true = refl
  parse-sent table text backends columns lines n false false false = refl

  either-expand :
      (b : Bool) (req : Request go) {asked : Request go}
      → (if b
          then ok (record req { backends_map = map itself store })
          else (expand_backends store req.backends [] >>= λ m.
              ok (record req { backends_map = m })))
        ≡ ok asked
      → record req {
        backends_map = if b then map itself store else known_backends store req.backends [];
      }
        ≡ asked
  either-expand true req eq = ok-injective eq
  either-expand false req eq =
      let (m, is, last) =
        >>=-eq-ok (expand_backends store req.backends [])
          (λ m. ok (record req { backends_map = m })) eq in
      ap (λ n. record req { backends_map = n }) (known_backends-expand store req.backends [] is)
      ∙ ok-injective last

  expand_known-expand :
      (req : Request go) {asked : Request go}
      → expand_requested_backends go store req ≡ ok asked
      → expand_known go o store respond req ≡ asked
  unfolding expand_known expand_requested_backends
  expand_known-expand req eq = either-expand (is_nil req.backends) req eq

  handler-parses :
      (req : Request go) (sub_backends : List Bytes) (text : Bytes) {read : Request go}
      → req.columns ≢ []
      → sub_backends ≢ []
      → has_key req.table o.tables ≡ true
      → parse_request_data_to_request go o
          (through_json go unchanged (sent_for go sub_backends req text))
        ≡ ok read
      → query_handler go o store respond true (
          some (
            through_json go unchanged
              (send_query_data go (codes "table") (sent_for go sub_backends req text))))
        ≡ reply_of (respond (expand_known go o store respond read))
  handler-parses req sub_backends text {read} columns subs known parsed =
      let lists = sent_for-lists go req sub_backends text columns subs in
      let backends = of_list (text_values go sub_backends) in
      let cols = of_list (text_values go req.columns) in
      let lines = of_list (text_values go (sort_texts go req.sort)) in
      let n = req.limit +ℤ req.offset in
      let f = not (is_nil req.filter) in
      let l = not (eqb_ℤ req.limit (pos 0)) in
      let s = not (is_nil req.sort) in
      let d = through_json go unchanged (
        send_query_data go (codes "table")
          (sent go req.table (list backends) (list cols) (f, text) (l, n) (s, list lines))) in
      ap
        (λ ds.
          query_handler go o store respond true
            (some (through_json go unchanged (send_query_data go (codes "table") ds))))
        lists
      ∙ handler-sent req.table text backends cols lines n f l s
      ∙ ap (λ b. query_known go o store respond b req.table d) known
      ∙ ap reply_of (
          bind-ok _ (
            parse-sent req.table text backends cols lines n f l s
            ∙ ap (λ ds. parse_request_data_to_request go o (through_json go unchanged ds))
                (sym lists)
            ∙ parsed))

  -- With the conversions of numbers that Conversions asks for: for a request with a table,
  -- columns, no filter text and no statistics, whose filters were read from a request, a value
  -- that is an integer being at most 2^53 in size, and are printed in lines without blanks at
  -- their ends, whose sort fields have no argument, whose window ends at a number of at most 2^53,
  -- and for a list of backends that is not empty, where package json keeps the texts of the data:
  -- if the other node has the table and the backends, the data for it is built, and its handler
  -- answers this as the request for these backends with the limit up to the end of the window.
  pub query_handler-delegated :
      (json_text : Bytes → Bytes) (conv : Conversions go) (req : Request go)
      (indexed : IsIndexed (table_of o req.table)) (sub_backends : List Bytes) {asked : Request go}
      → req.table ≢ []
      → req.columns ≢ []
      → sub_backends ≢ []
      → req.filter_str ≡ []
      → req.stats ≡ []
      → AreReadable go conv o req.table indexed (filters go req.filter)
      → ArePlainSorts req.sort
      → IsExact (some (req.limit +ℤ req.offset))
      → ((sent_data : RequestData go)
          → build_distributed_request_data go sub_backends req ≡ ok sent_data
          → IsKept go json_text (send_query_data go (codes "table") sent_data))
      → has_key req.table o.tables ≡ true
      → expand_requested_backends go store (delegated go sub_backends req) ≡ ok asked
      → (sent_data : RequestData go) × (build_distributed_request_data go sub_backends req
          ≡ ok sent_data)
        × (query_handler go o store respond true
              (some (through_json go json_text (send_query_data go (codes "table") sent_data)))
            ≡ reply_of (respond asked))
  query_handler-delegated json_text conv req indexed sub_backends table columns subs filter_str
        stats readable plain exact texts known expands =
      let (sent_data, built, parsed) =
        build_distributed_request_data-read go unchanged conv o req indexed sub_backends table
          columns subs filter_str stats readable plain exact (λ d eq. unchanged-IsKept go d) in
      let (text, shows, reads) =
        parse_http_filter_request_data-print_all go conv o req indexed req.filter (codes "Filter")
          readable in
      let built' = build-sent go req sub_backends text table columns filter_str stats shows in
      let same = ok-injective (sym built ∙ built') in
      (
        sent_for go sub_backends req text,
        built',
        ap (λ d. query_handler go o store respond true (some d))
              (through_json-kept go json_text
                (send_query_data go (codes "table") (sent_for go sub_backends req text))
                (texts (sent_for go sub_backends req text) built'))
            ∙ handler-parses req sub_backends text columns subs known (
                ap (λ ds. parse_request_data_to_request go o (through_json go unchanged ds))
                  (sym same)
                ∙ parsed)
            ∙ ap (λ r. reply_of (respond r))
                (expand_known-expand (delegated go sub_backends req) expands),
      )
