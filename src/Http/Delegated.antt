-- ===== src/Http/Delegated.antt =====
-- The request by which a node of the cluster asks another, `buildDistributedRequestData` of lmd/request.go,
-- as the other reads it, `parseRequestDataToRequest` of lmd/http.go.
use lmd.Prelude.{
  is_nil, Bool, true, false, some, List, [], ◌∷◌, Bytes, codes, ok, bind-ok, if◌then◌else◌, not,
  ◌≡◌, ◌≢◌, refl, ap, sym, ◌∙◌,
}
use lmd.Prelude.Int.{ℤ, pos, eqb_ℤ, ◌+ℤ◌}
use lmd.Runtime.{Go}
use lmd.Runtime.Dynamic.{of_list}
use lmd.Objects.{ObjectsType}
use lmd.Objects.Lookup.{IsIndexed}
use lmd.Filter.{filters}
use lmd.Filter.Parse.{table_of}
use lmd.Filter.Print.Value.{Conversions, IsExact}
use lmd.Request.{Request}
use lmd.Http.{
  RequestData, text_values, sort_texts, parse_sorts, parse_request_data_to_request,
  build_distributed_request_data,
}
use lmd.Http.Json.{through_json, through_json-kept, IsKept, unchanged}
use lmd.Http.Filters.All.{AreReadable}
use lmd.Http.Filters.Read.{parse_http_filter_request_data-print_all}
use lmd.Http.Sorts.{ArePlainSorts, unplaced, to_list-items, parse_sorts-texts, read_strings}
use lmd.Http.Sent.{started, read_sent, delegated, sent_for, build-sent, sent_for-lists}

module _ (go : Go) where
  -- an optional entry, that is there unless the list is empty
  unless_empty :
      {A R : Type 0} (xs : List A) (read other : R)
      → (xs ≡ [] → read ≡ other)
      → (if not (is_nil xs) then read else other) ≡ read
  unless_empty [] read other same = sym (same refl)
  unless_empty (x ∷ xs) read other same = refl

  read_limit :
      (conv : Conversions go) (given : Bool) (n : ℤ)
      → IsExact (some n)
      → (if not given then go.to_int (go.of_int n) else pos 0) ≡ (if given then pos 0 else n)
  read_limit conv true n exact = refl
  read_limit conv false n exact = conv.to_int-of_int n exact

  -- With the conversions of numbers that Conversions asks for: for a request with a table,
  -- columns, no filter text and no statistics, whose filters were read from a request, a value
  -- that is an integer being at most 2^53 in size, and are printed in lines without blanks at
  -- their ends, whose sort fields have no argument, whose window ends at a number of at most 2^53,
  -- and for a list of backends that is not empty, where package json keeps the texts of the data:
  -- the data for another node is built, and the other node reads from it, behind JSON, a request
  -- with the same table, columns, filters and sort fields, but that these have no index yet, these
  -- backends and the limit up to the end of the window.
  pub build_distributed_request_data-read :
      (json_text : Bytes → Bytes) (conv : Conversions go) (o : ObjectsType) (req : Request go)
      (indexed : IsIndexed (table_of o req.table)) (sub_backends : List Bytes)
      → req.table ≢ []
      → req.columns ≢ []
      → sub_backends ≢ []
      → req.filter_str ≡ []
      → req.stats ≡ []
      → AreReadable go conv o req.table indexed (filters go req.filter)
      → ArePlainSorts req.sort
      → IsExact (some (req.limit +ℤ req.offset))
      → ((sent_data : RequestData go)
          → build_distributed_request_data go sub_backends req ≡ ok sent_data
          → IsKept go json_text sent_data)
      → (sent_data : RequestData go) × (build_distributed_request_data go sub_backends req
          ≡ ok sent_data)
        × (parse_request_data_to_request go o (through_json go json_text sent_data)
            ≡ ok (delegated go sub_backends req))
  build_distributed_request_data-read json_text conv o req indexed sub_backends table columns subs
        filter_str stats readable plain exact texts =
      let limits : Bool × ℤ = (not (eqb_ℤ req.limit (pos 0)), req.limit +ℤ req.offset) in
      let start = started go req.table limits in
      let (text, shows, reads) =
        parse_http_filter_request_data-print_all go conv o start indexed req.filter (codes "Filter")
          readable in
      let sorts =
        ap (λ vs. parse_sorts go o vs []) (to_list-items go (sort_texts go req.sort))
        ∙ parse_sorts-texts go o req.sort [] plain in
      let built = build-sent go req sub_backends text table columns filter_str stats shows in
      (
        sent_for go sub_backends req text,
        built,
        ap (parse_request_data_to_request go o) (
              through_json-kept go json_text (sent_for go sub_backends req text)
                (texts (sent_for go sub_backends req text) built))
            ∙ ap (λ d. parse_request_data_to_request go o (through_json go unchanged d))
                (sent_for-lists go req sub_backends text columns subs)
            ∙ read_sent go o req.table text (of_list (text_values go sub_backends))
                (of_list (text_values go req.columns))
                (of_list (text_values go (sort_texts go req.sort))) (req.limit +ℤ req.offset)
                (not (is_nil req.filter)) (not (eqb_ℤ req.limit (pos 0))) (not (is_nil req.sort))
            ∙ bind-ok _ (
                unless_empty req.filter _ _
                  (λ none. reads ∙ ap (λ fs. ok (record start { filter = fs })) none)
                ∙ reads)
            ∙ bind-ok _ (
                unless_empty req.sort _ _ (λ none. sorts ∙ ap (λ ss. ok (unplaced ss)) none)
                ∙ sorts)
            ∙ bind-ok _ (read_strings go req.columns)
            ∙ bind-ok _ (read_strings go sub_backends)
            ∙ ap (λ n. ok (record (delegated go sub_backends req) { limit = n }))
                (read_limit conv (eqb_ℤ req.limit (pos 0)) (req.limit +ℤ req.offset) exact),
      )
