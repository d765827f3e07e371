-- ===== src/Http/Sent.antt =====
-- The entries of the data that `buildDistributedRequestData` of lmd/request.go makes, and what
-- `parseRequestDataToRequest` of lmd/http.go does with them.
use lmd.Prelude.{
  is_nil, Bool, true, false, List, [], ◌∷◌, ◌++◌, Bytes, codes, ok, ◌>>=◌, append-nil,
  if◌then◌else◌, not, ◌||◌, ◌≡◌, ◌≢◌, refl, ap, ◌∙◌, equal,
}
use lmd.Prelude.Int.{ℤ, pos, eqb_ℤ, ◌+ℤ◌}
use lmd.Prelude.Dict.{lookup}
use lmd.Runtime.{Go}
use lmd.Runtime.Dynamic.{Value, Values, str, list, int, bool, to_list, of_list}
use lmd.Objects.{ObjectsType}
use lmd.Request.{Request, no_request, SortField}
use lmd.Request.Header.{parse_output_format}
use lmd.Http.{
  RequestData, strings, text_values, of_strings, sort_texts, optional,
  parse_http_filter_request_data, parse_sorts, parse_request_data_to_request,
  build_distributed_request_data, print_all,
}
use lmd.Http.Json.{through_json, json_value, json_values, unchanged}
use lmd.Http.Sorts.{unplaced}

module _ (go : Go) where
  -- the entries of the request that may be missing
  abbrev Optional : Type 0
  Optional = (Bool × Value go.Float) × (Bool × ℤ) × (Bool × Value go.Float)

  abbrev pub sent :
      Bytes
      → Value go.Float
      → Value go.Float
      → Bool × Bytes
      → Bool × ℤ
      → Bool × Value go.Float
      → RequestData go
  sent table backends columns (with_filter, text) (with_limit, n) (with_sort, lines) =
      (codes "table", str table)
      ∷ (codes "backends", backends)
      ∷ (codes "sendcolumnsheader", bool false)
      ∷ (codes "columns", columns)
      ∷ (optional go with_filter (codes "filter") (str text)
          ++ (optional go with_limit (codes "limit") (int n)
              ++ (optional go with_sort (codes "sort") lines
                  ++ (codes "outputformat", str (codes "wrapped_json")) ∷ [])))

  abbrev pub started : Bytes → Bool × ℤ → Request go
  started table (with_limit, n) = record (no_request go) {
    table = table;
    send_columns_header = false;
    limit = if with_limit then go.to_int (go.of_int n) else pos 0;
  }

  pub read_sent :
      (o : ObjectsType) (table text : Bytes) (backends columns lines : Values go.Float) (n : ℤ)
      (with_filter with_limit with_sort : Bool)
      → parse_request_data_to_request go o (
          through_json go unchanged (
            sent table
              (list backends)
              (list columns)
              (with_filter, text)
              (with_limit, n)
              (with_sort, list lines)))
        ≡ (do
          let start = started table (with_limit, n)
          filtered ←
              (if with_filter
                then parse_http_filter_request_data go o start (str text) (codes "Filter")
                else ok start)
          sort ←
              (if with_sort
                then parse_sorts go o (to_list (json_values go unchanged lines)) filtered.sort
                else ok filtered.sort)
          cs ← strings go (to_list (json_values go unchanged columns))
          bs ← strings go (to_list (json_values go unchanged backends))
          ok (record filtered {
            sort = sort;
            columns = cs;
            output_format = codes "wrapped_json";
            backends = bs;
          }))
  unfolding parse_request_data_to_request lookup equal parse_output_format through_json json_value
  read_sent o table text backends columns lines n true true true = refl
  read_sent o table text backends columns lines n true true false = refl
  read_sent o table text backends columns lines n true false true = refl
  read_sent o table text backends columns lines n true false false = refl
  read_sent o table text backends columns lines n false true true = refl
  read_sent o table text backends columns lines n false true false = refl
  read_sent o table text backends columns lines n false false true = refl
  read_sent o table text backends columns lines n false false false = refl

  is_nil-false : {A : Type 0} (xs : List A) → xs ≢ [] → is_nil xs ≡ false
  is_nil-false [] h = absurd (h refl)
  is_nil-false (x ∷ xs) h = refl

  of_strings-list :
      (ss : List Bytes) → ss ≢ [] → of_strings go ss ≡ list (of_list (text_values go ss))
  of_strings-list [] h = absurd (h refl)
  of_strings-list (s ∷ ss) h = refl

  -- The other node sees a request of its own: no header line, and the rows up to the end of the window.
  abbrev pub delegated : List Bytes → Request go → Request go
  delegated sub_backends req = record (no_request go) {
    table = req.table;
    columns = req.columns;
    filter = req.filter;
    limit = if eqb_ℤ req.limit (pos 0) then pos 0 else req.limit +ℤ req.offset;
    sort = unplaced req.sort;
    output_format = codes "wrapped_json";
    backends = sub_backends;
    send_columns_header = false;
  }

  abbrev pub sent_for : List Bytes → Request go → Bytes → RequestData go
  sent_for sub_backends req text =
      sent req.table (of_strings go sub_backends) (of_strings go req.columns)
        (not (is_nil req.filter), text) (not (eqb_ℤ req.limit (pos 0)), req.limit +ℤ req.offset)
        (not (is_nil req.sort), of_strings go (sort_texts go req.sort))

  or-false : (b : Bool) → (b || false) ≡ b
  or-false true = refl
  or-false false = refl

  pub build-sent :
      (req : Request go) (sub_backends : List Bytes) (text : Bytes)
      → req.table ≢ []
      → req.columns ≢ []
      → req.filter_str ≡ []
      → req.stats ≡ []
      → print_all go [] req.filter ≡ ok text
      → build_distributed_request_data go sub_backends req ≡ ok (sent_for sub_backends req text)
  unfolding build_distributed_request_data print_all
  build-sent req sub_backends text table columns filter_str stats printed =
      rw
        (
          is_nil-false req.table table,
          is_nil-false req.columns columns,
          filter_str,
          stats,
          printed,
          append-nil text,
        )
        (ap
          (λ b. ok (
            sent req.table (of_strings go sub_backends) (of_strings go req.columns) (b, text)
              (not (eqb_ℤ req.limit (pos 0)), req.limit +ℤ req.offset)
              (not (is_nil req.sort), of_strings go (sort_texts go req.sort))))
          (or-false (not (is_nil req.filter))))

  sort_lists :
      (table : Bytes) (backends columns : Value go.Float) (f : Bool × Bytes) (l : Bool × ℤ)
      (ss : List SortField)
      → sent table backends columns f l (not (is_nil ss), of_strings go (sort_texts go ss))
        ≡ sent table backends columns f l
            (not (is_nil ss), list (of_list (text_values go (sort_texts go ss))))
  sort_lists table backends columns f l [] = refl
  sort_lists table backends columns f l (s ∷ ss) = refl

  pub sent_for-lists :
      (req : Request go) (sub_backends : List Bytes) (text : Bytes)
      → req.columns ≢ []
      → sub_backends ≢ []
      → sent_for sub_backends req text
        ≡ sent req.table
            (list (of_list (text_values go sub_backends)))
            (list (of_list (text_values go req.columns)))
            (not (is_nil req.filter), text)
            (not (eqb_ℤ req.limit (pos 0)), req.limit +ℤ req.offset)
            (not (is_nil req.sort), list (of_list (text_values go (sort_texts go req.sort))))
  sent_for-lists req sub_backends text columns subs =
      let f : Bool × Bytes = (not (is_nil req.filter), text) in
      let l : Bool × ℤ = (not (eqb_ℤ req.limit (pos 0)), req.limit +ℤ req.offset) in
      ap
        (λ v.
          sent req.table v (of_strings go req.columns) f l
            (not (is_nil req.sort), of_strings go (sort_texts go req.sort)))
        (of_strings-list sub_backends subs)
      ∙ ap
          (λ v.
            sent req.table (list (of_list (text_values go sub_backends))) v f l
              (not (is_nil req.sort), of_strings go (sort_texts go req.sort)))
          (of_strings-list req.columns columns)
      ∙ sort_lists req.table _ _ f l req.sort
