-- ===== src/Http.antt =====
-- Requests as data: `parseRequestDataToRequest` and `parseHTTPFilterRequestData` of lmd/http.go, and
-- `buildDistributedRequestData` of lmd/request.go, by which the nodes of a cluster ask one another.
pub mod Filters
mod Json
mod Sorts
mod Sent
mod Delegated
mod Query
mod Tests
use lmd.Prelude.{
  is_nil, Bool, true, false, ◌&&◌, ◌||◌, not, Option, none, some, List, [], ◌∷◌, ◌++◌, Bytes, codes,
  Result, ok, err, ◌>>=◌, if◌then◌else◌,
}
use lmd.Prelude.Int.{ℤ, pos, eqb_ℤ, ◌+ℤ◌}
use lmd.Prelude.Dict.{Dict, lookup}
use lmd.Runtime.{Go, Panic, raised, type_assertion}
use lmd.Runtime.Dynamic.{
  Value, Values, null, bool, float, int, str, list, dict, nil, cons, to_list, of_list,
}
use lmd.BadRequest.{Failure, panicked}
use lmd.Objects.{ObjectsType}
use lmd.Text.{split, trim_space}
use lmd.Filter.{Filter}
use lmd.Filter.Print.{print_filter}
use lmd.Request.{Request, no_request, SortDirection, asc, desc, SortField}
use lmd.Request.Sort.{parse_sort_header}
use lmd.Request.Header.{parse_request_header_line, parse_output_format}

-- a map of request data
module _ (go : Go) where
  open go use {Float, of_int, to_int}

  abbrev pub RequestData : Type 0
  RequestData = Dict (Value Float)

  abbrev fault {ℓ} : {A : Type ℓ} → Result Failure A
  fault = err (panicked type_assertion)

  -- .(string), .(bool), .(float64) and .([]interface{})
  abbrev pub as_string : Value Float → Result Failure Bytes
  as_string (str s) = ok s
  as_string _ = fault

  abbrev as_bool : Value Float → Result Failure Bool
  as_bool (bool b) = ok b
  as_bool _ = fault

  abbrev as_int : Value Float → Result Failure ℤ
  as_int (float f) = ok (to_int f)
  as_int _ = fault

  abbrev as_list : Value Float → Result Failure (List (Value Float))
  as_list (list vs) = ok (to_list vs)
  as_list _ = fault

  -- a value if the key is there, or else what there was
  abbrev pub if_given {ℓ} :
      {A : Type ℓ} → Bytes → RequestData → A → (Value Float → Result Failure A) → Result Failure A
  if_given key req_data old read = elim (lookup key req_data) [ none ↦ ok old | some v ↦ read v ]

  unfoldable pub strings : List (Value Float) → Result Failure (List Bytes)
  strings [] = ok []
  strings (v ∷ vs) = do s ← as_string v; rest ← strings vs; ok (s ∷ rest)

  -- the lines of a value that is a list of lines
  unfoldable pub prefixed_lines : Bytes → List (Value Float) → Result Failure (List Bytes)
  prefixed_lines prefix [] = ok []
  prefixed_lines prefix (v ∷ vs) = do
    s ← as_string v
    rest ← prefixed_lines prefix vs
    ok ((prefix ++ (codes ": " ++ (s ++ codes "\n"))) ∷ rest)

  unfoldable pub filter_lines : Bytes → Value Float → Result Failure (List Bytes)
  unfolding prefixed_lines to_list
  filter_lines prefix (list vs) = prefixed_lines prefix (to_list vs)
  filter_lines prefix (str s) = ok (split s b'\n')
  filter_lines prefix _ = ok []

  module _ (o : ObjectsType) where
    -- the loop over the lines
    unfoldable pub parse_lines : List Bytes → Request go → Result Failure (Request go)
    parse_lines [] req = ok req
    parse_lines (line ∷ lines) req =
        let rest = parse_lines lines req in
        let parsed = (do
          req' ← parse_request_header_line go o (trim_space line) req
          parse_lines lines req') in
        if is_nil (trim_space line) then rest else parsed

    unfoldable pub parse_http_filter_request_data :
        Request go → Value Float → Bytes → Result Failure (Request go)
    unfolding filter_lines parse_lines
    parse_http_filter_request_data req v prefix = do
      lines ← filter_lines prefix v
      parse_lines lines req

    unfoldable pub parse_sorts :
        List (Value Float) → List SortField → Result Failure (List SortField)
    parse_sorts [] sorts = ok sorts
    parse_sorts (v ∷ vs) sorts = do
      line ← as_string v
      sorts' ← parse_sort_header sorts line
      parse_sorts vs sorts'

    abbrev sort_lines : Value Float → List (Value Float)
    sort_lines (list vs) = to_list vs
    sort_lines _ = []

    -- `SendStatsData`, if there are statistics
    abbrev mark_stats : Request go → Request go
    mark_stats req = record req {
      send_stats_data = if is_nil req.stats then req.send_stats_data else true;
    }

    unfoldable pub parse_request_data_to_request : RequestData → Result Failure (Request go)
    unfolding lookup strings to_list parse_http_filter_request_data parse_sorts
    parse_request_data_to_request req_data = do
      table ← elim (lookup (codes "table") req_data) [ none ↦ fault | some v ↦ as_string v ]
      header ← if_given (codes "sendcolumnsheader") req_data true as_bool
      offset ← if_given (codes "offset") req_data (pos 0) as_int
      limit ← if_given (codes "limit") req_data (pos 0) as_int
      let start = record (no_request go) {
        table = table;
        send_columns_header = header;
        offset = offset;
        limit = limit;
      }
      filtered ←
          if_given (codes "filter") req_data start
            λ v. parse_http_filter_request_data start v (codes "Filter")
      counted ← if_given (codes "stats") req_data filtered λ v. do
        req ← parse_http_filter_request_data filtered v (codes "Stats")
        ok (mark_stats req)
      sort ←
          if_given (codes "sort") req_data counted.sort λ v. parse_sorts (sort_lines v) counted.sort
      columns ← if_given (codes "columns") req_data [] λ v. do vs ← as_list v; strings vs
      format ←
          if_given (codes "outputformat") req_data counted.output_format
            λ v. do s ← as_string v; parse_output_format s
      backends ← if_given (codes "backends") req_data [] λ v. do vs ← as_list v; strings vs
      ok (record counted {
        sort = sort;
        columns = columns;
        output_format = format;
        backends = backends;
      })

  -- a []string, which is null in JSON if it is nil
  abbrev pub text_values : List Bytes → List (Value Float)
  text_values [] = []
  text_values (s ∷ ss) = str s ∷ text_values ss

  abbrev of_strings : List Bytes → Value Float
  of_strings [] = null
  of_strings (s ∷ ss) = list (of_list (text_values (s ∷ ss)))

  abbrev direction_text : SortDirection → Bytes
  direction_text asc = codes "asc"
  direction_text desc = codes "desc"

  -- The `Args` of a sort field are not part of its line.
  abbrev pub sort_texts : List SortField → List Bytes
  sort_texts [] = []
  sort_texts (s ∷ ss) = (s.name ++ b' ' ∷ direction_text s.direction) ∷ sort_texts ss

  unfoldable pub print_all : Bytes → List (Filter go) → Result Panic Bytes
  unfolding print_filter
  print_all prefix [] = ok []
  print_all prefix (f ∷ fs) = do
    first ← print_filter go prefix f
    rest ← print_all prefix fs
    ok (first ++ rest)

  abbrev optional : Bool → Bytes → Value Float → RequestData
  optional given key v = if given then (key, v) ∷ [] else []

  unfoldable pub build_distributed_request_data : List Bytes → Request go → Result Panic RequestData
  unfolding print_all of_list ◌+ℤ◌
  build_distributed_request_data sub_backends req = do
    columns ←
        if is_nil req.columns && is_nil req.stats
        then err raised
        else ok (optional (not (is_nil req.columns)) (codes "columns") (of_strings req.columns))
    filter ← print_all [] req.filter
    stats ← print_all (codes "Stats") req.stats
    ok (
        optional (not (is_nil req.table)) (codes "table") (str req.table)
        ++ ((codes "backends", of_strings sub_backends)
            ∷ (codes "sendcolumnsheader", bool false)
            ∷ (columns
                ++ (optional (not (is_nil req.filter) || not (is_nil req.filter_str))
                      (codes "filter") (str (filter ++ req.filter_str))
                    ++ (optional (not (is_nil req.stats)) (codes "stats") (str stats)
                        ++ (optional (not (eqb_ℤ req.limit (pos 0))) (codes "limit")
                              (int (req.limit +ℤ req.offset))
                            ++ (optional (not (is_nil req.sort)) (codes "sort")
                                  (of_strings (sort_texts req.sort))
                                ++ (codes "outputformat", str (codes "wrapped_json")) ∷ [])))))))
