-- ===== src/Http/Tests.antt =====
-- The theorems about the requests between nodes at a concrete request.
use mathlib.Core.Path.{subst}
use lmd.Prelude.{
  ℕ, Bool, true, false, Option, none, some, List, [], ◌∷◌, ◌++◌, Bytes, String, codes, Result, ok,
  ◌≡◌, ◌≢◌, refl, arith, ◌∙◌, sym, ok-injective, ltb, if◌then◌else◌,
}
use lmd.Prelude.Int.{pos, ◌+ℤ◌}
use lmd.Runtime.Dynamic.{str}
use lmd.Runtime.Sample.{sample}
use lmd.Objects.{
  Column, ColumnType, Table, ObjectsType, new_table, add_column_object, string_col, int_col,
  static_update, dynamic_update, no_flags,
}
use lmd.Objects.Lookup.{IsIndexed, new_table-IsIndexed, add_column_object-IsIndexed}
use lmd.Text.Decimal.{atoi, atoi-format_int}
use lmd.Text.Decimal.Shape.{atoi-InRange}
use lmd.Filter.{
  Condition, Filter, filter, Filters, nil, cons, no_group, or, Operator, equal_to, greater_than,
  no_condition, filters,
}
use lmd.Filter.Parse.{table_of, parse_condition}
use lmd.Filter.Print.{operator_text, str_value}
use lmd.Filter.Print.Value.{IsExact, Conversions, format_int-head}
use lmd.Request.{Request, no_request, asc}
use lmd.Http.{
  RequestData, build_distributed_request_data, parse_request_data_to_request,
  parse_http_filter_request_data, print_all,
}
use lmd.Http.Filters.{IsRead}
use lmd.Http.Filters.All.{AreReadable}
use lmd.Http.Filters.Read.{parse_http_filter_request_data-print_all}
use lmd.Http.Delegated.{build_distributed_request_data-read}
use lmd.Http.Sent.{delegated, sent_for}
use lmd.Http.Json.{through_json, IsKept, AreTextsKept}
use lmd.Prelude.Dict.{Dict}
use lmd.BadRequest.{Failure}
use lmd.Http.Query.{query_handler, send_query_data, reply_of}
use lmd.Http.Query.Answered.{query_handler-delegated}

conv : Conversions sample
conv = record {
  to_int-of_int = λ i h. refl;
  parse-format = λ s f h. atoi-format_int f (atoi-InRange s f h);
  format_some = format_int-head;
}

abbrev column : String → ColumnType → Column
column name t = record {
  name = codes name;
  col_type = t;
  index = 0;
  ref_index = 0;
  ref_col_index = 0;
  update = static_update;
  optional = no_flags;
  description = [];
}

abbrev hosts : Table
hosts =
    add_column_object (column "state" int_col)
      (add_column_object (column "name" string_col) (new_table (codes "hosts")))

abbrev objects : ObjectsType
objects = record { tables = (codes "hosts", hosts) ∷ []; order = codes "hosts" ∷ [] }

indexed : IsIndexed (table_of objects (codes "hosts"))
unfolding table_of lmd.Prelude.Dict.lookup lmd.Prelude.equal
indexed =
    add_column_object-IsIndexed (column "state" int_col) _ (
      add_column_object-IsIndexed (column "name" string_col) _
        (new_table-IsIndexed (codes "hosts")))

abbrev named : Condition sample
named = record (no_condition sample) {
  column = column "name" string_col;
  operator = equal_to;
  str_value = codes "a";
}

abbrev failing : Condition sample
failing = record (no_condition sample) {
  column = record (column "state" int_col) { index = 1 };
  operator = greater_than;
  float_value = pos 1;
}

-- `state >= 01` is read, and `state >= 1` is printed
failing-IsRead : IsRead sample conv objects (codes "hosts") indexed failing
unfolding parse_condition operator_text str_value atoi lmd.Objects.add_column_object
    lmd.Prelude.Dict.lookup lmd.Prelude.equal lmd.Text.trim_space lmd.Filter.Parse.parse_operator
    lmd.Filter.Parse.find_column lmd.Prelude.Dict.insert lmd.Filter.Parse.Value.set_filter_value
failing-IsRead = (
  (codes "Filter: state >= 01", codes "state", codes ">=", codes "01", omega arith, refl),
  refl,
  omega arith,
  (codes ">=", codes "1", refl, refl, (omega arith, refl)),
)

named-IsRead : IsRead sample conv objects (codes "hosts") indexed named
unfolding parse_condition operator_text str_value atoi lmd.Objects.add_column_object
    lmd.Prelude.Dict.lookup lmd.Prelude.equal lmd.Text.trim_space lmd.Filter.Parse.parse_operator
    lmd.Filter.Parse.find_column lmd.Prelude.Dict.insert lmd.Filter.Parse.Value.set_filter_value
named-IsRead = (
  (codes "Filter: name = a", codes "name", codes "=", codes "a", tt, refl),
  refl,
  omega arith,
  (codes "=", codes "a", refl, refl, (omega arith, refl)),
)

abbrev either : List (Filter sample)
either =
    filter (no_condition sample)
      (cons (filter named nil no_group) (cons (filter failing nil no_group) nil)) or
    ∷ filter named nil no_group
    ∷ []

either-AreReadable : AreReadable sample conv objects (codes "hosts") indexed (filters sample either)
unfolding AreReadable filters lmd.Filter.filter_count
either-AreReadable = (
  (refl, (λ e. cc e), omega arith, (named-IsRead, refl), ((failing-IsRead, refl), tt)),
  ((named-IsRead, refl), tt),
)

-- a window of ten rows from the fifth, sorted by name
abbrev asked : Request sample
asked = record (no_request sample) {
  table = codes "hosts";
  columns = codes "name" ∷ codes "state" ∷ [];
  filter = either;
  limit = pos 10;
  offset = pos 5;
  sort = record { name = codes "name"; direction = asc; index = pos 1; args = [] } ∷ [];
}

is_exact : IsExact (some (asked.limit +ℤ asked.offset))
unfolding ◌+ℤ◌
is_exact = omega arith

parse_http_filter_request_data-print_all_example :
    (printed : Bytes) × (print_all sample [] either ≡ ok printed)
    × (parse_http_filter_request_data sample objects asked (str printed) (codes "Filter")
        ≡ ok (record asked { filter = asked.filter ++ either }))
parse_http_filter_request_data-print_all_example =
    parse_http_filter_request_data-print_all sample conv objects asked indexed either
      (codes "Filter") either-AreReadable

-- package json, for texts of ASCII: other bytes are replaced
abbrev ascii_text : Bytes → Bytes
ascii_text [] = []
ascii_text (c ∷ s) = (if ltb c 128 then c ∷ [] else 239 ∷ 191 ∷ 189 ∷ []) ++ ascii_text s

abbrev filter_text : Bytes
filter_text = codes "Filter: name = a\nFilter: state >= 1\nOr: 2\nFilter: name = a\n"

abbrev asked_data : RequestData sample
asked_data = sent_for sample (codes "a" ∷ []) asked filter_text

builds : build_distributed_request_data sample (codes "a" ∷ []) asked ≡ ok asked_data
unfolding build_distributed_request_data print_all lmd.Filter.Print.print_filter
    lmd.Filter.Print.condition_line lmd.Filter.Print.condition_text operator_text str_value
    lmd.Text.Decimal.format_ℕ
builds = refl

named_data-IsKept : IsKept sample ascii_text (send_query_data sample (codes "table") asked_data)
unfolding IsKept AreTextsKept send_query_data lmd.Prelude.Dict.insert lmd.Runtime.Dynamic.of_list
    lmd.Prelude.equal
named_data-IsKept = (
  refl,
  refl,
  (
    refl,
    (refl, tt),
    (
      refl,
      tt,
      (
        refl,
        (refl, (refl, tt)),
        (refl, refl, (refl, tt, (refl, (refl, tt), (refl, refl, (refl, refl, tt))))),
      ),
    ),
  ),
)

asked_data-IsKept : IsKept sample ascii_text asked_data
unfolding IsKept AreTextsKept lmd.Runtime.Dynamic.of_list
asked_data-IsKept = (
  refl,
  refl,
  (
    refl,
    (refl, tt),
    (
      refl,
      tt,
      (refl, (refl, (refl, tt)), (refl, refl, (refl, tt, (refl, (refl, tt), (refl, refl, tt))))),
    ),
  ),
)

build_distributed_request_data-read_example :
    (sent_data : RequestData sample) × (build_distributed_request_data sample (codes "a" ∷ []) asked
      ≡ ok sent_data)
    × (parse_request_data_to_request sample objects (through_json sample ascii_text sent_data)
        ≡ ok (delegated sample (codes "a" ∷ []) asked))
unfolding lmd.Text.to_lower
build_distributed_request_data-read_example =
    build_distributed_request_data-read sample ascii_text conv objects asked indexed
      (codes "a" ∷ []) (λ e. cc e) (λ e. cc e) (λ e. cc e) refl refl either-AreReadable
      ((omega arith, refl, refl), tt) is_exact
      (λ d eq. subst (IsKept sample ascii_text) (ok-injective (sym builds ∙ eq)) asked_data-IsKept)

-- the names of the two sites, and a reply
abbrev store : Dict Bytes
store = (codes "a", codes "Site A") ∷ (codes "b", codes "Site B") ∷ []

abbrev respond : Request sample → Result Failure Bytes
respond req = ok req.table

query_handler-delegated_example :
    (sent_data : RequestData sample) × (build_distributed_request_data sample (codes "a" ∷ []) asked
      ≡ ok sent_data)
    × (query_handler sample objects store respond true
          (some (through_json sample ascii_text (send_query_data sample (codes "table") sent_data)))
        ≡ reply_of (ok (codes "hosts")))
unfolding lmd.Text.to_lower lmd.Prelude.Dict.lookup lmd.Prelude.equal
    lmd.Response.Columns.expand_requested_backends
query_handler-delegated_example =
    query_handler-delegated sample objects store respond ascii_text conv asked indexed
      (codes "a" ∷ []) (λ e. cc e) (λ e. cc e) (λ e. cc e) refl refl either-AreReadable
      ((omega arith, refl, refl), tt) is_exact
      (λ d eq.
        subst (λ t. IsKept sample ascii_text (send_query_data sample (codes "table") t))
          (ok-injective (sym builds ∙ eq)) named_data-IsKept)
      refl refl
