-- ===== src/Request/Header.antt =====
-- `ParseRequestHeaderLine` of lmd/request.go.
use lmd.Prelude.{
  Bool, true, false, none, some, List, [], ◌∷◌, Bytes, codes, equal, Result, ok, err, ◌>>=◌,
  if◌then◌else◌,
}
use lmd.Prelude.Int.{ℤ, pos, leb_ℤ}
use lmd.Runtime.{Go}
use lmd.BadRequest.{
  Failure, bad, bad_header_line, unrecognized_header, header_not_positive,
  unrecognized_response_format, unrecognized_output_format, not_on_or_off,
}
use lmd.Objects.{ObjectsType}
use lmd.Text.{split_n, split, to_lower}
use lmd.Text.Decimal.{atoi}
use lmd.Filter.{Filter}
use lmd.Filter.Parse.{parse_filter, parse_stats, parse_filter_op, count_last}
use lmd.Request.{Request}
use lmd.Request.Sort.{parse_sort_header}

-- the cases of the switch
pub data Keyword : Type 0 where
  filter and or stats stats_and stats_or sort limit offset backends columns : Keyword
  response_header output_format wait_timeout wait_trigger wait_object wait_condition : Keyword
  keep_alive unrecognized : Keyword

unfoldable pub keyword : Bytes → Keyword
keyword s =
    if equal s (codes "filter")
    then filter
    else if equal s (codes "and")
    then and
    else if equal s (codes "or")
    then or
    else if equal s (codes "stats")
    then stats
    else if equal s (codes "statsand")
    then stats_and
    else if equal s (codes "statsor")
    then stats_or
    else if equal s (codes "sort")
    then sort
    else if equal s (codes "limit")
    then limit
    else if equal s (codes "offset")
    then offset
    else if equal s (codes "backends")
    then backends
    else if equal s (codes "columns")
    then columns
    else if equal s (codes "responseheader")
    then response_header
    else if equal s (codes "outputformat")
    then output_format
    else if equal s (codes "waittimeout")
    then wait_timeout
    else if equal s (codes "waittrigger")
    then wait_trigger
    else if equal s (codes "waitobject")
    then wait_object
    else if equal s (codes "waitcondition")
    then wait_condition
    else if equal s (codes "keepalive")
    then keep_alive
    else unrecognized

-- the header, the value and the least value
unfoldable pub parse_int_header : Bytes → Bytes → ℤ → Result Failure ℤ
parse_int_header header value min_value = elim (atoi value) [
  | none ↦ err (bad (header_not_positive header))
  | some i ↦ if leb_ℤ min_value i then ok i else err (bad (header_not_positive header))
]

unfoldable pub parse_response_header : Bytes → Result Failure Bool
parse_response_header value =
    if equal value (codes "fixed16") then ok true else err (bad unrecognized_response_format)

unfoldable pub parse_output_format : Bytes → Result Failure Bytes
parse_output_format value =
    if equal value (codes "wrapped_json")
    then ok value
    else if equal value (codes "json")
    then ok value
    else err (bad unrecognized_output_format)

-- the line and the value
unfoldable pub parse_on_off : Bytes → Bytes → Result Failure Bool
parse_on_off line value =
    if equal value (codes "on")
    then ok true
    else if equal value (codes "off")
    then ok false
    else err (bad (not_on_or_off line))

module _ (go : Go) where
  -- the operator, the value, the line and the stack
  unfoldable pub parse_stats_op :
      Bytes → Bytes → Bytes → List (Filter go) → Result Failure (List (Filter go))
  unfolding parse_filter_op count_last
  parse_stats_op op value line stack = do
    grouped ← parse_filter_op go op value line stack
    count_last go grouped

  module _ (o : ObjectsType) (line : Bytes) where
    -- the keyword as it stands in the line, in lower case, and the value
    unfoldable pub header_case : Keyword → Bytes → Bytes → Request go → Result Failure (Request go)
    header_case filter header value req = do
      fs ← parse_filter go o value line req.table req.filter
      ok (record req { filter = fs })
    header_case and header value req = do
      fs ← parse_filter_op go header value line req.filter
      ok (record req { filter = fs })
    header_case or header value req = do
      fs ← parse_filter_op go header value line req.filter
      ok (record req { filter = fs })
    header_case stats header value req = do
      fs ← parse_stats go o value line req.table req.stats
      ok (record req { stats = fs })
    header_case stats_and header value req = do
      fs ← parse_stats_op (codes "and") value line req.stats
      ok (record req { stats = fs })
    header_case stats_or header value req = do
      fs ← parse_stats_op (codes "or") value line req.stats
      ok (record req { stats = fs })
    header_case sort header value req = do
      s ← parse_sort_header req.sort value
      ok (record req { sort = s })
    header_case limit header value req = do
      i ← parse_int_header header value (pos 1)
      ok (record req { limit = i })
    header_case offset header value req = do
      i ← parse_int_header header value (pos 0)
      ok (record req { offset = i })
    header_case backends header value req = ok (record req { backends = split value b' ' })
    header_case columns header value req = ok (record req { columns = split value b' ' })
    header_case response_header header value req = do
      b ← parse_response_header value
      ok (record req { response_fixed16 = b })
    header_case output_format header value req = do
      f ← parse_output_format value
      ok (record req { output_format = f })
    header_case wait_timeout header value req = do
      i ← parse_int_header header value (pos 1)
      ok (record req { wait_timeout = i })
    header_case wait_trigger header value req = ok (record req { wait_trigger = value })
    header_case wait_object header value req = ok (record req { wait_object = value })
    header_case wait_condition header value req = do
      fs ← parse_filter go o value line req.table req.wait_condition
      ok (record req { wait_condition = fs })
    header_case keep_alive header value req = do
      b ← parse_on_off line value
      ok (record req { keep_alive = b })
    header_case unrecognized header value req = err (bad (unrecognized_header line))

    abbrev pub header_parts : List Bytes → Request go → Result Failure (Request go)
    header_parts (name ∷ value ∷ []) req =
        header_case (keyword (to_lower name)) (to_lower name) value req
    header_parts _ req = err (bad (bad_header_line line))

    unfoldable pub parse_request_header_line : Request go → Result Failure (Request go)
    unfolding header_case
    parse_request_header_line req = header_parts (split_n line (codes ": ") 2) req
