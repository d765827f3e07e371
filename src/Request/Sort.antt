-- ===== src/Request/Sort.antt =====
-- `parseSortHeader` of lmd/request.go, and `IsDefaultSortOrder` of lmd/objects.go.
use lmd.Prelude.{
  Bool, true, false, ◌&&◌, not, Option, none, some, List, [], ◌∷◌, ◌++◌, Bytes, codes, equal,
  Result, ok, err, if◌then◌else◌,
}
use lmd.Prelude.Int.{pos}
use lmd.BadRequest.{Failure, bad, invalid_sort_header, invalid_sort_direction}
use lmd.Text.{split_n, to_lower, to_upper}
use lmd.Request.{SortDirection, asc, desc, SortField}

abbrev direction_of : Bytes → Option SortDirection
direction_of s =
    if equal s (codes "asc") then some asc else if equal s (codes "desc") then some desc else none

abbrev sort_by : Bytes → Bytes → Bytes → List SortField → Result Failure (List SortField)
sort_by name direction args field = elim (direction_of (to_lower direction)) [
  | none ↦ err (bad invalid_sort_direction)
  | some d ↦
      ok (field ++ record { name = to_lower name; direction = d; index = pos 0; args = args } ∷ [])
]

abbrev pub sort_parts : List Bytes → List SortField → Result Failure (List SortField)
sort_parts (name ∷ direction ∷ []) field = sort_by name direction [] field
sort_parts (name ∷ variable ∷ direction ∷ _) field =
    if not (equal name (codes "custom_variables"))
      && not (equal name (codes "host_custom_variables"))
    then err (bad invalid_sort_header)
    else sort_by name direction (to_upper variable) field
sort_parts _ field = err (bad invalid_sort_header)

unfoldable pub parse_sort_header : List SortField → Bytes → Result Failure (List SortField)
unfolding split_n
parse_sort_header field value = sort_parts (split_n value (codes " ") 3) field

abbrev is_asc : SortDirection → Bool
is_asc asc = true
is_asc desc = false

-- the name of the table, and the sort fields
unfoldable pub is_default_sort_order : Bytes → List SortField → Bool
is_default_sort_order name [] = true
is_default_sort_order name (s ∷ []) =
    equal name (codes "hosts") && (equal s.name (codes "name") && is_asc s.direction)
is_default_sort_order name (s ∷ t ∷ []) =
    equal name (codes "services")
    && (equal s.name (codes "host_name")
        && (is_asc s.direction && (equal t.name (codes "description") && is_asc t.direction)))
is_default_sort_order name _ = false
