-- ===== src/Http/Filters.antt =====
-- The filters of a request of lmd/request.go, as lmd/http.go reads them from the text that
-- `buildDistributedRequestData` makes of them.
mod Group
pub mod All
pub mod Read
use mathlib.Core.Path.{subst}
use mathlib.Core.List.{reverse}
use lmd.Prelude.{
  is_nil, ℕ, suc, zero, ◌+◌, ◌-◌, ◌≤◌, Bool, true, false, Option, none, some, List, [], ◌∷◌, ◌++◌,
  Bytes, codes, Result, ok, err, ◌>>=◌, bind-ok, >>=-eq-ok, ok-injective, append-nil, append_assoc,
  if◌then◌else◌, equal, ◌≡◌, refl, ap, sym, ◌∙◌, arith, length, length-append, take, drop, ltb,
}
use lmd.Prelude.Int.{ℤ, pos}
use lmd.Runtime.{Go}
use lmd.BadRequest.{Failure}
use lmd.Objects.{ObjectsType}
use lmd.Objects.Lookup.{IsIndexed}
use lmd.Text.{split, split_n, cut, trim_space, to_lower}
use lmd.Text.Cut.{Lacks, split-append, cut-append}
use lmd.Text.Decimal.{atoi, format_ℕ, atoi-format_int, InRange}
use lmd.Filter.{
  Condition, no_condition, Filter, filter, Filters, nil, cons, no_group, and, or, GroupOperator,
  no_stats, filters, filter_list, filter_count,
}
use lmd.Filter.Parse.{table_of, parse_condition, parse_filter, parse_filter_op, combine, push}
use lmd.Filter.Print.{
  operator_text, shown, str_value, line_text, condition_text, print_filter, print_filters,
  condition_line,
}
use lmd.Filter.Print.Value.{IsExact, Conversions}
use lmd.Filter.Print.Read.{parse_condition-read}
use lmd.Filter.Print.Lines.{parse_filter-text, operator_text-Lacks}
use lmd.Request.{Request}
use lmd.Request.Header.{parse_request_header_line, keyword, header_case, header_parts}
use lmd.Http.{parse_lines, print_all}

-- a header line that the reader takes as it is
abbrev pub IsLine : Bytes → Type 0
IsLine s = Lacks b'\n' s × (trim_space s ≡ s)

-- the line of a condition, without its line feed
abbrev pub filter_line : Bytes → Bytes → Bytes → Bytes
filter_line name op text = codes "Filter: " ++ (name ++ b' ' ∷ (op ++ shown text))

split_header :
    (name value : Bytes)
    → Lacks b':' name
    → split_n (name ++ (codes ": " ++ value)) (codes ": ") 2 ≡ name ∷ value ∷ []
unfolding split_n
split_header name value lacks = rw (cut-append name b':' (codes " ") value lacks, split_n) refl

module _ (go : Go) (conv : Conversions go) (o : ObjectsType) (table : Bytes)
    (indexed : IsIndexed (table_of o table)) where
  -- the condition was read from a request, and stands in one line
  abbrev pub IsRead : Condition go → Type 0
  IsRead c =
      ((line : Bytes) × (name : Bytes) × (operator : Bytes) × (value : Bytes) × IsExact (atoi value)
        × (parse_condition go o table line name operator value ≡ ok c))
      × (c.stats_type ≡ no_stats)
      × Lacks b' ' c.column.name
      × ((op : Bytes) × (text : Bytes) × (operator_text c.operator ≡ ok op)
          × (str_value go c ≡ ok text)
          × IsLine (filter_line c.column.name op text))

  abbrev pub Reads : Bytes → (List (Filter go) → List (Filter go)) → Type 0
  Reads line change =
      (req : Request go)
      → req.table ≡ table
      → parse_request_header_line go o line req ≡ ok (record req { filter = change req.filter })

  leaf-Reads :
      (c : Condition go) (op text : Bytes)
      → Lacks b' ' c.column.name
      → Lacks b' ' op
      → ((line : Bytes) → parse_condition go o table line c.column.name op text ≡ ok c)
      → Reads (filter_line c.column.name op text) (λ fs. push go fs c)
  unfolding parse_request_header_line header_case to_lower keyword equal
  leaf-Reads c op text lacks lacks' reads req same =
      let line = filter_line c.column.name op text in
      ap (λ ps. header_parts go o line ps req)
        (split_header (codes "Filter") (c.column.name ++ b' ' ∷ (op ++ shown text)) (omega arith))
      ∙ bind-ok _ (
          ap (λ t. parse_filter go o (c.column.name ++ b' ' ∷ (op ++ shown text)) line t req.filter)
            same
          ∙ parse_filter-text go o table line req.filter c.column.name op text lacks lacks'
              (reads line))

  leaf_shows :
      (c : Condition go) (op text : Bytes)
      → c.stats_type ≡ no_stats
      → operator_text c.operator ≡ ok op
      → str_value go c ≡ ok text
      → condition_line go [] c ≡ ok (filter_line c.column.name op text ++ codes "\n")
  unfolding condition_line condition_text
  leaf_shows c op text plain at_op at_text =
      bind-ok _ at_text ∙ ap (line_text go [] c text) plain ∙ bind-ok _ (bind-ok _ at_op)

  leaf-IsLine :
      (c : Condition go)
      → IsRead c
      → (line : Bytes) × (condition_line go [] c ≡ ok (line ++ codes "\n"))
        × (is_nil line ≡ false)
        × IsLine line
        × Reads line (λ fs. push go fs c)
  leaf-IsLine c
        (
          (line, name, operator, value, exact, parsed),
          plain,
          lacks,
          (op, text, at_op, at_text, is_line),
        ) =
      let (x, op', text', at_op', at_text', reads) =
        parse_condition-read go conv o table line name operator value c indexed exact parsed in
      let same_op : x ∷ op' ≡ op = ok-injective (sym at_op' ∙ at_op) in
      let same_text : text' ≡ text = ok-injective (sym at_text' ∙ at_text) in
      (
        filter_line c.column.name op text,
        leaf_shows c op text plain at_op at_text,
        refl,
        is_line,
        leaf-Reads c op text lacks (operator_text-Lacks c.operator op at_op) (λ l.
            ap (λ p. parse_condition go o table l c.column.name p text) (sym same_op)
            ∙ ap (λ t. parse_condition go o table l c.column.name (x ∷ op') t) (sym same_text)
            ∙ reads l),
      )
