-- ===== src/Filter/Print/Read.antt =====
-- `ParseFilter` of lmd/filter.go on what `String` prints of a condition.
use lmd.Prelude.{
  ℕ, Bool, true, false, Option, none, some, [], ◌∷◌, Bytes, Result, ok, err, ◌>>=◌, >>=-eq-ok,
  bind-ok, ok-injective, if◌then◌else◌, ◌≡◌, refl, ap, sym, ◌∙◌, arith, Option-cases, inl, inr,
}
use lmd.Runtime.{Go}
use lmd.BadRequest.{Failure, bad, unrecognized_operator}
use lmd.Objects.{
  Column, ObjectsType, ColumnType, virt_col, custom_var_col, no_col_type, string_col,
  string_list_col, int_col, int_list_col, float_col, ref_col, time_col, string_fake_sort_col,
}
use lmd.Objects.Lookup.{IsIndexed}
use lmd.Text.Decimal.{atoi}
use lmd.Filter.{Operator, Condition, no_condition}
use lmd.Filter.Parse.{
  parse_operator, pattern_text, table_of, find_column, with_regexp, parse_condition,
}
use lmd.Filter.Parse.Value.{value_type, set_filter_value}
use lmd.Filter.Print.{operator_text, is_custom, str_value, typed_value}
use lmd.Filter.Print.Value.{IsExact, Conversions, printed, read_value}
use lmd.Filter.Print.Kept.{SameHead, set_typed-SameHead, read_empty}
use lmd.Filter.Print.Names.{parsed_operator, operator-text, found_again, value_type-is_custom}

module _ (go : Go) (conv : Conversions go) where
  -- `strValue` prints by the type of the column
  str_value-printed :
      (c : Condition go) → str_value go c ≡ printed go (value_type c.column c.column.col_type) c
  unfolding str_value
  str_value-printed c =
      ap
        (λ b.
          if c.is_empty
          then ok (if b then c.custom_tag else [])
          else typed_value go (value_type c.column c.column.col_type) c)
        (sym (value_type-is_custom c.column c.column.col_type))

  read_filter_value :
      (col : Column) (value line : Bytes) (start c : Condition go)
      → start.is_empty ≡ false
      → start.column ≡ col
      → IsExact (atoi value)
      → set_filter_value go col value line start ≡ ok c
      → SameHead go c start
        × ((text : Bytes) × (str_value go c ≡ ok text)
            × ((line' : Bytes) → set_filter_value go col text line' start ≡ ok c))
  unfolding set_filter_value
  read_filter_value col [] line start c full at_col exact eq =
      let t = value_type col col.col_type in
      let empty = record start { is_empty = true } in
      let head = set_typed-SameHead go t [] line empty eq in
      let (shows, reads) = read_empty go t line empty c refl eq in
      let of = head.0 ∙ at_col in
      (
        head,
        (
          [],
          str_value-printed c
              ∙ ap (λ (k : Column). printed go (value_type k k.col_type) c) of
              ∙ shows,
          reads,
        ),
      )
  read_filter_value col (x ∷ value) line start c full at_col exact eq =
      let t = value_type col col.col_type in
      let head = set_typed-SameHead go t (x ∷ value) line start eq in
      let (y, text, shows, reads) = read_value go conv t x value line start c full exact eq in
      let of = head.0 ∙ at_col in
      (
        head,
        (
          y ∷ text,
          str_value-printed c
              ∙ ap (λ (k : Column). printed go (value_type k k.col_type) c) of
              ∙ shows,
          reads,
        ),
      )

  typed_value-regexp :
      (t : ColumnType) (c : Condition go) (re : Option go.Regexp)
      → typed_value go t (record c { regexp = re }) ≡ typed_value go t c
  unfolding typed_value
  typed_value-regexp virt_col c re = refl
  typed_value-regexp custom_var_col c re = refl
  typed_value-regexp no_col_type c re = refl
  typed_value-regexp string_col c re = refl
  typed_value-regexp string_list_col c re = refl
  typed_value-regexp int_col c re = refl
  typed_value-regexp int_list_col c re = refl
  typed_value-regexp float_col c re = refl
  typed_value-regexp ref_col c re = refl
  typed_value-regexp time_col c re = refl
  typed_value-regexp string_fake_sort_col c re = refl

  str_value-regexp :
      (c : Condition go) (re : Option go.Regexp)
      → str_value go (record c { regexp = re }) ≡ str_value go c
  unfolding str_value
  str_value-regexp c re =
      ap
        (λ v.
          if c.is_empty then ok (if is_custom c.column.col_type then c.custom_tag else []) else v)
        (typed_value-regexp (value_type c.column c.column.col_type) c re)

  -- a regular expression changes nothing that is printed
  with_regexp-keeps :
      (b : Bool) (op : Operator) (line : Bytes) (c d : Condition go)
      → with_regexp go b op line c ≡ ok d
      → SameHead go d c
        × (str_value go d ≡ str_value go c)
        × ((line' : Bytes) → with_regexp go b op line' c ≡ ok d)
  unfolding with_regexp
  with_regexp-keeps false op line c d eq =
      let is = sym (ok-injective eq) in (ground (arith, is), ap (str_value go) is, λ l. eq)
  with_regexp-keeps true op line c d eq =
      elim (Option-cases (go.compile (pattern_text op c.str_value))) [
        | inl fails ↦ absurd (ground (arith, fails, eq))
        | inr (re, is) ↦
            let same : record c { regexp = some re } ≡ d = ground (arith, is, eq) in
            (
              ground (arith, same),
              ap (str_value go) (sym same) ∙ str_value-regexp c (some re),
              λ l. ground (arith, is, same),
            )
      ]

  -- `parse_condition` behind the operator
  abbrev parse_from :
      ObjectsType
      → Bytes
      → Bytes
      → Bytes
      → Bytes
      → Bytes
      → Option (Operator × Bool)
      → Result Failure (Condition go)
  parse_from o table line name operator value parsed = elim parsed [
    | none ↦ err (bad (unrecognized_operator operator line))
    | some (op, is_regex) ↦ do
      col ← find_column o table name line
      c ←
          set_filter_value go col value line
            (record (no_condition go) { operator = op; column = col })
      with_regexp go is_regex op line c
  ]

  parse_from-parse :
      (o : ObjectsType) (table line name operator value : Bytes)
      → parse_condition go o table line name operator value
        ≡ parse_from o table line name operator value (parse_operator operator)
  unfolding parse_condition
  parse_from-parse o table line name operator value = refl

  read_from :
      (o : ObjectsType) (table line name operator value : Bytes) (c : Condition go) (op : Operator)
      (is_regex : Bool)
      → IsIndexed (table_of o table)
      → IsExact (atoi value)
      → parse_from o table line name operator value (some (op, is_regex)) ≡ ok c
      → (c.operator ≡ op)
        × ((text : Bytes) × (str_value go c ≡ ok text)
            × ((line' operator' : Bytes)
                → parse_from o table line' c.column.name operator' text (some (op, is_regex))
                  ≡ ok c))
  read_from o table line name operator value c op is_regex indexed exact eq =
      let (col, at_col, eq1) = >>=-eq-ok (find_column o table name line) _ eq in
      let start = record (no_condition go) { operator = op; column = col } in
      let (d, set, eq2) = >>=-eq-ok (set_filter_value go col value line start) _ eq1 in
      let ((column, operator_is, stats), (text, shows, reads)) =
        read_filter_value col value line start d refl refl exact set in
      let ((column', operator', stats'), prints, again) =
        with_regexp-keeps is_regex op line d c eq2 in
      let named : c.column.name ≡ col.name = ap (λ (k : Column). k.name) (column' ∙ column) in
      (
        operator' ∙ operator_is,
        (
          text,
          prints ∙ shows,
          λ line' operator''.
              ap (λ n. parse_from o table line' n operator'' text (some (op, is_regex))) named
              ∙ bind-ok _ (found_again o table name line line' col indexed at_col)
              ∙ bind-ok _ (reads line')
              ∙ again line',
        ),
      )

  -- What `ParseFilter` made of a name, an operator and a value is printed as a name, an operator and a
  -- value of which it makes the same.
  pub parse_condition-read :
      (o : ObjectsType) (table line name operator value : Bytes) (c : Condition go)
      → IsIndexed (table_of o table)
      → IsExact (atoi value)
      → parse_condition go o table line name operator value ≡ ok c
      → (x : ℕ) × (op : Bytes) × (text : Bytes) × (operator_text c.operator ≡ ok (x ∷ op))
        × (str_value go c ≡ ok text)
        × ((line' : Bytes) → parse_condition go o table line' c.column.name (x ∷ op) text ≡ ok c)
  parse_condition-read o table line name operator value c indexed exact eq =
      let eq' = sym (parse_from-parse o table line name operator value) ∙ eq in
      elim (Option-cases (parse_operator operator)) [
        | inl none_such ↦
            absurd (cc (ap (parse_from o table line name operator value) none_such, eq'))
        | inr ((op, is_regex), is) ↦
            let (same, (text, shows, reads)) =
              read_from o table line name operator value c op is_regex indexed exact
                (sym (ap (parse_from o table line name operator value) is) ∙ eq') in
            let (regex, there) = parsed_operator operator op is_regex is in
            let (x, s, prints, parses) = operator-text op is_regex regex there in
            (
              x,
              s,
              text,
              ap operator_text same ∙ prints,
              shows,
              λ line'.
                  parse_from-parse o table line' c.column.name (x ∷ s) text
                  ∙ ap (parse_from o table line' c.column.name (x ∷ s) text) parses
                  ∙ reads line' (x ∷ s),
            )
      ]
