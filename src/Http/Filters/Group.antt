-- ===== src/Http/Filters/Group.antt =====
-- The line of a group of filters, And or Or, as lmd/request.go reads it.
use lmd.Prelude.{
  is_nil, equal, ℕ, suc, ◌+◌, ◌-◌, ◌≤◌, false, List, [], ◌∷◌, ◌++◌, Bytes, codes, ok, ◌>>=◌,
  bind-ok, append_assoc, ◌≡◌, ◌≢◌, refl, ap, sym, ◌∙◌, arith, length, length-append, take, drop,
}
use lmd.Prelude.Int.{pos}
use lmd.Runtime.{Go}
use lmd.Objects.{ObjectsType}
use lmd.Text.{to_lower, is_space}
use lmd.Text.Cut.{Lacks, Lacks-append}
use lmd.Text.Trim.{trim_space-full}
use lmd.Text.Decimal.{format_ℕ, format_int, atoi-format_int, max_int, IsDigit}
use lmd.Text.Decimal.Shape.{format_ℕ-last, format_ℕ-Lacks}
use lmd.Filter.{
  no_condition, Filter, filter, Filters, nil, cons, no_group, and, or, GroupOperator, filters,
  filter_list, filter_count,
}
use lmd.Filter.Parse.{parse_filter_op, combine, combine_number, group_of}
use lmd.Filter.Print.{group_text}
use lmd.Request.{Request}
use lmd.Request.Header.{parse_request_header_line, keyword, header_case, header_parts}
use lmd.Http.Filters.{IsLine, split_header}

-- the name of a group, and its line without the line feed
abbrev pub group_name : GroupOperator → Bytes
group_name and = codes "And"
group_name _ = codes "Or"

abbrev pub group_line : GroupOperator → ℕ → Bytes
group_line op n = group_name op ++ (codes ": " ++ format_ℕ n)

group_name-Lacks : (op : GroupOperator) → Lacks b':' (group_name op)
group_name-Lacks and = omega arith
group_name-Lacks or = omega arith
group_name-Lacks no_group = omega arith

pub group_text-name : (op : GroupOperator) → op ≢ no_group → group_text op ≡ ok (group_name op)
unfolding group_text
group_text-name and h = refl
group_text-name or h = refl
group_text-name no_group h = absurd (h refl)

pub group_line-is_nil : (op : GroupOperator) (n : ℕ) → is_nil (group_line op n) ≡ false
group_line-is_nil and n = refl
group_line-is_nil or n = refl
group_line-is_nil no_group n = refl

digit-is_space : (y : ℕ) → IsDigit y → is_space y ≡ false
digit-is_space y h = ground arith

ends_in_digits :
    (x : ℕ) (s : Bytes) (n : ℕ)
    → Lacks b'\n' (x ∷ s)
    → is_space x ≡ false
    → IsLine (x ∷ s ++ format_ℕ n)
ends_in_digits x s n lacks full =
    let (u, y, is, digit) = format_ℕ-last n in
    (
      Lacks-append b'\n' (x ∷ s) (format_ℕ n) lacks
          (format_ℕ-Lacks b'\n' n (λ d. omega (arith, d))),
      trim_space-full x (s ++ format_ℕ n) (x ∷ s ++ u) y
          (ap (λ t. x ∷ s ++ t) is ∙ sym (append_assoc (x ∷ s) u (y ∷ []))) full
          (digit-is_space y digit),
    )

pub group_line-IsLine : (op : GroupOperator) (n : ℕ) → IsLine (group_line op n)
group_line-IsLine and n = ends_in_digits b'A' (codes "nd: ") n (omega arith) refl
group_line-IsLine or n = ends_in_digits b'O' (codes "r: ") n (omega arith) refl
group_line-IsLine no_group n = ends_in_digits b'O' (codes "r: ") n (omega arith) refl

module _ {ℓ} {A : Type ℓ} where
  pub take-append : (xs ys : List A) → take (length xs) (xs ++ ys) ≡ xs
  take-append [] ys = refl
  take-append (x ∷ xs) ys = ap (◌∷◌ x) (take-append xs ys)

  pub drop-append : (xs ys : List A) → drop (length xs) (xs ++ ys) ≡ ys
  drop-append [] ys = refl
  drop-append (x ∷ xs) ys = drop-append xs ys

module _ (go : Go) where
  filter_list-length : (fs : Filters go) → length (filter_list go fs) ≡ filter_count go fs
  unfolding filter_list filter_count
  filter_list-length nil = refl
  filter_list-length (cons f fs) = ap suc (filter_list-length fs)

  filters-filter_list : (fs : Filters go) → filters go (filter_list go fs) ≡ fs
  unfolding filter_list filters
  filters-filter_list nil = refl
  filters-filter_list (cons f fs) = ap (cons f) (filters-filter_list fs)

  -- the filters that stand last on the stack
  pub combine-last :
      (header line : Bytes) (stack : List (Filter go)) (fs : Filters go)
      → combine go header line (filter_count go fs) (stack ++ filter_list go fs)
        ≡ ok (stack ++ filter (no_condition go) fs (group_of go header) ∷ [])
  unfolding combine
  combine-last header line stack fs =
      let many : length (stack ++ filter_list go fs) ≡ length stack + filter_count go fs =
        length-append stack (filter_list go fs)
        ∙ ap (λ n. length stack + n) (filter_list-length fs) in
      let below : length (stack ++ filter_list go fs) - filter_count go fs ≡ length stack =
        omega (arith, many) in
      rw
        (
          below,
          take-append stack (filter_list go fs),
          drop-append stack (filter_list go fs),
          filters-filter_list fs,
        )
        (ground (arith, many))

  group_of-group_name :
      (op : GroupOperator) → op ≢ no_group → group_of go (to_lower (group_name op)) ≡ op
  unfolding to_lower equal
  group_of-group_name and h = refl
  group_of-group_name or h = refl
  group_of-group_name no_group h = absurd (h refl)

  group_case :
      (o : ObjectsType) (op : GroupOperator) (line value : Bytes) (req : Request go)
      → header_case go o line
          (keyword (to_lower (group_name op)))
          (to_lower (group_name op))
          value
          req
        ≡ (do
          fs ← parse_filter_op go (to_lower (group_name op)) value line req.filter
          ok (record req { filter = fs }))
  unfolding header_case keyword to_lower equal
  group_case o and line value req = refl
  group_case o or line value req = refl
  group_case o no_group line value req = refl

  combines :
      (op : GroupOperator) (line : Bytes) (f : Filter go) (fs : Filters go)
      (stack : List (Filter go))
      → op ≢ no_group
      → filter_count go (cons f fs) ≤ max_int
      → parse_filter_op go
          (to_lower (group_name op))
          (format_ℕ (filter_count go (cons f fs)))
          line
          (stack ++ filter_list go (cons f fs))
        ≡ ok (stack ++ filter (no_condition go) (cons f fs) op ∷ [])
  unfolding parse_filter_op combine_number format_int filter_count
  combines op line f fs stack group small =
      let header = to_lower (group_name op) in
      ap (combine_number go header line (stack ++ filter_list go (cons f fs)))
        (atoi-format_int (pos (filter_count go (cons f fs))) small)
      ∙ combine-last header line stack (cons f fs)
      ∙ ap (λ g. ok (stack ++ filter (no_condition go) (cons f fs) g ∷ []))
          (group_of-group_name op group)

  -- a group is made of the filters that stand last
  pub group_reads :
      (o : ObjectsType) (op : GroupOperator) (f : Filter go) (fs : Filters go) (req : Request go)
      (stack : List (Filter go))
      → op ≢ no_group
      → filter_count go (cons f fs) ≤ max_int
      → req.filter ≡ stack ++ filter_list go (cons f fs)
      → parse_request_header_line go o (group_line op (filter_count go (cons f fs))) req
        ≡ ok (record req { filter = stack ++ filter (no_condition go) (cons f fs) op ∷ [] })
  unfolding parse_request_header_line
  group_reads o op f fs req stack group small last =
      let n = filter_count go (cons f fs) in
      let line = group_line op n in
      ap (λ ps. header_parts go o line ps req)
        (split_header (group_name op) (format_ℕ n) (group_name-Lacks op))
      ∙ group_case o op line (format_ℕ n) req
      ∙ bind-ok _ (
          ap (parse_filter_op go (to_lower (group_name op)) (format_ℕ n) line) last
          ∙ combines op line f fs stack group small)
