-- ===== src/Http/Sorts.antt =====
-- The sort fields and the lists of texts of a request, as lmd/http.go reads them from what lmd/request.go
-- made of them.
use lmd.Prelude.{
  List, [], ◌∷◌, ◌++◌, Bytes, codes, ok, bind-ok, append-nil, append_assoc, ◌≡◌, refl, ap, sym, ◌∙◌,
  arith, equal,
}
use lmd.Prelude.Int.{pos}
use lmd.Runtime.{Go}
use lmd.Runtime.Dynamic.{Values, str, to_list, of_list}
use lmd.Objects.{ObjectsType}
use lmd.Text.{split_n, to_lower}
use lmd.Text.Cut.{Lacks, cut-append, cut-none}
use lmd.Request.{SortField, SortDirection, asc, desc}
use lmd.Request.Sort.{parse_sort_header, sort_parts}
use lmd.Http.Json.{json_values, unchanged}
use lmd.Http.{strings, text_values, sort_texts, direction_text, parse_sorts}

-- a sort field as the parser makes it, without an argument, whether its column has an index by now
abbrev pub IsPlainSort : SortField → Type 0
IsPlainSort s = Lacks b' ' s.name × (to_lower s.name ≡ s.name) × (s.args ≡ [])

-- The index of a column is not sent.
abbrev pub unplaced : List SortField → List SortField
unplaced [] = []
unplaced (s ∷ ss) = record s { index = pos 0 } ∷ unplaced ss

abbrev pub ArePlainSorts : List SortField → Type 0
ArePlainSorts [] = Unit
ArePlainSorts (s ∷ ss) = IsPlainSort s × ArePlainSorts ss

module _ (go : Go) where
  -- the texts of a list that was sent
  abbrev pub items : List Bytes → Values go.Float
  items ss = json_values go unchanged (of_list (text_values go ss))

  pub to_list-items : (ss : List Bytes) → to_list (items ss) ≡ text_values go ss
  unfolding to_list of_list json_values
  to_list-items [] = refl
  to_list-items (s ∷ ss) = ap (◌∷◌ (str s)) (to_list-items ss)

  strings-text_values : (ss : List Bytes) → strings go (text_values go ss) ≡ ok ss
  unfolding strings
  strings-text_values [] = refl
  strings-text_values (s ∷ ss) = bind-ok _ (strings-text_values ss)

  split_sort :
      (name direction : Bytes)
      → Lacks b' ' name
      → Lacks b' ' direction
      → split_n (name ++ b' ' ∷ direction) (codes " ") 3 ≡ name ∷ direction ∷ []
  unfolding split_n
  split_sort name direction lacks lacks' =
      rw (cut-append name b' ' [] direction lacks, split_n, cut-none direction b' ' [] lacks') refl

  parse_sort_header-direction :
      (name : Bytes) (d : SortDirection) (before : List SortField)
      → Lacks b' ' name
      → parse_sort_header before (name ++ b' ' ∷ direction_text go d)
        ≡ ok (
            before ++ record { name = to_lower name; direction = d; index = pos 0; args = [] } ∷ [])
  unfolding parse_sort_header to_lower equal
  parse_sort_header-direction name asc before lacks =
      ap (λ ps. sort_parts ps before) (split_sort name (codes "asc") lacks (omega arith))
  parse_sort_header-direction name desc before lacks =
      ap (λ ps. sort_parts ps before) (split_sort name (codes "desc") lacks (omega arith))

  parse_sort_header-text :
      (s : SortField) (before : List SortField)
      → IsPlainSort s
      → parse_sort_header before (s.name ++ b' ' ∷ direction_text go s.direction)
        ≡ ok (before ++ record s { index = pos 0 } ∷ [])
  parse_sort_header-text s before (lacks, lower, args) =
      parse_sort_header-direction s.name s.direction before lacks
      ∙ ap
          (λ (n : Bytes).
            ok (
              before
              ++ record { name = n; direction = s.direction; index = pos 0; args = [] } ∷ []))
          lower
      ∙ ap
          (λ (a : Bytes). ok (
            before
            ++ record { name = s.name; direction = s.direction; index = pos 0; args = a } ∷ []))
          (sym args)

  pub parse_sorts-texts :
      (o : ObjectsType) (ss before : List SortField)
      → ArePlainSorts ss
      → parse_sorts go o (text_values go (sort_texts go ss)) before ≡ ok (before ++ unplaced ss)
  unfolding parse_sorts
  parse_sorts-texts o [] before plain = ap ok (sym (append-nil before))
  parse_sorts-texts o (s ∷ ss) before plain =
      bind-ok _ (parse_sort_header-text s before plain.0)
      ∙ parse_sorts-texts o ss (before ++ record s { index = pos 0 } ∷ []) plain.1
      ∙ ap ok (append_assoc before (record s { index = pos 0 } ∷ []) (unplaced ss))

  pub read_strings : (ss : List Bytes) → strings go (to_list (items ss)) ≡ ok ss
  read_strings ss = ap (strings go) (to_list-items ss) ∙ strings-text_values ss
