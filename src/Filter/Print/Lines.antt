-- ===== src/Filter/Print/Lines.antt =====
-- `ParseFilter` of lmd/filter.go on the header lines of a filter.
use mathlib.Core.Path.{subst}
use lmd.Prelude.{
  ℕ, suc, none, some, List, [], ◌∷◌, ◌++◌, Bytes, codes, ok, bind-ok, ok-injective, append-nil, ◌≡◌,
  refl, ap, ◌∙◌, arith,
}
use lmd.Runtime.{Go}
use lmd.Objects.{ObjectsType}
use lmd.Text.{split_n, cut}
use lmd.Text.Cut.{Lacks, cut-append, cut-none}
use lmd.Filter.{
  Operator, no_operator, equal_to, unequal, equal_nocase, unequal_nocase, regex_match,
  regex_match_not, regex_no_case_match, regex_no_case_match_not, less, less_than, greater,
  greater_than, group_contains_not, Condition, Filter,
}
use lmd.Filter.Parse.{parse_condition, parse_filter, filter_parts, push}
use lmd.Filter.Print.{operator_text, shown}

pub operator_text-Lacks : (op : Operator) (s : Bytes) → operator_text op ≡ ok s → Lacks b' ' s
unfolding operator_text
operator_text-Lacks no_operator s h = absurd (cc h)
operator_text-Lacks equal_to s h = subst (Lacks b' ') (ok-injective h) (omega arith)
operator_text-Lacks unequal s h = subst (Lacks b' ') (ok-injective h) (omega arith)
operator_text-Lacks equal_nocase s h = subst (Lacks b' ') (ok-injective h) (omega arith)
operator_text-Lacks unequal_nocase s h = subst (Lacks b' ') (ok-injective h) (omega arith)
operator_text-Lacks regex_match s h = subst (Lacks b' ') (ok-injective h) (omega arith)
operator_text-Lacks regex_match_not s h = subst (Lacks b' ') (ok-injective h) (omega arith)
operator_text-Lacks regex_no_case_match s h = subst (Lacks b' ') (ok-injective h) (omega arith)
operator_text-Lacks regex_no_case_match_not s h = subst (Lacks b' ') (ok-injective h) (omega arith)
operator_text-Lacks less s h = subst (Lacks b' ') (ok-injective h) (omega arith)
operator_text-Lacks less_than s h = subst (Lacks b' ') (ok-injective h) (omega arith)
operator_text-Lacks greater s h = subst (Lacks b' ') (ok-injective h) (omega arith)
operator_text-Lacks greater_than s h = subst (Lacks b' ') (ok-injective h) (omega arith)
operator_text-Lacks group_contains_not s h = subst (Lacks b' ') (ok-injective h) (omega arith)

-- the operator and the value as parts
abbrev tail_parts : Bytes → Bytes → List Bytes
tail_parts op [] = op ∷ []
tail_parts op (x ∷ text) = op ∷ (x ∷ text) ∷ []

split_cut :
    (s : Bytes) (n : ℕ) {a b : Bytes}
    → cut (codes " ") s ≡ some (a, b)
    → split_n s (codes " ") (suc (suc n)) ≡ a ∷ split_n b (codes " ") (suc n)
unfolding split_n
split_cut s n is = rw (is, split_n) refl

split_whole :
    (s : Bytes) (n : ℕ) → cut (codes " ") s ≡ none → split_n s (codes " ") (suc (suc n)) ≡ s ∷ []
unfolding split_n
split_whole s n is = rw (is, split_n) refl

split_tail :
    (op text : Bytes)
    → Lacks b' ' op
    → split_n (op ++ shown text) (codes " ") 2 ≡ tail_parts op text
unfolding split_n
split_tail op [] lacks =
    ap (λ s. split_n s (codes " ") 2) (append-nil op) ∙ split_whole op 0 (cut-none op b' ' [] lacks)
split_tail op (x ∷ text) lacks =
    split_cut (op ++ b' ' ∷ x ∷ text) 0 (cut-append op b' ' [] (x ∷ text) lacks)

split_text :
    (name op text : Bytes)
    → Lacks b' ' name
    → Lacks b' ' op
    → split_n (name ++ b' ' ∷ (op ++ shown text)) (codes " ") 3 ≡ name ∷ tail_parts op text
split_text name op text lacks lacks' =
    split_cut (name ++ b' ' ∷ (op ++ shown text)) 1
      (cut-append name b' ' [] (op ++ shown text) lacks)
    ∙ ap (λ ps. name ∷ ps) (split_tail op text lacks')

module _ (go : Go) (o : ObjectsType) (table line : Bytes) where
  parts-parse :
      (stack : List (Filter go)) (name op text : Bytes) {c : Condition go}
      → parse_condition go o table line name op text ≡ ok c
      → filter_parts go o table line stack (name ∷ tail_parts op text) ≡ ok (push go stack c)
  parts-parse stack name op [] is = bind-ok _ is
  parts-parse stack name op (x ∷ text) is = bind-ok _ is

  pub parse_filter-text :
      (stack : List (Filter go)) (name op text : Bytes) {c : Condition go}
      → Lacks b' ' name
      → Lacks b' ' op
      → parse_condition go o table line name op text ≡ ok c
      → parse_filter go o (name ++ b' ' ∷ (op ++ shown text)) line table stack
        ≡ ok (push go stack c)
  unfolding parse_filter
  parse_filter-text stack name op text lacks lacks' is =
      ap (filter_parts go o table line stack) (split_text name op text lacks lacks')
      ∙ parts-parse stack name op text is
