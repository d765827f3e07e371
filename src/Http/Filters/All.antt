-- ===== src/Http/Filters/All.antt =====
-- A list of filters with its groups, as lmd/http.go reads it from the text of lmd/request.go.
use mathlib.Core.Path.{subst}
use lmd.Prelude.{
  is_nil, ◌≤◌, false, List, [], ◌∷◌, ◌++◌, Bytes, codes, Result, ok, ◌>>=◌, bind-ok, append-nil,
  append_assoc, ◌≡◌, ◌≢◌, refl, ap, sym, ◌∙◌,
}
use lmd.Runtime.{Go, Panic}
use lmd.Objects.{ObjectsType}
use lmd.Objects.Lookup.{IsIndexed}
use lmd.Text.{trim_space}
use lmd.Text.Cut.{AllLack}
use lmd.Text.Lines.{unlines, unlines-append, AllLack-append}
use lmd.Text.Decimal.{format_ℕ, max_int}
use lmd.Filter.{
  Condition, no_condition, Filter, filter, Filters, nil, cons, no_group, GroupOperator, filter_list,
  filter_count,
}
use lmd.Filter.Parse.{table_of}
use lmd.Filter.Print.{print_filter, print_filters, condition_line, group_text}
use lmd.Filter.Print.Value.{Conversions}
use lmd.Request.{Request}
use lmd.Request.Header.{parse_request_header_line}
use lmd.Http.{parse_lines}
use lmd.Http.Filters.{IsRead, leaf-IsLine}
use lmd.Http.Filters.Group.{
  group_name, group_line, group_line-IsLine, group_line-is_nil, group_text-name, group_reads,
}

module _ (go : Go) (conv : Conversions go) (o : ObjectsType) (table : Bytes)
    (indexed : IsIndexed (table_of o table)) where
  -- A filter as `ParseFilter` and `ParseFilterOp` make it.
  unfoldable mutual
    pub IsReadable : Filter go → Type 0
    IsReadable (filter c nil op) = IsRead go conv o table indexed c × (op ≡ no_group)
    IsReadable (filter c (cons f fs) op) =
        (c ≡ no_condition go)
        × (op ≢ no_group)
        × (filter_count go (cons f fs) ≤ max_int)
        × IsReadable f
        × AreReadable fs

    pub AreReadable : Filters go → Type 0
    AreReadable nil = Unit
    AreReadable (cons f fs) = IsReadable f × AreReadable fs

  -- The lines take the request from one list of filters to another.
  abbrev pub Moves : List Bytes → List (Filter go) → List (Filter go) → Type 0
  Moves ls before after =
      (req : Request go) (rest : List Bytes)
      → req.table ≡ table
      → req.filter ≡ before
      → parse_lines go o (ls ++ rest) req ≡ parse_lines go o rest (record req { filter = after })

  Moves-append :
      (ks ls : List Bytes) (a b c : List (Filter go))
      → Moves ks a b
      → Moves ls b c
      → Moves (ks ++ ls) a c
  Moves-append ks ls a b c h h' req rest same is =
      ap (λ xs. parse_lines go o xs req) (append_assoc ks ls rest)
      ∙ h req (ls ++ rest) same is
      ∙ h' (record req { filter = b }) rest same refl

  Moves-one :
      (line : Bytes) (a b : List (Filter go))
      → is_nil line ≡ false
      → trim_space line ≡ line
      → ((req : Request go)
          → req.table ≡ table
          → req.filter ≡ a
          → parse_request_header_line go o line req ≡ ok (record req { filter = b }))
      → Moves (line ∷ []) a b
  unfolding parse_lines
  Moves-one line a b full trimmed reads req rest same is =
      rw (trimmed, full) (bind-ok (λ r. parse_lines go o rest r) (reads req same is))

  -- what is printed, in lines, and what the lines do
  abbrev pub Shows : Result Panic Bytes → List (Filter go) → Type 0
  Shows printed fs =
      (ls : List Bytes) × (printed ≡ ok (unlines ls))
      × AllLack b'\n' ls
      × ((stack : List (Filter go)) → Moves ls stack (stack ++ fs))

  leaf-Shows :
      (c : Condition go)
      → IsRead go conv o table indexed c
      → Shows (condition_line go [] c) (filter c nil no_group ∷ [])
  unfolding unlines
  leaf-Shows c read =
      let (line, shows, full, (lacks, trimmed), reads) =
        leaf-IsLine go conv o table indexed c read in
      (
        line ∷ [],
        shows,
        (lacks, tt),
        λ stack.
            Moves-one line stack (stack ++ filter c nil no_group ∷ []) full trimmed (λ req same is.
              reads req same
              ∙ ap (λ s. ok (record req { filter = s ++ filter c nil no_group ∷ [] })) is),
      )

  both-Moves :
      (f : Filter go) (fs : Filters go) (ks ls : List Bytes)
      → ((stack : List (Filter go)) → Moves ks stack (stack ++ f ∷ []))
      → ((stack : List (Filter go)) → Moves ls stack (stack ++ filter_list go fs))
      → (stack : List (Filter go)) → Moves (ks ++ ls) stack (stack ++ filter_list go (cons f fs))
  unfolding filter_list
  both-Moves f fs ks ls moves moves' stack =
      subst (Moves (ks ++ ls) stack) (append_assoc stack (f ∷ []) (filter_list go fs))
        (Moves-append ks ls stack _ _ (moves stack) (moves' (stack ++ f ∷ [])))

  cons-Shows :
      (f : Filter go) (fs : Filters go) (first rest : Result Panic Bytes)
      → Shows first (f ∷ [])
      → Shows rest (filter_list go fs)
      → Shows (do a ← first; b ← rest; ok (a ++ b)) (filter_list go (cons f fs))
  cons-Shows f fs first rest (ks, shows, lack, moves) (ls, shows', lack', moves') = (
    ks ++ ls,
    bind-ok _ shows ∙ bind-ok _ shows' ∙ ap ok (sym (unlines-append ks ls)),
    AllLack-append b'\n' ks ls lack lack',
    both-Moves f fs ks ls moves moves',
  )

  group-text :
      (ks ls : List Bytes) (name digits : Bytes)
      → unlines ks ++ (unlines ls ++ ((name ++ codes ": ") ++ (digits ++ codes "\n")))
        ≡ unlines ((ks ++ ls) ++ (name ++ (codes ": " ++ digits)) ∷ [])
  unfolding unlines
  group-text ks ls name digits =
      let line = (name ++ (codes ": " ++ digits)) in
      ap (λ t. unlines ks ++ (unlines ls ++ t))
        (append_assoc name (codes ": ") (digits ++ codes "\n")
          ∙ sym (append_assoc name (codes ": " ++ digits) (codes "\n")))
      ∙ sym (append_assoc (unlines ks) (unlines ls) (line ++ codes "\n"))
      ∙ ap (λ t. t ++ (line ++ codes "\n")) (sym (unlines-append ks ls))
      ∙ sym (unlines-append (ks ++ ls) (line ∷ []))

  group-Shows :
      (op : GroupOperator) (f : Filter go) (fs : Filters go) (first rest : Result Panic Bytes)
      → op ≢ no_group
      → filter_count go (cons f fs) ≤ max_int
      → Shows first (f ∷ [])
      → Shows rest (filter_list go fs)
      → Shows
          (do
            a ← first
            b ← rest
            group ← group_text op
            ok (
                a
                ++ (b
                    ++ ((group ++ codes ": ")
                        ++ (format_ℕ (filter_count go (cons f fs)) ++ codes "\n")))))
          (filter (no_condition go) (cons f fs) op ∷ [])
  group-Shows op f fs first rest group small (ks, shows, lack, moves) (ls, shows', lack', moves') =
      let n = filter_count go (cons f fs) in
      let (lacks, trimmed) = group_line-IsLine op n in
      (
        (ks ++ ls) ++ group_line op n ∷ [],
        bind-ok _ shows
            ∙ bind-ok _ shows'
            ∙ bind-ok _ (group_text-name op group)
            ∙ ap ok (group-text ks ls (group_name op) (format_ℕ n)),
        AllLack-append b'\n' (ks ++ ls) _ (AllLack-append b'\n' ks ls lack lack') (lacks, tt),
        λ stack.
            Moves-append (ks ++ ls) (group_line op n ∷ []) stack
              (stack ++ filter_list go (cons f fs)) _ (both-Moves f fs ks ls moves moves' stack)
              (Moves-one (group_line op n) _ _ (group_line-is_nil op n) trimmed
                (λ req same is. group_reads go o op f fs req stack group small is)),
      )

  nil-Shows : Shows (ok []) []
  unfolding unlines
  nil-Shows = (
    [],
    refl,
    tt,
    λ stack req rest same is.
        ap (λ s. parse_lines go o rest (record req { filter = s })) (is ∙ sym (append-nil stack)),
  )

  mutual
    unfolding IsReadable AreReadable print_filter print_filters filter_list

    filter-Shows : (f : Filter go) → IsReadable f → Shows (print_filter go [] f) (f ∷ [])
    filter-Shows (filter c nil op) (read, none) =
        subst (λ g. Shows (condition_line go [] c) (filter c nil g ∷ [])) (sym none)
          (leaf-Shows c read)
    filter-Shows (filter c (cons f fs) op) (plain, group, small, first, rest) =
        subst
          (λ d. Shows (print_filter go [] (filter d (cons f fs) op)) (filter d (cons f fs) op ∷ []))
          (sym plain)
          (group-Shows op f fs (print_filter go [] f) (print_filters go [] fs) group small
            (filter-Shows f first) (filters-Shows fs rest))

    pub filters-Shows :
        (fs : Filters go) → AreReadable fs → Shows (print_filters go [] fs) (filter_list go fs)
    filters-Shows nil readable = nil-Shows
    filters-Shows (cons f fs) (first, rest) =
        cons-Shows f fs (print_filter go [] f) (print_filters go [] fs) (filter-Shows f first)
          (filters-Shows fs rest)
