-- ===== src/DataTable/Dynamic/Written.antt =====
-- What `UpdateObjectByType` of lmd/peer.go writes into the rows of a table.
use mathlib.Core.Path.{subst}
use lmd.Prelude.{
  is_nil, ℕ, ◌≤◌, ◌<◌, Bool, true, false, List, [], ◌∷◌, Bytes, codes, equal, length, length-set,
  get_elem?-set_self, get_elem?-set_ne, set, Result, ok, err, ◌>>=◌, not, bind-ok, ltb, ◌==◌,
  if◌then◌else◌, ◌≡◌, refl, arith, sym, ap, ◌∙◌, Bool-cases, Result-cases, ◌⊎◌, inl, inr,
}
use lmd.Runtime.{Go, Panic, index_out_of_range}
use lmd.Objects.{PeerFlags, get_dynamic_columns, index_of}
use lmd.Request.{Request}
use lmd.DataTable.{or_fault, at, DataTable, Row, Memory, has_row}
use lmd.DataTable.Entries.Indexed.{RowsDistinct, at-within}
use lmd.DataTable.Dynamic.{
  put, overwrite, overwrite_at, done, restart_required, write_rows, names_of, indexes_of, query_of,
  Update, update_object_by_type, is_restarted, interface_equals, note_restart,
}
use lmd.Runtime.Dynamic.{Value}

abbrev pub AllBelow : ℕ → List ℕ → Type 0
AllBelow n [] = Unit
AllBelow n (k ∷ ks) = (k < n) × AllBelow n ks

eqb_self : (n : ℕ) → (n == n) ≡ true
eqb_self n = ground arith

module _ {ℓ} {A : Type ℓ} where
  put-ok : (xs : List A) (i : ℕ) (x : A) → i < length xs → put xs i x ≡ ok (set xs i x)
  put-ok xs i x h = ground arith

  at-set_self : (xs : List A) (i : ℕ) (x : A) → i < length xs → at (set xs i x) i ≡ ok x
  at-set_self xs i x h = ap or_fault (get_elem?-set_self xs i x h)

  at-set_other : (xs : List A) (i m : ℕ) (x : A) → (i == m) ≡ false → at (set xs i x) m ≡ at xs m
  at-set_other xs i m x h =
      ap or_fault (get_elem?-set_ne xs x (λ (e : i ≡ m). cc (ap (λ j. j == m) e, h, eqb_self m)))

  -- the values stand in the row at the indexes
  abbrev pub Holds : List ℕ → List A → List A → Type ℓ
  Holds [] values row = Unit
  Holds (k ∷ indexes) [] row = Unit
  Holds (k ∷ indexes) (v ∷ values) row = (at row k ≡ ok v) × Holds indexes values row

  -- two rows are the same but at the indexes
  abbrev pub SameBut : List ℕ → List A → List A → Type ℓ
  SameBut indexes old row = (m : ℕ) → at row m ≡ (if has_row indexes m then at row m else at old m)

  SameBut-cons :
      (indexes : List ℕ) (k m : ℕ) (v : A) (row row' : List A)
      → SameBut indexes (set row k v) row'
      → at row' m ≡ (if has_row (k ∷ indexes) m then at row' m else at row m)
  unfolding has_row
  SameBut-cons indexes k m v row row' others = elim (Bool-cases (k == m)) [
    | inl same ↦ rw same refl
    | inr differ ↦ rw differ (
        others m
        ∙ ap (λ r. if has_row indexes m then at row' m else r) (at-set_other row k m v differ))
  ]

  pub overwrite-ok :
      (indexes : List ℕ) (values row : List A)
      → RowsDistinct indexes
      → AllBelow (length row) indexes
      → length indexes ≤ length values
      → (row' : List A) × (overwrite indexes values row ≡ ok row')
        × (length row' ≡ length row)
        × Holds indexes values row'
        × SameBut indexes row row'
  unfolding overwrite has_row
  overwrite-ok [] values row d b h = (row, refl, refl, tt, λ m. refl)
  overwrite-ok (k ∷ indexes) [] row d b h = absurd (omega arith)
  overwrite-ok (k ∷ indexes) (v ∷ values) row d b h =
      let kept = length-set row k v in
      let (row', run, len, holds, others) =
        overwrite-ok indexes values (set row k v) d.1
          (subst (λ n. AllBelow n indexes) (sym kept) b.1) (omega arith) in
      (
        row',
        bind-ok _ (put-ok row k v b.0) ∙ run,
        len ∙ kept,
        (others k ∙ (rw d.0 (at-set_self row k v b.0)), holds),
        λ m. SameBut-cons indexes k m v row row' others,
      )

-- the table has dynamic columns, and its rows come from the remote site
abbrev pub IsUpdated : DataTable → Type 0
IsUpdated d =
    (is_nil d.table.dynamic_col_cache_names ≡ false)
    × (d.table.is_virtual ≡ false)
    × (d.table.passthrough_only ≡ false)

head_apart :
    (s : ℕ) (rows : List ℕ) (r : ℕ)
    → has_row (s ∷ rows) r ≡ false
    → ((r == s) ≡ false) × (has_row rows r ≡ false)
unfolding has_row
head_apart s rows r h = ground arith

same_if {ℓ} : {A : Type ℓ} (b : Bool) (x : A) → x ≡ (if b then x else x)
same_if true x = refl
same_if false x = refl

long_enough {ℓ} : {A : Type ℓ} (m n : ℕ) (x y : A) → n ≤ m → (if ltb m n then x else y) ≡ y
long_enough m n x y h = let no : ltb m n ≡ false = ground arith in rw no refl

nil_or_cons {ℓ} : {A : Type ℓ} (xs : List A) → (xs ≡ []) ⊎ ((x : A) × (ys : List A) × (xs ≡ x ∷ ys))
nil_or_cons [] = inl refl
nil_or_cons (x ∷ xs) = inr (x, xs, refl)

module _ (go : Go) where
  -- the rows can take values at the indexes
  abbrev pub Fit : List ℕ → Memory go → List ℕ → Type 0
  Fit indexes mem [] = Unit
  Fit indexes mem (r ∷ rows) =
      ((row : Row go) × (at mem r ≡ ok row) × AllBelow (length row) indexes) × Fit indexes mem rows

  -- the rows of the answer are long enough, and not more than those of the table
  abbrev pub Fill : List ℕ → List (Row go) → List ℕ → Type 0
  Fill indexes [] rows = Unit
  Fill indexes (values ∷ answer) [] = ⊥
  Fill indexes (values ∷ answer) (r ∷ rows) =
      (length indexes ≤ length values) × Fill indexes answer rows

  -- Each row of the answer stands in the row of the table at its place, whose other columns are those
  -- from before.
  abbrev pub Synchronised : List ℕ → List (Row go) → List ℕ → Memory go → Memory go → Type 0
  Synchronised indexes [] rows mem mem' = Unit
  Synchronised indexes (values ∷ answer) [] mem mem' = Unit
  Synchronised indexes (values ∷ answer) (r ∷ rows) mem mem' =
      ((old : Row go) × (row : Row go) × (at mem r ≡ ok old)
        × (at mem' r ≡ ok row)
        × Holds indexes values row
        × SameBut indexes old row)
      × Synchronised indexes answer rows mem mem'

  module _ (indexes : List ℕ) where
    set-Fit :
        (mem : Memory go) (r : ℕ) (row : Row go) (rows : List ℕ)
        → has_row rows r ≡ false
        → Fit indexes mem rows
        → Fit indexes (set mem r row) rows
    unfolding has_row
    set-Fit mem r row [] apart fit = tt
    set-Fit mem r row (s ∷ rows) apart ((old, there, below), fit) =
        let (differ, rest) = head_apart s rows r apart in
        ((old, at-set_other mem r s row differ ∙ there, below), set-Fit mem r row rows rest fit)

    set-Synchronised :
        (mem mem' : Memory go) (r : ℕ) (row : Row go) (answer : List (Row go)) (rows : List ℕ)
        → has_row rows r ≡ false
        → Synchronised indexes answer rows (set mem r row) mem'
        → Synchronised indexes answer rows mem mem'
    unfolding has_row
    set-Synchronised mem mem' r row [] rows apart s = tt
    set-Synchronised mem mem' r row (values ∷ answer) [] apart s = tt
    set-Synchronised mem mem' r row (values ∷ answer) (t ∷ rows) apart
          ((old, new, at_old, at_new, holds, same), s) =
        let (differ, rest) = head_apart t rows r apart in
        (
          (old, new, sym (at-set_other mem r t row differ) ∙ at_old, at_new, holds, same),
          set-Synchronised mem mem' r row answer rows rest s,
        )

    write_rows-ok :
        (answer : List (Row go)) (rows : List ℕ) (mem : Memory go)
        → RowsDistinct indexes
        → RowsDistinct rows
        → Fit indexes mem rows
        → Fill indexes answer rows
        → (mem' : Memory go) × (write_rows go indexes answer rows mem ≡ ok (mem', done))
          × Synchronised indexes answer rows mem mem'
          × SameBut rows mem mem'
    unfolding write_rows has_row overwrite_at
    write_rows-ok [] rows mem d d' fit fill =
        (mem, refl, tt, λ x. same_if (has_row rows x) (at mem x))
    write_rows-ok (values ∷ answer) [] mem d d' fit fill = absurd fill
    write_rows-ok (values ∷ answer) (r ∷ rows) mem d d' ((old, there, below), fit) (long, fill) =
        let (row, written, len, holds, others) = overwrite-ok indexes values old d below long in
        let within = at-within mem r there in
        let (mem', run, synced, same) =
          write_rows-ok answer rows (set mem r row) d d'.1 (set-Fit mem r row rows d'.0 fit) fill in
        (
          mem',
          long_enough (length values) (length indexes) _ _ long
              ∙ bind-ok _ (bind-ok _ there ∙ (bind-ok _ written ∙ put-ok mem r row within))
              ∙ run,
          (
            (old, row, there, same r ∙ (rw d'.0 (at-set_self mem r row within)), holds, others),
            set-Synchronised mem mem' r row answer rows d'.0 synced,
          ),
          λ x. SameBut-cons rows r x row mem mem' same,
        )

  not_more :
      (indexes : List ℕ) (answer : List (Row go)) (rows : List ℕ)
      → Fill indexes answer rows
      → ltb (length rows) (length answer) ≡ false
  not_more indexes [] rows h = ground arith
  not_more indexes (values ∷ answer) [] h = absurd h
  not_more indexes (values ∷ answer) (r ∷ rows) h = ground (arith, not_more indexes answer rows)

  -- How the update ends, by the table and its rows: where the rows are written, it succeeds, but for the
  -- table `status`, whose first row is asked for the program start.
  abbrev pub Ended :
      Value go.Float → DataTable → Memory go → Result Panic (Memory go × Update go) → Type 0
  Ended start d mem' result =
      ((equal d.table.name (codes "status") ≡ false) × (result ≡ ok (mem', done)))
      ⊎ ((equal d.table.name (codes "status") ≡ true)
          × (((d.rows ≡ []) × (result ≡ err index_out_of_range))
              ⊎ ((r : ℕ) × (rows : List ℕ) × (d.rows ≡ r ∷ rows)
                  × (result ≡ (do
                    held ← (do
                      row ← at mem' r
                      at row (index_of (codes "program_start") d.table.columns_index))
                    same ← interface_equals go start held
                    ok (mem', (if same then done else restart_required)))))))

  abbrev reported : Memory go → Bool → Memory go × Update go
  reported mem' restarted = (mem', if restarted then restart_required else done)

  swapped :
      (mem' : Memory go) (same : Bool)
      → reported mem' (not same) ≡ (mem', if same then done else restart_required)
  swapped mem' true = refl
  swapped mem' false = refl

  -- the test and its result, which are two steps of the code
  tested-once :
      (mem' : Memory go) (held : Result Panic (Value go.Float)) (start : Value go.Float)
      → (do
        restarted ← (do h ← held; same ← interface_equals go start h; ok (not same))
        ok (reported mem' restarted))
        ≡ (do
          h ← held
          same ← interface_equals go start h
          ok (mem', (if same then done else restart_required)))
  tested-once mem' (err p) start = refl
  tested-once mem' (ok h) start = elim (Result-cases (interface_equals go start h)) [
    | inl (p, is) ↦ rw is refl
    | inr (same, is) ↦ rw is (ap ok (swapped mem' same))
  ]

  note_restart-Ended :
      (start : Value go.Float) (d : DataTable) (mem' : Memory go)
      → Ended start d mem' (note_restart go start d (mem', done))
  unfolding is_restarted
  note_restart-Ended start d mem' = elim (Bool-cases (equal d.table.name (codes "status"))) [
    | inr other ↦ inl (other, rw other refl)
    | inl status ↦ inr (
      status,
      elim (nil_or_cons d.rows) [
        | inl none ↦ inl (none, rw (status, none) refl)
        | inr (r, rows, is) ↦ inr (
          r,
          rows,
          is,
          rw (status, is)
              (tested-once mem'
                (do
                  row ← at mem' r
                  at row (index_of (codes "program_start") d.table.columns_index))
                start),
        )
      ],
    )
  ]

  -- For a table other than `timeperiods`, let the answer have at most as many rows as the table, each
  -- long enough, and let the rows of the table be different ones that have the dynamic columns. Then
  -- each row of the answer is written into the row of the table at its place, and the other columns
  -- and the other rows of the memory are as before. The update of a table other than `status` then
  -- succeeds; that of `status` panics if the table has no row, and otherwise compares the program
  -- start of the first row with that of the peer's status, and where that succeeds, reports a restart
  -- exactly if they are not equal.
  pub update_object_by_type-synchronises :
      (ask : Request go → Result Bytes (List (Row go))) (flags : PeerFlags) (start : Value go.Float)
      (d : DataTable) (mem : Memory go) (answer : List (Row go))
      → equal d.table.name (codes "timeperiods") ≡ false
      → IsUpdated d
      → ask (query_of go d.table.name (names_of (get_dynamic_columns flags d.table)) []) ≡ ok answer
      → RowsDistinct (indexes_of (get_dynamic_columns flags d.table))
      → RowsDistinct d.rows
      → Fit (indexes_of (get_dynamic_columns flags d.table)) mem d.rows
      → Fill (indexes_of (get_dynamic_columns flags d.table)) answer d.rows
      → (mem' : Memory go) × Synchronised
          (indexes_of (get_dynamic_columns flags d.table))
          answer
          d.rows
          mem
          mem'
        × SameBut d.rows mem mem'
        × Ended start d mem' (update_object_by_type go ask flags start d mem)
  unfolding update_object_by_type
  update_object_by_type-synchronises ask flags start d mem answer periods (dynamic, real, stored)
        asked distinct rows_distinct fit fill =
      let indexes = indexes_of (get_dynamic_columns flags d.table) in
      let (mem', run, synced, same) =
        write_rows-ok indexes answer d.rows mem distinct rows_distinct fit fill in
      let updated : update_object_by_type go ask flags start d mem
          ≡ note_restart go start d (mem', done) =
        rw (dynamic, real, stored, asked, not_more indexes answer d.rows fill) (bind-ok _ run) in
      (
        mem',
        synced,
        same,
        subst (Ended start d mem') (sym updated) (note_restart-Ended start d mem'),
      )
