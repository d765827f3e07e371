-- ===== src/Objects/Schema/Indexed.antt =====
-- Every table that `InitObjects` of lmd/objects.go makes finds its columns.
use mathlib.Core.Path.{subst}
use lmd.Prelude.{
  ◌≡◌, refl, Bool, true, List, [], ◌∷◌, Bytes, codes, some, Result, false, ok, err, ok-injective,
  >>=-eq-ok, ◌>>=◌, Option-cases, Bool-cases, inl, inr, arith, equal,
}
use lmd.Prelude.Dict.{lookup, insert, lookup-insert}
use lmd.Objects.{
  Table, new_table, ObjectsType, add_table, add_column, add_opt_column, add_ref_column, no_flags,
}
use lmd.Objects.Lookup.{
  IsIndexed, new_table-IsIndexed, add_opt_column-IsIndexed, add_ref_column-IsIndexed,
}
use lmd.Objects.Schema.{Entry, column, opt_column, ref_column, add_entry, add_entries}
use lmd.Objects.Schema.Init.{
  Kind, plain, virtual, passthrough, grouping, flagged, Spec, specs, add_specs, init_objects,
}

add_entry-IsIndexed :
    (o : ObjectsType) (e : Entry) (t : Table) {u : Table}
    → IsIndexed t
    → add_entry o e t ≡ ok u
    → IsIndexed u
unfolding add_entry add_column
add_entry-IsIndexed o (column name upd typ description) t h eq =
    subst IsIndexed (ok-injective eq)
      (add_opt_column-IsIndexed (codes name) upd typ no_flags (codes description) t h)
add_entry-IsIndexed o (opt_column name upd typ restrict description) t h eq =
    subst IsIndexed (ok-injective eq)
      (add_opt_column-IsIndexed (codes name) upd typ restrict (codes description) t h)
add_entry-IsIndexed o (ref_column ref prefix name local_name) t h eq =
    add_ref_column-IsIndexed o (codes ref) (codes prefix) (codes name) (codes local_name) t h eq

add_entries-IsIndexed :
    (o : ObjectsType) (es : List Entry) (t : Table) {u : Table}
    → IsIndexed t
    → add_entries o es t ≡ ok u
    → IsIndexed u
unfolding add_entries
add_entries-IsIndexed o [] t h eq = subst IsIndexed (ok-injective eq) h
add_entries-IsIndexed o (e ∷ es) t h eq =
    let (next, added, rest) = >>=-eq-ok (add_entry o e t) (add_entries o es) eq in
    add_entries-IsIndexed o es next (add_entry-IsIndexed o e t h added) rest

flagged-IsIndexed : (k : Kind) (t : Table) → IsIndexed t → IsIndexed (flagged k t)
flagged-IsIndexed plain t h = h
flagged-IsIndexed virtual t h = record { counted = h.counted; found = h.found }
flagged-IsIndexed passthrough t h = record { counted = h.counted; found = h.found }
flagged-IsIndexed grouping t h = record { counted = h.counted; found = h.found }

pub AllIndexed : ObjectsType → Type 0
AllIndexed o = (name : Bytes) (t : Table) → lookup name o.tables ≡ some t → IsIndexed t

add_table-AllIndexed :
    (name : Bytes) (t : Table) (o : ObjectsType) {o' : ObjectsType}
    → IsIndexed t
    → AllIndexed o
    → add_table name t o ≡ ok o'
    → AllIndexed o'
unfolding add_table AllIndexed
add_table-AllIndexed name t o {o'} h all added j u at = elim (Option-cases (lookup name o.tables)) [
  | inr (old, there) ↦ absurd (ground arith)
  | inl missing ↦
      let inserted : insert name t o.tables ≡ o'.tables = ground arith in
      let at' : lookup j (insert name t o.tables) ≡ some u = rw (inserted) at in
      elim (Bool-cases (equal name j)) [
        | inl same ↦
            let is : t ≡ u = ground (arith, lookup-insert name j t o.tables) in subst IsIndexed is h
        | inr other ↦ all j u (ground (arith, lookup-insert name j t o.tables))
      ]
]

add_specs-AllIndexed :
    (ss : List Spec) (o : ObjectsType) {o' : ObjectsType}
    → AllIndexed o
    → add_specs ss o ≡ ok o'
    → AllIndexed o'
unfolding add_specs
add_specs-AllIndexed [] o all eq = subst AllIndexed (ok-injective eq) all
add_specs-AllIndexed (s ∷ ss) o all eq =
    let start = flagged s.kind (new_table (codes s.name)) in
    let (t, built, eq') =
      >>=-eq-ok (add_entries o s.columns start) (λ t. add_table (codes s.name) t o >>= add_specs ss)
        eq in
    let (next, added, rest) = >>=-eq-ok (add_table (codes s.name) t o) (add_specs ss) eq' in
    add_specs-AllIndexed ss next
      (add_table-AllIndexed (codes s.name) t o
        (add_entries-IsIndexed o s.columns start
          (flagged-IsIndexed s.kind _ (new_table-IsIndexed (codes s.name))) built)
        all added)
      rest

no_tables-AllIndexed : AllIndexed (record { tables = []; order = [] })
unfolding AllIndexed lookup
no_tables-AllIndexed name t at = absurd (cc at)

abbrev is_ok {ℓ κ} : {E : Type κ} {A : Type ℓ} → Result E A → Bool
is_ok (ok a) = true
is_ok (err e) = false

is_ok-ok {ℓ κ} : {E : Type κ} {A : Type ℓ} (m : Result E A) → is_ok m ≡ true → (a : A) × (m ≡ ok a)
is_ok-ok (ok a) h = (a, refl)
is_ok-ok (err e) h = absurd (cc h)

init_objects_ok : is_ok init_objects ≡ true
unfolding init_objects add_entries add_column add_opt_column add_ref_column add_table lookup insert
    equal
init_objects_ok = refl

-- The tables are set up without a panic, and in each of them every name in the index leads to the
-- column of that name.
pub init_objects-AllIndexed : (o : ObjectsType) × (init_objects ≡ ok o) × AllIndexed o
unfolding init_objects
init_objects-AllIndexed =
    let (o, made) = is_ok-ok init_objects init_objects_ok in
    (
      o,
      made,
      add_specs-AllIndexed specs (record { tables = []; order = [] }) no_tables-AllIndexed made,
    )
