-- ===== src/DataTable/Index/Created.antt =====
-- The rows and the index of the comments or downtimes, as lmd/peer.go creates the table.
use mathlib.Core.Path.{subst}
use lmd.Prelude.{
  ℕ, ◌+◌, true, some, List, [], ◌∷◌, ◌++◌, Bytes, codes, length, length-append, ok, ◌>>=◌, bind-ok,
  >>=-eq-ok, ok-injective, append-nil, append_assoc, ◌≡◌, refl, ap, sym, ◌∙◌,
}
use lmd.Prelude.Dict.{lookup, insert}
use lmd.Runtime.{Go}
use lmd.Objects.{Table, index_of}
use lmd.Filter.Match.{sprint}
use lmd.DataTable.{at, Row, add_item, has_row}
use lmd.DataTable.Entries.{Entries, add_new, read_keys, listed}
use lmd.DataTable.Entries.Indexed.{IsIndexed}
use lmd.DataTable.Entries.Mirror.{has_entry, TableIndexed, KeysDistinct, add_new-ok}
use lmd.DataTable.Index.{is_numbered, index_key, create_index, created_entries, references}

module _ (go : Go) (t : Table) (numbered : is_numbered t.name ≡ true) where
  index_key-numbered :
      (row : Row go)
      → index_key go t row
        ≡ (do v ← at row (index_of (codes "id") t.columns_index); ok (some (sprint go v)))
  unfolding index_key
  index_key-numbered row = rw numbered refl

  -- `createIndex` enters the rows as the updates do that add them one by one
  create_index-add_new :
      (rows : List (Row go)) (e : Entries go) {e' : Entries go}
      → add_new go (index_of (codes "id") t.columns_index) rows e ≡ ok e'
      → (create_index go t (length e.memory) rows e.held.index ≡ ok e'.held.index)
        × (e'.memory ≡ e.memory ++ rows)
        × (e'.held.rows ≡ e.held.rows ++ references (length e.memory) (length rows))
  unfolding add_new create_index references add_item
  create_index-add_new [] e eq =
      let is = ok-injective eq in
      (
        ap (λ (x : Entries go). ok x.held.index) is,
        ap (λ (x : Entries go). x.memory) (sym is) ∙ sym (append-nil e.memory),
        ap (λ (x : Entries go). x.held.rows) (sym is) ∙ sym (append-nil e.held.rows),
      )
  create_index-add_new (row ∷ rows) e eq =
      let (v, at_id, eq') = >>=-eq-ok (at row (index_of (codes "id") t.columns_index)) _ eq in
      let (made, memory, refs) = create_index-add_new rows _ eq' in
      let grown : length (e.memory ++ row ∷ []) ≡ length e.memory + 1 =
        length-append e.memory (row ∷ []) in
      let key = index_key-numbered row ∙ bind-ok _ at_id in
      (
        bind-ok _ key
            ∙ ap
                (λ n.
                  create_index go t n rows (insert (sprint go v) (length e.memory) e.held.index))
                (sym grown)
            ∙ made,
        memory ∙ append_assoc e.memory (row ∷ []) rows,
        refs
            ∙ append_assoc e.held.rows (length e.memory ∷ []) _
            ∙ ap (λ n. e.held.rows ++ length e.memory ∷ references n (length rows)) grown,
      )

  abbrev empty : Entries go
  empty = record { memory = []; held = record { table = t; rows = []; index = [] } }

  empty-IsIndexed : (n : ℕ) → IsIndexed go [] n [] []
  unfolding lookup has_row
  empty-IsIndexed n = record {
    leads = λ key r h. absurd (cc h);
    keyed = λ r h. absurd (cc h);
    distinct = tt;
  }

  -- For comments or downtimes whose ids can be read and are different, createIndex succeeds and
  -- the table is set up so that rows and index agree, as the updates want it, and the index holds
  -- exactly the ids.
  pub created_entries-indexed :
      (rows : List (Row go)) (ids : List Bytes)
      → read_keys go (index_of (codes "id") t.columns_index) rows ≡ ok ids
      → KeysDistinct ids
      → (e : Entries go) × (created_entries go t rows ≡ ok e)
        × TableIndexed go (index_of (codes "id") t.columns_index) e.memory e.held
        × ((x : Bytes) → has_entry x e.held.index ≡ listed ids x)
  unfolding created_entries lookup
  created_entries-indexed rows ids read distinct =
      let (e, run, indexed, has) =
        add_new-ok go (index_of (codes "id") t.columns_index) rows ids empty
          (empty-IsIndexed (index_of (codes "id") t.columns_index)) read distinct (λ x h. refl) in
      let (made, memory, refs) = create_index-add_new rows empty run in
      (
        record {
          memory = rows;
          held = record { table = t; rows = references 0 (length rows); index = e.held.index };
        },
        bind-ok _ made,
        subst
            (λ m.
              IsIndexed go m (index_of (codes "id") t.columns_index) (references 0 (length rows))
                e.held.index)
            memory
            (subst
              (λ rs. IsIndexed go e.memory (index_of (codes "id") t.columns_index) rs e.held.index)
              refs indexed),
        has,
      )
