-- ===== src/DataTable/Entries/Mirror.antt =====
-- The comments or downtimes of a peer of lmd/peer.go after `UpdateDeltaCommentsOrDowntimes`.
use mathlib.Core.Path.{subst}
use lmd.Prelude.{
  ℕ, Bool, true, false, ◌&&◌, ◌||◌, not, Option, none, some, List, [], ◌∷◌, ◌++◌, Bytes, codes,
  equal, equal_iff, length, Result, ok, ◌>>=◌, if◌then◌else◌, ◌≡◌, refl, arith, sym, ap, ◌∙◌,
  >>=-eq-ok, ok-injective, Bool-cases, Option-cases, bind-ok, inl, inr,
}
use lmd.Prelude.Dict.{Dict, lookup, insert, delete, lookup-insert, lookup-delete}
use lmd.Runtime.{Go, Panic}
use lmd.Objects.{Table, PeerFlags, index_of}
use lmd.Filter.Match.{sprint}
use lmd.Request.{Request}
use lmd.DataTable.{at, DataTable, Row, Memory, without_row, id_column, remove_item, add_item}
use lmd.DataTable.Entries.{
  Entries, count_request, ids_request, rows_request, is_unchanged, read_keys, missing_ids, listed,
  keys, remove_old, add_new, fetch_new, fetch_ids, with_answer, update_delta_comments_or_downtimes,
}
use lmd.DataTable.Entries.Indexed.{IsIndexed, removed-IsIndexed, added-IsIndexed}

abbrev pub has_entry : Bytes → Dict ℕ → Bool
has_entry id index = elim (lookup id index) [ none ↦ false | some _ ↦ true ]

-- What is left under `x` of an index: the entries whose ids are among `ids` and not among those of the
-- remote site are gone.
abbrev left_by : List Bytes → List Bytes → Dict ℕ → Bytes → Option ℕ
left_by remote ids index x =
    if listed remote x then lookup x index else if listed ids x then none else lookup x index

left_by-gone :
    (remote ids : List Bytes) (index : Dict ℕ) (id x : Bytes)
    → lookup id index ≡ none
    → left_by remote ids index x ≡ left_by remote (id ∷ ids) index x
unfolding listed
left_by-gone remote ids index id x gone = elim (Bool-cases (equal id x)) [
  | inl same ↦
      let is = (equal_iff id x).0 same in
      let free = sym (ap (λ k. lookup k index) is) ∙ gone in ground arith
  | inr differ ↦ rw differ refl
]

left_by-stays :
    (remote ids : List Bytes) (index : Dict ℕ) (id x : Bytes)
    → listed remote id ≡ true
    → left_by remote ids index x ≡ left_by remote (id ∷ ids) index x
unfolding listed
left_by-stays remote ids index id x stays = elim (Bool-cases (equal id x)) [
  | inl same ↦
      let is = (equal_iff id x).0 same in
      let here = sym (ap (listed remote) is) ∙ stays in ground arith
  | inr differ ↦ rw differ refl
]

delete_twice :
    (id x : Bytes) (index : Dict ℕ)
    → lookup x (delete id (delete id index)) ≡ (if equal id x then none else lookup x index)
delete_twice id x index =
    ground (arith, lookup-delete id x (delete id index), lookup-delete id x index)

left_by-old :
    (remote ids : List Bytes) (index : Dict ℕ) (id x : Bytes)
    → listed remote id ≡ false
    → left_by remote ids (delete id (delete id index)) x ≡ left_by remote (id ∷ ids) index x
unfolding listed
left_by-old remote ids index id x old = elim (Bool-cases (equal id x)) [
  | inl same ↦
      let is = (equal_iff id x).0 same in
      let here = sym (ap (listed remote) is) ∙ old in ground (arith, delete_twice id x index)
  | inr differ ↦ ground (arith, delete_twice id x index)
]

abbrev pub KeysDistinct : List Bytes → Type 0
KeysDistinct [] = Unit
KeysDistinct (x ∷ xs) = (listed xs x ≡ false) × KeysDistinct xs

listed-keys : (index : Dict ℕ) (x : Bytes) → listed (keys index) x ≡ has_entry x index
unfolding listed lookup
listed-keys [] x = refl
listed-keys ((id, row) ∷ index) x = ground (arith, listed-keys index x)

listed-missing_ids :
    (index : Dict ℕ) (ids : List Bytes) (x : Bytes)
    → listed (missing_ids index ids) x ≡ (listed ids x && not (has_entry x index))
unfolding listed missing_ids
listed-missing_ids index [] x = refl
listed-missing_ids index (id ∷ ids) x = elim (Bool-cases (equal id x)) [
  | inl same ↦
      let is = (equal_iff id x).0 same in
      let there = ap (λ k. lookup k index) is in ground (arith, listed-missing_ids index ids x)
  | inr differ ↦ ground (arith, listed-missing_ids index ids x)
]

has_entry-insert :
    (key x : Bytes) (row : ℕ) (index : Dict ℕ)
    → has_entry x (insert key row index) ≡ (has_entry x index || equal key x)
has_entry-insert key x row index = ground (arith, lookup-insert key x row index)

-- what was removed and what is missing make up the ids of the remote site
removed_and_missing :
    (remote : List Bytes) (index index' : Dict ℕ) (x : Bytes)
    → lookup x index' ≡ left_by remote (keys index) index x
    → (has_entry x index' || listed (missing_ids index remote) x) ≡ listed remote x
removed_and_missing remote index index' x left =
    ground (arith, listed-keys index x, listed-missing_ids index remote x)

abbrev pub Free : List Bytes → Dict ℕ → Type 0
Free ids index = (x : Bytes) → listed ids x ≡ true → lookup x index ≡ none

insert-Free :
    (id : Bytes) (row : ℕ) (ids : List Bytes) (index : Dict ℕ)
    → listed ids id ≡ false
    → Free (id ∷ ids) index
    → Free ids (insert id row index)
unfolding listed
insert-Free id row ids index apart free x h = elim (Bool-cases (equal id x)) [
  | inl same ↦
      let is = (equal_iff id x).0 same in
      let clash = sym (ap (listed ids) is) ∙ apart in absurd (cc (clash, h))
  | inr differ ↦ lookup-insert id x row index ∙ (rw differ (free x (rw differ h)))
]

listed_once :
    (id x : Bytes) (ids : List Bytes) (b : Bool)
    → ((b || equal id x) || listed ids x) ≡ (b || listed (id ∷ ids) x)
unfolding listed
listed_once id x ids b = ground arith

with_answer-ok :
    (go : Go) (ask : Request go → Result Bytes (List (Row go))) (e : Entries go)
    {reply : Result Bytes (List (Row go))} {rows : List (Row go)}
    (next : List (Row go) → Result Panic (Entries go × Option Bytes))
    → reply ≡ ok rows
    → with_answer go ask e reply next ≡ next rows
with_answer-ok go ask e next is = ap (λ r. with_answer go ask e r next) is

module _ (go : Go) (field : ℕ) where
  abbrev pub TableIndexed : Memory go → DataTable → Type 0
  TableIndexed mem d = IsIndexed go mem field d.rows d.index

  remove_item-ok :
      (mem : Memory go) (d : DataTable) (id : Bytes) (row : ℕ)
      → id_column d.table ≡ ok field
      → TableIndexed mem d
      → lookup id d.index ≡ some row
      → remove_item go mem row d
        ≡ ok (record d { rows = without_row row d.rows; index = delete id d.index })
  unfolding remove_item
  remove_item-ok mem d id row column i at_id =
      let (key, held) = i.leads id row at_id in rw (held, column, key) refl

  remove_old-ok :
      (mem : Memory go) (remote ids : List Bytes) (d : DataTable)
      → id_column d.table ≡ ok field
      → TableIndexed mem d
      → (d' : DataTable) × (remove_old go mem remote ids d ≡ ok d')
        × TableIndexed mem d'
        × (d'.table ≡ d.table)
        × ((x : Bytes) → lookup x d'.index ≡ left_by remote ids d.index x)
  unfolding remove_old listed
  remove_old-ok mem remote [] d column i = (d, refl, i, refl, λ x. ground arith)
  remove_old-ok mem remote (id ∷ ids) d column i = elim (Option-cases (lookup id d.index)) [
    | inl gone ↦
        let (d', run, i', same, left) = remove_old-ok mem remote ids d column i in
        (
          d',
          rw (gone, remove_old) run,
          i',
          same,
          λ x. left x ∙ left_by-gone remote ids d.index id x gone,
        )
    | inr (row, at_id) ↦ elim (Bool-cases (listed remote id)) [
      | inl stays ↦
          let (d', run, i', same, left) = remove_old-ok mem remote ids d column i in
          (
            d',
            rw (at_id, stays, remove_old) run,
            i',
            same,
            λ x. left x ∙ left_by-stays remote ids d.index id x stays,
          )
      | inr old ↦
          let smaller = record d {
            rows = without_row row d.rows;
            index = delete id (delete id d.index);
          } in
          let (d', run, i', same, left) = remove_old-ok mem remote ids smaller column (
            removed-IsIndexed go mem field d.rows d.index i id row _ at_id
              (λ x. delete_twice id x d.index)) in
          (
            d',
            rw (at_id, old, remove_item-ok mem d id row column i at_id, remove_old) run,
            i',
            same,
            λ x. left x ∙ left_by-old remote ids d.index id x old,
          )
    ]
  ]

  pub add_new-ok :
      (rows : List (Row go)) (ids : List Bytes) (e : Entries go)
      → TableIndexed e.memory e.held
      → read_keys go field rows ≡ ok ids
      → KeysDistinct ids
      → Free ids e.held.index
      → (e' : Entries go) × (add_new go field rows e ≡ ok e')
        × TableIndexed e'.memory e'.held
        × ((x : Bytes) → has_entry x e'.held.index ≡ (has_entry x e.held.index || listed ids x))
  unfolding add_new read_keys listed add_item
  add_new-ok [] ids e i read distinct free = (e, refl, i, λ x. ground arith)
  add_new-ok (row ∷ rows) ids e i read distinct free =
      let (v, at_field, read') = >>=-eq-ok (at row field) _ read in
      let (others, read_others, all) = >>=-eq-ok (read_keys go field rows) _ read' in
      let is = ok-injective all in
      let apart = subst KeysDistinct (sym is) distinct in
      let unused = subst (λ ks. Free ks e.held.index) (sym is) free in
      let key = sprint go v in
      let first : listed (key ∷ others) key ≡ true = ground (arith, equal_iff key key) in
      let (e', run, i', has) =
        add_new-ok rows others
          (record {
            memory = e.memory ++ row ∷ [];
            held =
                add_item (length e.memory)
                  (record e.held { index = insert key (length e.memory) e.held.index });
          })
          (added-IsIndexed go e.memory field e.held.rows e.held.index i row at_field
            (unused key first))
          read_others apart.1
          (insert-Free key (length e.memory) others e.held.index apart.0 unused) in
      (
        e',
        bind-ok _ at_field ∙ run,
        i',
        λ x.
            has x
            ∙ ap (λ b. b || listed others x) (has_entry-insert key x (length e.memory) e.held.index)
            ∙ listed_once key x others (has_entry x e.held.index)
            ∙ ap (λ ks. has_entry x e.held.index || listed ks x) is,
      )

  module _ (ask : Request go → Result Bytes (List (Row go))) (t : Table) (flags : PeerFlags) where
    -- the remote site answers the request for the missing rows by a row for each of them
    abbrev pub Supplies : List Bytes → Type 0
    Supplies [] = Unit
    Supplies (id ∷ ids) =
        (rows : List (Row go)) × (sent : List Bytes) × (ask (rows_request go t flags (id ∷ ids))
          ≡ ok rows)
        × (read_keys go field rows ≡ ok sent)
        × KeysDistinct sent
        × ((x : Bytes) → listed sent x ≡ listed (id ∷ ids) x)

    fetch_new-ok :
        (missing : List Bytes) (e : Entries go)
        → index_of (codes "id") t.columns_index ≡ field
        → TableIndexed e.memory e.held
        → Supplies missing
        → Free missing e.held.index
        → (e' : Entries go) × (fetch_new go ask t flags missing e ≡ ok (e', none))
          × TableIndexed e'.memory e'.held
          × ((x : Bytes)
              → has_entry x e'.held.index ≡ (has_entry x e.held.index || listed missing x))
    unfolding fetch_new listed
    fetch_new-ok [] e at_id i supplies free = (e, refl, i, λ x. ground arith)
    fetch_new-ok (id ∷ ids) e at_id i (rows, sent, answer, read, distinct, same) free =
        let (e', run, i', has) =
          add_new-ok rows sent e i read distinct (λ x h. free x (sym (same x) ∙ h)) in
        (
          e',
          with_answer-ok go ask e
                (λ news. add_new go (index_of (codes "id") t.columns_index) news e >>= λ e''.
                  ok (e'', none))
                answer
              ∙ bind-ok (λ e''. ok (e'', none)) (ap (λ n. add_new go n rows e) at_id ∙ run),
          i',
          λ x. has x ∙ ap (λ b. has_entry x e.held.index || b) (same x),
        )

    missing_ids-Free :
        (remote : List Bytes) (index index' : Dict ℕ)
        → ((x : Bytes) → lookup x index' ≡ left_by remote (keys index) index x)
        → Free (missing_ids index remote) index'
    missing_ids-Free remote index index' left x h =
        ground (arith, left x, listed-keys index x, listed-missing_ids index remote x)

    -- Let the rows and the index of the table agree, and let the remote site have changed: its ids are
    -- `remote`, and it answers the request for the missing rows by a row for each of them. Then the
    -- update succeeds, the rows and the index agree again, and the index holds exactly the ids of the
    -- remote site.
    pub update_delta-mirrors :
        (e : Entries go) (counts answer : List (Row go)) (remote : List Bytes)
        → index_of (codes "id") t.columns_index ≡ field
        → id_column e.held.table ≡ ok field
        → TableIndexed e.memory e.held
        → ask (count_request go t) ≡ ok counts
        → is_unchanged go e.memory e.held.rows field counts ≡ ok false
        → ask (ids_request go t) ≡ ok answer
        → read_keys go 0 answer ≡ ok remote
        → Supplies (missing_ids e.held.index remote)
        → (e' : Entries go) × (update_delta_comments_or_downtimes go ask t flags e ≡ ok (e', none))
          × TableIndexed e'.memory e'.held
          × ((x : Bytes) → has_entry x e'.held.index ≡ listed remote x)
    unfolding update_delta_comments_or_downtimes fetch_ids
    update_delta-mirrors e counts answer remote at_id column i counted changed asked read supplies =
        let (d, removed, i', table, left) =
          remove_old-ok e.memory remote (keys e.held.index) e.held column i in
        let (e', run, i'', has) =
          fetch_new-ok (missing_ids e.held.index remote) (record e { held = d }) at_id i' supplies
            (missing_ids-Free remote e.held.index d.index left) in
        (
          e',
          with_answer-ok go ask e _ counted
              ∙ bind-ok _ (ap (λ n. is_unchanged go e.memory e.held.rows n counts) at_id ∙ changed)
              ∙ with_answer-ok go ask e _ asked
              ∙ bind-ok _ read
              ∙ bind-ok _ removed
              ∙ run,
          i'',
          λ x. has x ∙ removed_and_missing remote e.held.index d.index x (left x),
        )
