-- ===== src/Main/Reload.antt =====
-- The store of peers after `initializePeers` of lmd/main.go, at the start and at a reload.
use lmd.Prelude.{
  Bool, true, false, ◌&&◌, ◌||◌, not, Option, none, some, List, [], ◌∷◌, ◌++◌, append_assoc,
  append-nil, Bytes, equal, equal_iff, Result, ok, err, >>=-eq-ok, ok-injective, ◌≡◌, refl, ap, ◌∙◌,
  sym, arith, if◌then◌else◌,
}
use lmd.Prelude.Dict.{Dict, lookup, insert, delete, lookup-insert, lookup-delete}
use lmd.Runtime.{Panic, raised}
use lmd.Nodes.{contains}
use lmd.Nodes.Update.Lists.{AllDistinct}
use lmd.Main.{
  Connection, StoredPeer, keep_or_create, ids, keys, drop_obsolete, set_peers, initialize_peers,
}

-- is there a peer with this id?
abbrev found : Option StoredPeer → Bool
found none = false
found (some p) = true

unfoldable pub has_peer : Bytes → Dict StoredPeer → Bool
unfolding lookup
has_peer id store = found (lookup id store)

contains-keys :
    (id : Bytes) (store : Dict StoredPeer) → contains (keys store) id ≡ has_peer id store
unfolding contains has_peer lookup
contains-keys id [] = refl
contains-keys id ((name, p) ∷ rest) = ground (arith, contains-keys id rest)

found-either :
    (b : Bool) (p : StoredPeer) (o : Option StoredPeer)
    → found (if b then some p else o) ≡ (b || found o)
found-either true p o = refl
found-either false p o = refl

found-unless :
    (b : Bool) (o : Option StoredPeer) → found (if b then none else o) ≡ (not b && found o)
found-unless true o = refl
found-unless false o = refl

has_peer-insert :
    (key id : Bytes) (p : StoredPeer) (store : Dict StoredPeer)
    → has_peer id (insert key p store) ≡ (equal key id || has_peer id store)
unfolding has_peer
has_peer-insert key id p store =
    ap found (lookup-insert key id p store) ∙ found-either (equal key id) p (lookup id store)

has_peer-delete :
    (key id : Bytes) (store : Dict StoredPeer)
    → has_peer id (delete key store) ≡ (not (equal key id) && has_peer id store)
unfolding has_peer
has_peer-delete key id store =
    ap found (lookup-delete key id store) ∙ found-unless (equal key id) (lookup id store)

has_peer-drop_step :
    (b : Bool) (key id : Bytes) (store : Dict StoredPeer)
    → has_peer id (if b then store else delete key store)
      ≡ ((b || not (equal key id)) && has_peer id store)
has_peer-drop_step true key id store = refl
has_peer-drop_step false key id store = has_peer-delete key id store

has_peer-drop_obsolete :
    (configured names : List Bytes) (id : Bytes) (store : Dict StoredPeer)
    → has_peer id (drop_obsolete configured names store)
      ≡ (has_peer id store && (contains configured id || not (contains names id)))
unfolding drop_obsolete contains
has_peer-drop_obsolete configured [] id store = ground arith
has_peer-drop_obsolete configured (name ∷ names) id store = ground (
  arith,
  has_peer-drop_obsolete configured names id
      (if contains configured name then store else delete name store),
  has_peer-drop_step (contains configured name) name id store,
  equal_iff name id,
)

contains-snoc :
    (xs : List Bytes) (x id : Bytes) → contains (xs ++ (x ∷ [])) id ≡ (contains xs id || equal x id)
unfolding contains
contains-snoc [] x id = ground arith
contains-snoc (y ∷ xs) x id = ground (arith, contains-snoc xs x id)

pub not_duplicate :
    {A : Type 0} (b : Bool) (rest : Result Panic A) {done : A}
    → (if b then err raised else rest) ≡ ok done
    → (b ≡ false) × (rest ≡ ok done)
not_duplicate true rest eq = absurd (cc eq)
not_duplicate false rest eq = (refl, eq)

-- what the loop over the connections does when it ends
pub set_peers-ok :
    (store : Dict StoredPeer) (order : List Bytes) (cs : List Connection)
    {done : Dict StoredPeer × List Bytes}
    → set_peers store order cs ≡ ok done
    → (done.1 ≡ order ++ ids cs)
      × AllDistinct (ids cs)
      × ((id : Bytes) → has_peer id done.0 ≡ (contains (ids cs) id || has_peer id store))
      × ((id : Bytes) → contains order id ≡ true → contains (ids cs) id ≡ false)
unfolding set_peers contains
set_peers-ok store order [] eq =
    let is = ok-injective eq in
    (
      sym (ap (λ d. d.1) is) ∙ sym (append-nil order),
      tt,
      (λ id. sym (ap (λ d. has_peer id d.0) is)),
      λ id h. refl,
    )
set_peers-ok store order (c ∷ cs) eq =
    let (p, made, eq') = >>=-eq-ok (keep_or_create c (lookup c.id store)) _ eq in
    let (fresh, go) = not_duplicate (contains order c.id) _ eq' in
    let (ordered, distinct, has, apart) =
      set_peers-ok (insert c.id p store) (order ++ (c.id ∷ [])) cs go in
    (
      ordered ∙ append_assoc order (c.id ∷ []) (ids cs),
      (apart c.id (ground (arith, contains-snoc order c.id c.id, equal_iff c.id c.id)), distinct),
      (λ id. ground (arith, has id, has_peer-insert c.id id p store)),
      (λ id h. grind (arith, apart id, contains-snoc order c.id id, fresh, equal_iff c.id id)),
    )

-- When `initializePeers` succeeds, no two connections share an id, the order of the peers is that of
-- the connections, and the store holds a peer under an id exactly if a connection has the id.
pub initialize_peers-ids :
    (connections : List Connection) (store : Dict StoredPeer) {done : Dict StoredPeer × List Bytes}
    → initialize_peers connections store ≡ ok done
    → AllDistinct (ids connections)
      × (done.1 ≡ ids connections)
      × ((id : Bytes) → has_peer id done.0 ≡ contains (ids connections) id)
unfolding initialize_peers
initialize_peers-ids connections store eq =
    let (ordered, distinct, has, apart) =
      set_peers-ok (drop_obsolete (ids connections) (keys store) store) [] connections eq in
    (
      distinct,
      ordered,
      λ id. ground (
        arith,
        has id,
        has_peer-drop_obsolete (ids connections) (keys store) id store,
        contains-keys id store,
      ),
    )
