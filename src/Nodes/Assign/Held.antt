-- ===== src/Nodes/Assign/Held.antt =====
-- What `nodeBackends` of lmd/nodes.go holds for each node, after `redistribute` has filled it.
use lmd.Prelude.{
  Bool, true, false, ◌||◌, Option, none, some, List, [], ◌∷◌, Bytes, equal, equal_iff, equal_self,
  ◌≡◌, refl, ap, sym, ◌∙◌, arith, length, map, Bool-cases, inl, inr,
}
use lmd.Prelude.Dict.{Dict, lookup, insert, lookup-insert}
use lmd.Nodes.{NodeAddress}
use lmd.Nodes.Assign.{by_node}

abbrev pub has_id : List NodeAddress → Bytes → Bool
has_id [] id = false
has_id (node ∷ nodes) id = let rest = has_id nodes id in equal node.id id || rest

-- no two nodes have one id
abbrev pub IdsDistinct : List NodeAddress → Type 0
IdsDistinct [] = Unit
IdsDistinct (node ∷ nodes) = (has_id nodes node.id ≡ false) × IdsDistinct nodes

-- the backends under an id, none if it is missing
abbrev pub or_none : Option (List Bytes) → List Bytes
or_none none = []
or_none (some backends) = backends

abbrev pub backends_of : Dict (List Bytes) → NodeAddress → List Bytes
backends_of m node = or_none (lookup node.id m)

abbrev Fresh : List NodeAddress → Dict (List Bytes) → Type 0
Fresh nodes m = (id : Bytes) → has_id nodes id ≡ true → lookup id m ≡ none

insert-other :
    (key id : Bytes) (list : List Bytes) (m : Dict (List Bytes))
    → equal key id ≡ false
    → lookup id (insert key list m) ≡ lookup id m
insert-other key id list m differ = lookup-insert key id list m ∙ rw differ refl

insert-own :
    (key : Bytes) (list : List Bytes) (m : Dict (List Bytes))
    → lookup key (insert key list m) ≡ some list
insert-own key list m = lookup-insert key key list m ∙ rw (equal_self key) refl

by_node-other :
    (nodes : List NodeAddress) (lists : List (List Bytes)) (m : Dict (List Bytes)) (id : Bytes)
    → has_id nodes id ≡ false
    → lookup id (by_node nodes lists m) ≡ lookup id m
unfolding by_node
by_node-other [] lists m id h = refl
by_node-other (node ∷ nodes) [] m id h = refl
by_node-other (node ∷ nodes) ([] ∷ lists) m id h =
    by_node-other nodes lists m id (ground (arith, h))
by_node-other (node ∷ nodes) ((b ∷ bs) ∷ lists) m id h =
    by_node-other nodes lists (insert node.id (b ∷ bs) m) id (ground (arith, h))
    ∙ insert-other node.id id (b ∷ bs) m (ground (arith, h))

Fresh-insert :
    (node : NodeAddress) (nodes : List NodeAddress) (list : List Bytes) (m : Dict (List Bytes))
    → has_id nodes node.id ≡ false
    → Fresh (node ∷ nodes) m
    → Fresh nodes (insert node.id list m)
Fresh-insert node nodes list m apart fresh id h = elim (Bool-cases (equal node.id id)) [
  | inl same ↦
      let is = (equal_iff node.id id).0 same in absurd (cc (sym apart ∙ ap (has_id nodes) is ∙ h))
  | inr differ ↦ insert-other node.id id list m differ ∙ fresh id (ground (arith, h))
]

-- Each node holds its list.
pub by_node-backends_of :
    (nodes : List NodeAddress) (lists : List (List Bytes)) (m : Dict (List Bytes))
    → IdsDistinct nodes
    → length lists ≡ length nodes
    → Fresh nodes m
    → map (backends_of (by_node nodes lists m)) nodes ≡ lists
unfolding by_node
by_node-backends_of [] [] m distinct same fresh = refl
by_node-backends_of [] (l ∷ lists) m distinct same fresh = absurd (omega (arith, same))
by_node-backends_of (node ∷ nodes) [] m distinct same fresh = absurd (omega (arith, same))
by_node-backends_of (node ∷ nodes) ([] ∷ lists) m distinct same fresh =
    let own = ap or_none (
      by_node-other nodes lists m node.id distinct.0
      ∙ fresh node.id (ground (arith, equal_self node.id))) in
    let rest =
      by_node-backends_of nodes lists m distinct.1 (omega (arith, same))
        (λ id h. fresh id (ground (arith, h))) in
    cc (own, rest)
by_node-backends_of (node ∷ nodes) ((b ∷ bs) ∷ lists) m distinct same fresh =
    let own = ap or_none (
      by_node-other nodes lists (insert node.id (b ∷ bs) m) node.id distinct.0
      ∙ insert-own node.id (b ∷ bs) m) in
    let rest =
      by_node-backends_of nodes lists (insert node.id (b ∷ bs) m) distinct.1 (omega (arith, same))
        (Fresh-insert node nodes (b ∷ bs) m distinct.0 fresh) in
    cc (own, rest)
