-- ===== src/Distributed/Cover.antt =====
-- The requested backends are asked for once each.
use mathlib.Core.List.{flatten, map-map}
use lmd.Prelude.{
  ℕ, suc, equal, equal_iff, ◌||◌, Bool-cases, inl, inr, if◌then◌else◌, ◌≡◌, refl, ap, ◌∙◌, sym,
  Bool, true, List, [], ◌∷◌, ◌++◌, Bytes, arith, map, ok,
}
use lmd.Distributed.{get_sub_backends, is_requested}
use lmd.Nodes.{Nodes, contains}
use lmd.Nodes.Assign.Held.{IdsDistinct, backends_of}
use lmd.Prelude.Dict.{Dict}
use lmd.Nodes.Assign.{plan}
use lmd.Nodes.Assign.Plan.{has_me}
use lmd.Nodes.Assign.Shares.{plan_covers, IsEven}

get_sub_backends-append :
    (all : Bool) (requested xs ys : List Bytes)
    → get_sub_backends all requested (xs ++ ys)
      ≡ get_sub_backends all requested xs ++ get_sub_backends all requested ys
unfolding get_sub_backends
get_sub_backends-append all requested [] ys = refl
get_sub_backends-append all requested (b ∷ xs) ys =
    ground (arith, get_sub_backends-append all requested xs ys)

flatten-get_sub_backends :
    (all : Bool) (requested : List Bytes) (lists : List (List Bytes))
    → flatten (map (get_sub_backends all requested) lists)
      ≡ get_sub_backends all requested (flatten lists)
unfolding get_sub_backends flatten
flatten-get_sub_backends all requested [] = refl
flatten-get_sub_backends all requested (bs ∷ lists) =
    ap (◌++◌ (get_sub_backends all requested bs)) (flatten-get_sub_backends all requested lists)
    ∙ sym (get_sub_backends-append all requested bs (flatten lists))

-- how often a backend is in a list
abbrev pub count : Bytes → List Bytes → ℕ
count b [] = 0
count b (x ∷ xs) = if equal x b then suc (count b xs) else count b xs

-- is the backend asked for?
abbrev pub is_asked : Bool → List Bytes → Bytes → Bool
is_asked all requested b = all || contains requested b

is_requested-is_asked :
    (all : Bool) (requested : List Bytes) (b : Bytes)
    → is_requested all requested b ≡ is_asked all requested b
unfolding is_requested contains
is_requested-is_asked all [] b = ground arith
is_requested-is_asked all (r ∷ rs) b = ground (arith, is_requested-is_asked all rs b)

count-get_sub_backends :
    (all : Bool) (requested : List Bytes) (b : Bytes) (xs : List Bytes)
    → count b (get_sub_backends all requested xs)
      ≡ (if is_asked all requested b then count b xs else 0)
unfolding get_sub_backends
count-get_sub_backends all requested b [] = ground arith
count-get_sub_backends all requested b (x ∷ xs) = elim (Bool-cases (equal x b)) [
  | inl same ↦
      let is = (equal_iff x b).0 same in
      let asked = ap (is_requested all requested) is ∙ is_requested-is_asked all requested b in
      ground (arith, same, asked, count-get_sub_backends all requested b xs)
  | inr differ ↦ ground (arith, differ, count-get_sub_backends all requested b xs)
]

-- If this node is among the nodes, no two of which have one id, and the backends are dealt evenly up to a
-- remainder of one or there is one for each online node, then the plan succeeds, and the sub-requests of
-- all nodes together name a backend as often as it is a backend of the cluster if all are requested or it is
-- among the requested ones, and never otherwise.
pub distributed_backends :
    (n : Nodes) (all : Bool) (requested : List Bytes)
    → has_me n.node_addresses ≡ true
    → IdsDistinct n.node_addresses
    → IsEven n
    → (held : Dict (List Bytes)) × (ours : List Bytes) × (plan n
        ≡ ok (record n { node_backends = held }, ours))
      × ((b : Bytes)
          → count b (
              flatten (
                map
                  (λ node. get_sub_backends all requested (backends_of held node))
                  n.node_addresses))
            ≡ (if is_asked all requested b then count b n.backends else 0))
distributed_backends n all requested me distinct even =
    let (held, ours, planned, covered) = plan_covers n me distinct even in
    (
      held,
      ours,
      planned,
      λ b.
          ap (λ ls. count b (flatten ls))
            (sym (map-map (get_sub_backends all requested) (backends_of held) n.node_addresses))
          ∙ ap (count b)
              (flatten-get_sub_backends all requested (map (backends_of held) n.node_addresses))
          ∙ ap (λ xs. count b (get_sub_backends all requested xs)) covered
          ∙ count-get_sub_backends all requested b n.backends,
    )
