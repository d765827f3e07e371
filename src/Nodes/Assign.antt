-- ===== src/Nodes/Assign.antt =====
-- `redistribute` of lmd/nodes.go: how many backends each node gets, and which.
pub mod Coverage
pub mod Plan
pub mod Held
pub mod Shares
use lmd.Prelude.{
  ℕ, zero, suc, ◌+◌, ◌/◌, ◌%◌, Bool, true, false, ◌&&◌, not, Option, none, some, List, [], ◌∷◌,
  ◌++◌, Bytes, Result, ok, err, ◌>>=◌, length, get_elem?, get_or, leb, ◌==◌, if◌then◌else◌,
}
use lmd.Prelude.Dict.{Dict, insert}
use lmd.Runtime.{Panic, index_out_of_range}
use lmd.Nodes.{NodeAddress, Nodes, Online, get_online_nodes}

-- no node has more than one backend
pub one_each : List Bool → List ℕ
one_each [] = []
one_each (online ∷ rest) = (if online then 1 else 0) ∷ one_each rest

-- the flag is `first`
pub spread : ℕ → ℕ → Bool → List Bool → List ℕ
spread backends available first [] = []
spread backends available first (false ∷ rest) = 0 ∷ spread backends available first rest
spread backends available first (true ∷ rest) =
    let number_per_node = backends / available in
    (if first && not (backends % available == 0) then number_per_node + 1 else number_per_node)
    ∷ spread backends available false rest

unfoldable pub assigned_numbers : ℕ → ℕ → List Bool → List ℕ
unfolding one_each spread
assigned_numbers backends available node_online =
    if leb backends available
    then one_each node_online
    else spread backends available true node_online

-- `list[j] = n.backends[distributedCount+j]` for each j below `number`
pub read_range : ℕ → ℕ → List Bytes → Result Panic (List Bytes)
read_range zero start backends = ok []
read_range (suc number) start backends = elim (get_elem? backends start) [
  | none ↦ err index_out_of_range
  | some b ↦ read_range number (start + 1) backends >>= λ rest. ok (b ∷ rest)
]

-- The lists for the nodes, in their order. A number of 0 leaves the list of the node nil.
unfoldable pub deal : List Bytes → ℕ → List ℕ → Result Panic (List (List Bytes))
unfolding read_range
deal backends distributed [] = ok []
deal backends distributed (number ∷ rest) = do
  list ← read_range number distributed backends
  lists ← deal backends (distributed + number) rest
  ok (list ∷ lists)

-- `nodeBackends[id] = list` where the number is not 0
unfoldable pub by_node :
    List NodeAddress → List (List Bytes) → Dict (List Bytes) → Dict (List Bytes)
by_node (node ∷ nodes) ([] ∷ lists) m = by_node nodes lists m
by_node (node ∷ nodes) (list ∷ lists) m = by_node nodes lists (insert node.id list m)
by_node _ _ m = m

-- `assignedBackends[ownIndex]`
pub own_part : Option ℕ → List (List Bytes) → Result Panic (List Bytes)
own_part none lists = err index_out_of_range
own_part (some i) lists = elim (get_elem? lists i) [
  | none ↦ err index_out_of_range
  | some list ↦ ok list
]

-- Everything of `redistribute` but the call of `updateBackends`: the new `nodeBackends`, and the
-- backends of this node.
unfoldable pub plan : Nodes → Result Panic (Nodes × List Bytes)
unfolding own_part
plan n =
    let o = get_online_nodes n in
    let numbers = assigned_numbers (length n.backends) o.number_available_nodes o.node_online in
    do
      lists ← deal n.backends 0 numbers
      ours ← own_part o.own_index lists
      ok (record n { node_backends = by_node n.node_addresses lists [] }, ours)
