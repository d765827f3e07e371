-- ===== src/Nodes/Assign/Plan.antt =====
-- What `redistribute` of lmd/nodes.go plans for all the nodes.
use mathlib.Core.Bool.{false≢true}
use native.Mathlib.Nat.{zero-add}
use mathlib.Core.List.{flatten}
use lmd.Prelude.{
  ℕ, suc, ◌+◌, ◌≤◌, ◌<◌, ◌≡◌, refl, ap, Bool, true, false, List, [], ◌∷◌, ◌++◌, Bytes, ok, err,
  length, take, arith, some, map, get_elem?-lt, length-map, if◌then◌else◌, ◌||◌, sym, ◌∙◌,
  append-nil, append_assoc, ◌⊎◌, inl, inr,
}
use lmd.Runtime.{index_out_of_range}
use lmd.Nodes.{NodeAddress, Nodes, Online, contains, note_node, scan_nodes, get_online_nodes}
use lmd.Nodes.Assign.{one_each, spread, assigned_numbers, by_node, plan}
use lmd.Nodes.Assign.Coverage.{total, count_online, deal-flatten, deal-panics}

abbrev pub online_of : List Bytes → List NodeAddress → List Bool
online_of online [] = []
online_of online (node ∷ nodes) = contains online node.url ∷ online_of online nodes

abbrev pub has_me : List NodeAddress → Bool
has_me [] = false
has_me (node ∷ nodes) = node.is_me || has_me nodes

scan_nodes-node_online :
    (online : List Bytes) (i : ℕ) (nodes : List NodeAddress) (s : Online)
    → (scan_nodes online i nodes s).node_online ≡ s.node_online ++ online_of online nodes
unfolding scan_nodes
scan_nodes-node_online online i [] s = sym (append-nil s.node_online)
scan_nodes-node_online online i (node ∷ nodes) s =
    scan_nodes-node_online online (i + 1) nodes _
    ∙ append_assoc s.node_online (contains online node.url ∷ []) (online_of online nodes)

scan_nodes-available :
    (online : List Bytes) (i : ℕ) (nodes : List NodeAddress) (s : Online)
    → (scan_nodes online i nodes s).number_available_nodes
      ≡ s.number_available_nodes + count_online (online_of online nodes)
unfolding scan_nodes
scan_nodes-available online i [] s = omega arith
scan_nodes-available online i (node ∷ nodes) s = ground (
  arith,
  scan_nodes-available online (i + 1) nodes (note_node (contains online node.url) i node s),
)

-- the position of the last node that is marked as this one
scan_nodes-own_index :
    (online : List Bytes) (i : ℕ) (nodes : List NodeAddress) (s : Online)
    → (has_me nodes ≡ true) ⊎ ((j : ℕ) × (s.own_index ≡ some j) × (j < i))
    → (j : ℕ) × ((scan_nodes online i nodes s).own_index ≡ some j) × (j < i + length nodes)
unfolding scan_nodes
scan_nodes-own_index online i [] s (inl h) = absurd (false≢true h)
scan_nodes-own_index online i [] s (inr (j, found, below)) = (j, found, omega arith)
scan_nodes-own_index online i (node ∷ nodes) s h =
    let t = note_node (contains online node.url) i node s in
    let (j, found, below) = scan_nodes-own_index online (i + 1) nodes t (own_seen node.is_me h) in
    (j, found, omega arith)
  where
    own_seen :
        (b : Bool)
        → ((b || has_me nodes) ≡ true) ⊎ ((j : ℕ) × (s.own_index ≡ some j) × (j < i))
        → (has_me nodes ≡ true)
          ⊎ ((j : ℕ) × ((if b then some i else s.own_index) ≡ some j) × (j < i + 1))
    own_seen true g = inr (i, refl, omega arith)
    own_seen false (inl g) = inl g
    own_seen false (inr (j, found, below)) = inr (j, found, omega arith)

length-one_each : (online : List Bool) → length (one_each online) ≡ length online
unfolding one_each
length-one_each [] = refl
length-one_each (b ∷ online) = ap suc (length-one_each online)

length-spread :
    (backends nodes : ℕ) (first : Bool) (online : List Bool)
    → length (spread backends nodes first online) ≡ length online
unfolding spread
length-spread backends nodes first [] = refl
length-spread backends nodes first (true ∷ online) =
    ap suc (length-spread backends nodes false online)
length-spread backends nodes first (false ∷ online) =
    ap suc (length-spread backends nodes first online)

length-online_of :
    (online : List Bytes) (nodes : List NodeAddress)
    → length (online_of online nodes) ≡ length nodes
length-online_of online [] = refl
length-online_of online (node ∷ nodes) = ap suc (length-online_of online nodes)

module _ (n : Nodes) where
  abbrev pub node_online : List Bool
  node_online = online_of n.online_nodes n.node_addresses

  abbrev pub available : ℕ
  available = count_online node_online

  abbrev pub numbers : List ℕ
  numbers = assigned_numbers (length n.backends) available node_online

  scanned : (get_online_nodes n).node_online ≡ node_online
  unfolding get_online_nodes
  scanned = scan_nodes-node_online n.online_nodes 0 n.node_addresses _

  counted : (get_online_nodes n).number_available_nodes ≡ available
  unfolding get_online_nodes
  counted = scan_nodes-available n.online_nodes 0 n.node_addresses _ ∙ zero-add available

  found_me :
      has_me n.node_addresses ≡ true
      → (j : ℕ) × ((get_online_nodes n).own_index ≡ some j) × (j < length n.node_addresses)
  unfolding get_online_nodes
  found_me h =
      let (j, found, below) = scan_nodes-own_index n.online_nodes 0 n.node_addresses _ (inl h) in
      (j, found, omega arith)

  pub length-numbers : length numbers ≡ length n.node_addresses
  unfolding assigned_numbers
  length-numbers = ground (
    arith,
    length-one_each node_online,
    length-spread (length n.backends) available true node_online,
    length-online_of n.online_nodes n.node_addresses,
  )

  -- If the numbers ask for no more backends than there are, the nodes get a first part of the
  -- backends, in order, as many each as its number says.
  pub plan-ok :
      has_me n.node_addresses ≡ true
      → total numbers ≤ length n.backends
      → (lists : List (List Bytes)) × (ours : List Bytes) × (plan n
          ≡ ok (record n { node_backends = by_node n.node_addresses lists [] }, ours))
        × (flatten lists ≡ take (total numbers) n.backends)
        × (map length lists ≡ numbers)
  unfolding plan
  plan-ok h fits =
      let (lists, dealt, flat, sizes) = deal-flatten n.backends 0 numbers (omega arith) in
      let (j, found, below) = found_me h in
      let (ours, own) =
        get_elem?-lt j lists
          (omega (arith, ap length sizes, length-map lists length, length-numbers)) in
      (lists, ours, ground (arith, scanned, counted, found, own, dealt), flat, sizes)

  pub plan-err : length n.backends < total numbers → plan n ≡ err index_out_of_range
  unfolding plan
  plan-err over = ground (arith, scanned, counted, deal-panics n.backends 0 numbers)
