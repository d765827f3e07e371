-- ===== src/Distributed/Tests.antt =====
-- The theorems about clusters at a concrete cluster.
use mathlib.Core.List.{flatten}
use lmd.Prelude.{
  if◌then◌else◌, ℕ, ◌≤◌, ◌≡◌, refl, inl, Bool, true, false, some, List, [], ◌∷◌, Bytes, codes, ok,
  map, String, equal,
}
use lmd.Prelude.Int.{pos}
use lmd.Nodes.{NodeAddress, Nodes, contains}
use lmd.Nodes.Assign.{plan}
use lmd.Nodes.Assign.Shares.{IsEven}
use lmd.Response.Window.{post_processing, apply_limit}
use lmd.Prelude.{length}
use lmd.Distributed.{get_sub_backends, sub_limit, merge_rows}
use lmd.Distributed.Cover.{count, is_asked, distributed_backends}
use lmd.Nodes.Assign.Held.{IdsDistinct, backends_of}
use lmd.Prelude.Dict.{Dict}
use lmd.Distributed.Window.{distributed_window}

abbrev node : String → Bool → NodeAddress
node name is_me = record {
  id = codes name;
  ip = codes name;
  port = 80;
  url = codes name;
  is_me = is_me;
}

-- two nodes, both online, for two backends
abbrev pair : Nodes
pair = record {
  id = codes "a";
  backends = codes "x" ∷ codes "y" ∷ [];
  this_node = some (codes "a");
  node_addresses = node "a" true ∷ node "b" false ∷ [];
  online_nodes = codes "a" ∷ codes "b" ∷ [];
  assigned_backends = [];
  node_backends = [];
}

pair-IsEven : IsEven pair
unfolding contains equal
pair-IsEven = inl refl

pair-IdsDistinct : IdsDistinct pair.node_addresses
unfolding equal
pair-IdsDistinct = (refl, (refl, tt))

distributed_backends_example :
    (held : Dict (List Bytes)) × (ours : List Bytes) × (plan pair
      ≡ ok (record pair { node_backends = held }, ours))
    × ((b : Bytes)
        → count b (
            flatten (
              map
                (λ node. get_sub_backends false (codes "y" ∷ []) (backends_of held node))
                pair.node_addresses))
          ≡ (if is_asked false (codes "y" ∷ []) b then count b pair.backends else 0))
distributed_backends_example =
    distributed_backends pair false (codes "y" ∷ []) refl pair-IdsDistinct pair-IsEven

abbrev answers : List (List ℕ)
answers = (1 ∷ 2 ∷ 3 ∷ []) ∷ (4 ∷ 5 ∷ []) ∷ []

abbrev merged : List ℕ
merged = merge_rows (map (apply_limit (sub_limit (pos 2) (pos 1))) answers)

distributed_window_example :
    (rows : List ℕ) × (post_processing ok 2 (codes "hosts") [] (pos 1) (pos 2) 0 merged
      ≡ ok (length merged, rows))
    × (post_processing ok 2 (codes "hosts") [] (pos 1) (pos 2) 0 (merge_rows answers)
        ≡ ok (length (merge_rows answers), rows))
    × (length merged ≤ length (merge_rows answers))
distributed_window_example = distributed_window ok 2 (codes "hosts") 1 1 answers
