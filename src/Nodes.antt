-- ===== src/Nodes.antt =====
-- The cluster manager of lmd/nodes.go: which node runs which backend.
pub mod Assign
pub mod Update
mod Tests
use lmd.Prelude.{
  ℕ, ◌+◌, Bool, true, false, ◌&&◌, not, ◌||◌, Option, none, some, List, [], ◌∷◌, ◌++◌, Bytes, equal,
  if◌then◌else◌,
}
use lmd.Prelude.Dict.{Dict}

pub record NodeAddress : Type 0 where
  pub id : Bytes
  pub ip : Bytes
  pub port : ℕ
  pub url : Bytes
  pub is_me : Bool

-- A `*NodeAddress` outside of `node_addresses` is the url of the node that it points to: `NewNodes`
-- refuses two nodes with one url.
pub record Nodes : Type 0 where
  pub id : Bytes
  pub backends : List Bytes
  pub this_node : Option Bytes
  pub node_addresses : List NodeAddress
  pub online_nodes : List Bytes
  pub assigned_backends : List Bytes
  pub node_backends : Dict (List Bytes)

unfoldable pub contains : List Bytes → Bytes → Bool
contains [] a = false
contains (x ∷ xs) a = let rest = contains xs a in if equal x a then true else rest

unfoldable pub is_our_backend : Nodes → Bytes → Bool
unfolding contains
is_our_backend n backend = contains n.assigned_backends backend

-- what `getOnlineNodes` returns; an `ownIndex` of -1 is `none`
pub record Online : Type 0 where
  pub own_index : Option ℕ
  pub node_online : List Bool
  pub number_available_nodes : ℕ

-- what the loop of `getOnlineNodes` does with the node at `i`
pub note_node : Bool → ℕ → NodeAddress → Online → Online
note_node is_online i node s = record {
  own_index = if node.is_me then some i else s.own_index;
  node_online = s.node_online ++ is_online ∷ [];
  number_available_nodes =
      if is_online then s.number_available_nodes + 1 else s.number_available_nodes;
}

pub scan_nodes : List Bytes → ℕ → List NodeAddress → Online → Online
unfolding contains note_node
scan_nodes online i [] s = s
scan_nodes online i (node ∷ rest) s =
    scan_nodes online (i + 1) rest (note_node (contains online node.url) i node s)

pub get_online_nodes : Nodes → Online
unfolding scan_nodes
get_online_nodes n =
    scan_nodes n.online_nodes 0 n.node_addresses
      (record { own_index = none; node_online = []; number_available_nodes = 0 })
