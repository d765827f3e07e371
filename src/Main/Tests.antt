-- ===== src/Main/Tests.antt =====
-- A reload that keeps a peer, drops one and creates one.
use lmd.Prelude.{true, ◌≡◌, refl, List, [], ◌∷◌, Bytes, codes, ok, err}
use lmd.Prelude.Dict.{Dict}
use lmd.Runtime.{raised}
use lmd.Nodes.{contains}
use lmd.Nodes.Update.Lists.{AllDistinct}
use lmd.Peer.{first_addr}
use lmd.Main.{Connection, StoredPeer, connection_equals, ids, initialize_peers}
use lmd.Main.Reload.{has_peer, initialize_peers-ids}

abbrev connection : Bytes → Bytes → Connection
connection id address = record {
  name = codes "site";
  id = id;
  source = address ∷ [];
  auth = [];
  remote_name = [];
}

abbrev stored : Bytes → Bytes → StoredPeer
stored id address = record {
  config = connection id address;
  peer = first_addr (address ∷ []) address;
}

abbrev connections : List Connection
connections =
    connection (codes "a") (codes "10.0.0.1:6557")
    ∷ connection (codes "b") (codes "10.0.0.2:6557")
    ∷ []

abbrev before : Dict StoredPeer
before =
    (codes "c", stored (codes "c") (codes "10.0.0.3:6557"))
    ∷ (codes "a", stored (codes "a") (codes "10.0.0.1:6557"))
    ∷ []

abbrev after : Dict StoredPeer
after =
    (codes "a", stored (codes "a") (codes "10.0.0.1:6557"))
    ∷ (codes "b", stored (codes "b") (codes "10.0.0.2:6557"))
    ∷ []

reloads : initialize_peers connections before ≡ ok (after, codes "a" ∷ codes "b" ∷ [])
unfolding initialize_peers
reloads = refl

-- a duplicate id ends the program
refuses_twice :
    initialize_peers
      (connection (codes "a") (codes "x:1") ∷ connection (codes "a") (codes "x:2") ∷ [])
      []
    ≡ err raised
unfolding initialize_peers
refuses_twice = refl

-- the sources are compared as joined by colons
joined :
    connection_equals
      (record (connection (codes "a") []) { source = codes "a:1" ∷ codes "b" ∷ [] })
      (record (connection (codes "a") []) { source = codes "a" ∷ codes "1:b" ∷ [] })
    ≡ true
unfolding connection_equals
joined = refl

initialize_peers-ids_example :
    AllDistinct (ids connections)
    × (codes "a" ∷ codes "b" ∷ [] ≡ ids connections)
    × ((id : Bytes) → has_peer id after ≡ contains (ids connections) id)
initialize_peers-ids_example =
    initialize_peers-ids connections before {done = (after, codes "a" ∷ codes "b" ∷ [])} reloads
