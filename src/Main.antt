-- ===== src/Main.antt =====
-- The connections of lmd/main.go, and the peers that `initializePeers` keeps, creates and drops for
-- them. The listeners, the nodes and the goroutines it starts are not part of it.
pub mod Reload
mod Tests
use lmd.Prelude.{
  Bool, ◌&&◌, not, Option, none, some, List, [], ◌∷◌, ◌++◌, map, Bytes, codes, equal, Result, ok,
  err, ◌>>=◌, if◌then◌else◌,
}
use lmd.Prelude.Dict.{Dict, lookup, insert, delete}
use lmd.Runtime.{Panic, raised}
use lmd.Text.{join}
use lmd.Nodes.{contains}
use lmd.Peer.{Peer, new_peer}

pub record Connection : Type 0 where
  pub name : Bytes
  pub id : Bytes
  pub source : List Bytes
  pub auth : Bytes
  pub remote_name : Bytes

unfoldable pub connection_equals : Connection → Connection → Bool
unfolding equal join
connection_equals c other =
    equal c.id other.id
    && equal c.name other.name
    && equal c.auth other.auth
    && equal c.remote_name other.remote_name
    && equal (join c.source (codes ":")) (join other.source (codes ":"))

-- A peer of the store with its `Config`.
pub record StoredPeer : Type 0 where
  pub config : Connection
  pub peer : Peer

-- `NewPeer` strips the slashes of a slice that the peer and its `Config` share.
unfoldable pub create_peer : Connection → Result Panic StoredPeer
unfolding new_peer
create_peer c = do
  p ← new_peer c.source
  ok (record { config = record c { source = p.source }; peer = p })

unfoldable pub keep_or_create : Connection → Option StoredPeer → Result Panic StoredPeer
unfolding connection_equals create_peer
keep_or_create c none = create_peer c
keep_or_create c (some v) =
    let created = create_peer c in if connection_equals c v.config then ok v else created

abbrev pub ids : List Connection → List Bytes
ids [] = []
ids (c ∷ cs) = c.id ∷ ids cs

abbrev pub keys : Dict StoredPeer → List Bytes
keys [] = []
keys ((id, p) ∷ rest) = id ∷ keys rest

-- the loop over the keys of the store, which deletes as it goes
unfoldable pub drop_obsolete : List Bytes → List Bytes → Dict StoredPeer → Dict StoredPeer
unfolding contains delete
drop_obsolete configured [] store = store
drop_obsolete configured (id ∷ names) store =
    drop_obsolete configured names (if contains configured id then store else delete id store)

-- `backends` and `DataStoreOrder` are the same list throughout. `log.Fatalf` ends the program.
unfoldable pub set_peers :
    Dict StoredPeer → List Bytes → List Connection → Result Panic (Dict StoredPeer × List Bytes)
unfolding lookup insert contains keep_or_create
set_peers store order [] = ok (store, order)
set_peers store order (c ∷ cs) = keep_or_create c (lookup c.id store) >>= λ p.
    let rest = set_peers (insert c.id p store) (order ++ (c.id ∷ [])) cs in
    if contains order c.id then err raised else rest

unfoldable pub initialize_peers :
    List Connection → Dict StoredPeer → Result Panic (Dict StoredPeer × List Bytes)
unfolding drop_obsolete set_peers
initialize_peers connections store =
    set_peers (drop_obsolete (ids connections) (keys store) store) [] connections
