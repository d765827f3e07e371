-- ===== src/Peer.antt =====
-- The peer of lmd/peer.go: its status, its addresses and its update timers. The entries of the
-- status map are fields; times are seconds, and the time of a call is an argument.
pub mod Status
pub mod Timers
pub mod Address
pub mod Header
pub mod HttpAddr
mod Tests
use lmd.Prelude.{
  ℕ, suc, ◌+◌, Bool, true, false, ◌&&◌, ◌||◌, not, Option, none, some, List, [], ◌∷◌, Bytes, codes,
  length, get_elem?, map, Result, ok, err, ltb, leb, ◌==◌, if◌then◌else◌,
}
use lmd.Prelude.Int.{ℤ, pos, ltb_ℤ, leb_ℤ, eqb_ℤ, ◌+ℤ◌, ◌-ℤ◌}
use lmd.Runtime.{Panic, index_out_of_range}

pub data PeerStatus : Type 0 where
  up warning down pending : PeerStatus

pub record Config : Type 0 where
  pub update_interval : ℤ
  pub full_update_interval : ℤ
  pub idle_interval : ℤ
  pub idle_timeout : ℤ
  pub stale_backend_timeout : ℤ

pub record Peer : Type 0 where
  pub source : List Bytes
  pub error_count : ℕ
  pub error_logged : Bool
  pub cur_peer_addr_num : ℕ
  pub peer_addr : Bytes
  pub peer_status : PeerStatus
  pub last_error : Bytes
  pub last_online : ℤ
  pub last_update : ℤ
  pub last_full_update : ℤ
  pub last_full_host_update : ℤ
  pub last_full_service_update : ℤ
  pub last_query : ℤ
  pub idling : Bool

pub drop_slashes : Bytes → Bytes
drop_slashes [] = []
drop_slashes (c ∷ s) =
    let rest = drop_slashes s in
    elim rest [ [] ↦ (if c == b'/' then [] else c ∷ []) | d ∷ t ↦ c ∷ d ∷ t ]

-- The first address is taken from the sources before their slashes are stripped.
abbrev pub first_addr : List Bytes → Bytes → Peer
first_addr source addr = record {
  source = source;
  error_count = 0;
  error_logged = false;
  cur_peer_addr_num = 0;
  peer_addr = addr;
  peer_status = pending;
  last_error = codes "connecting...";
  last_online = pos 0;
  last_update = pos 0;
  last_full_update = pos 0;
  last_full_host_update = pos 0;
  last_full_service_update = pos 0;
  last_query = pos 0;
  idling = false;
}

unfoldable pub new_peer : List Bytes → Result Panic Peer
unfolding drop_slashes
new_peer [] = err index_out_of_range
new_peer (addr ∷ rest) = ok (first_addr (map drop_slashes (addr ∷ rest)) addr)

abbrev pub is_down : PeerStatus → Bool
is_down down = true
is_down _ = false

abbrev pub is_up : PeerStatus → Bool
is_up up = true
is_up _ = false

-- `PeerStatusUp` and `PeerStatusPending` turn into a warning
abbrev pub warned : PeerStatus → PeerStatus
warned up = warning
warned pending = warning
warned s = s

unfoldable pub is_online : Peer → Bool
is_online p = elim p.peer_status [ up ↦ true | warning ↦ true | down ↦ false | pending ↦ false ]

abbrev pub next_num : ℕ → ℕ → ℕ
next_num sources num = if leb sources (num + 1) then 0 else num + 1

-- has the peer been unreachable for too long?
abbrev pub is_stale : Config → ℤ → ℕ → Peer → Bool
is_stale conf now errors p =
    ltb_ℤ p.last_online (now -ℤ conf.stale_backend_timeout)
    || (ltb (length p.source) errors && leb_ℤ p.last_online (pos 0))

abbrev pub failed : Config → ℤ → Bytes → Bytes → Peer → Peer
failed conf now message addr p = record p {
  last_error = message;
  error_count = p.error_count + 1;
  cur_peer_addr_num = next_num (length p.source) p.cur_peer_addr_num;
  peer_addr = addr;
  peer_status = if is_stale conf now (p.error_count + 1) p then down else warned p.peer_status;
}

-- The tables are cleared in copies of the entries of `p.Tables`, which does not change them.
unfoldable pub set_next_addr_from_err : Config → ℤ → Bytes → Peer → Result Panic Peer
unfolding ◌-ℤ◌
set_next_addr_from_err conf now message p =
    elim (get_elem? p.source (next_num (length p.source) p.cur_peer_addr_num)) [
      | none ↦ err index_out_of_range
      | some addr ↦ ok (failed conf now message addr p)
    ]

unfoldable pub reset_errors : ℤ → Peer → Peer
reset_errors now p = record p {
  last_error = [];
  last_online = now;
  error_count = 0;
  error_logged = false;
  peer_status = up;
}

-- What `InitAllTables` notes when the partner has no row in its status table: no error is counted.
unfoldable pub init_not_ready : Peer → Peer
init_not_ready p = record p {
  peer_status = warning;
  last_error = codes "peered partner not ready yet";
}

-- the time of the last restart of the main loop
abbrev pub should_idle : Config → ℤ → ℤ → Peer → Bool
should_idle conf restart now p =
    (eqb_ℤ p.last_query (pos 0) && ltb_ℤ restart (now -ℤ conf.idle_timeout))
    || (ltb_ℤ (pos 0) p.last_query && ltb_ℤ p.last_query (now -ℤ conf.idle_timeout))

unfoldable pub update_idle_status : Config → ℤ → ℤ → Peer → Peer
unfolding ◌-ℤ◌
update_idle_status conf restart now p =
    if not p.idling && should_idle conf restart now p then record p { idling = true } else p

abbrev pub min_full_scan_interval : ℤ
min_full_scan_interval = pos 30

unfoldable pub schedule_immediate_update : Config → ℤ → Peer → Peer
unfolding ◌-ℤ◌
schedule_immediate_update conf now p = record p {
  last_update = now -ℤ conf.update_interval;
  last_full_service_update = now -ℤ min_full_scan_interval;
  last_full_host_update = now -ℤ min_full_scan_interval;
}

-- `SpinUpPeers`, for one peer: the peer, and whether it is updated at once.
unfoldable pub spin_up : Config → ℤ → Peer → Peer × Bool
unfolding ◌-ℤ◌
spin_up conf now p =
    let q = record p { idling = false } in
    if is_up p.peer_status
    then (q, true)
    else (record q { last_update = now -ℤ conf.update_interval }, false)

-- what a period of the update loop fetches
pub data Update : Type 0 where
  no_update init_all_tables update_all_tables update_delta_tables : Update

abbrev pub is_warning : PeerStatus → Bool
is_warning warning = true
is_warning _ = false

abbrev which_update : Config → ℤ → Bool → Peer → PeerStatus → ℤ → Update
which_update conf now last_ok p status full =
    if not last_ok && not (is_warning status)
    then init_all_tables
    else if not p.idling
        && (ltb_ℤ (pos 0) conf.full_update_interval
            && ltb_ℤ (full +ℤ conf.full_update_interval) now)
    then update_all_tables
    else update_delta_tables

-- `periodicUpdate`, up to the update that it calls: whether the last update went well, the peer and
-- whether it is a new minute; the peer, whether the timeperiods are updated, and the update.
unfoldable pub periodic_update : Config → ℤ → ℤ → Bool → Bool → Peer → Peer × Bool × Update
unfolding ◌+ℤ◌ update_idle_status
periodic_update conf restart now last_ok new_minute p =
    let q = update_idle_status conf restart now p in
    let interval = if q.idling then conf.idle_interval else conf.update_interval in
    if ltb_ℤ now (p.last_update +ℤ interval)
    then (q, not q.idling && (last_ok && new_minute), no_update)
    else (
      record q { last_update = now },
      not q.idling && (last_ok && new_minute),
      which_update conf now last_ok q p.peer_status p.last_full_update,
    )
