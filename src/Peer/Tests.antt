-- ===== src/Peer/Tests.antt =====
-- The theorems about peers at a concrete peer.
use mathlib.Core.Path.{subst}
use lmd.Prelude.{
  ◌+◌, ◌<◌, ◌≡◌, refl, true, false, not, ◌&&◌, some, none, List, [], ◌∷◌, Bytes, codes, get_elem?,
  ok, arith,
}
use lmd.Prelude.Int.{ℤ, pos, ltb_ℤ}
use lmd.Peer.{
  Config, Peer, up, pending, new_peer, periodic_update, update_idle_status,
  schedule_immediate_update, reset_errors,
}
use lmd.Peer.Status.{Reachable, started, after, recovering, IsConsistent, Reachable-IsConsistent}
use lmd.Peer.Address.{failures, failures-reach}
use lmd.Peer.Timers.{is_update, schedule_immediate_update-next}
use lmd.Peer.Header.{check_response_header, send_fixed16}
use lmd.Peer.Header.Sent.{check_response_header-send}

abbrev conf : Config
conf = record {
  update_interval = pos 5;
  full_update_interval = pos 0;
  idle_interval = pos 1800;
  idle_timeout = pos 120;
  stale_backend_timeout = pos 30;
}

abbrev sources : List Bytes
sources = codes "10.0.0.1:6557" ∷ codes "10.0.0.2:6557" ∷ codes "http://c/thruk/" ∷ []

-- the peer that starts with them; the slash of the third source is gone
abbrev start : Peer
start = record {
  source = codes "10.0.0.1:6557" ∷ codes "10.0.0.2:6557" ∷ codes "http://c/thruk" ∷ [];
  error_count = 0;
  error_logged = false;
  cur_peer_addr_num = 0;
  peer_addr = codes "10.0.0.1:6557";
  peer_status = pending;
  last_error = codes "connecting...";
  last_online = pos 0;
  last_update = pos 0;
  last_full_update = pos 0;
  last_full_host_update = pos 0;
  last_full_service_update = pos 0;
  last_query = pos 0;
  idling = false;
}

starts : new_peer sources ≡ ok start
unfolding new_peer
starts = refl

abbrev recovered : Peer
recovered = record start { last_error = []; last_online = pos 1000; peer_status = up }

recovers : reset_errors (pos 1000) start ≡ recovered
unfolding reset_errors
recovers = refl

recovered-Reachable : Reachable conf recovered
recovered-Reachable =
    subst (Reachable conf) recovers (after (started sources starts) (recovering (pos 1000)))

Reachable-IsConsistent_example : IsConsistent recovered
Reachable-IsConsistent_example = Reachable-IsConsistent conf recovered-Reachable

abbrev two_failures : List (ℤ × Bytes)
two_failures = (pos 1010, codes "timeout") ∷ (pos 1020, codes "refused") ∷ []

failures-reach_example :
    (q : Peer) × (failures conf two_failures recovered ≡ ok q)
    × (get_elem? recovered.source 2 ≡ some q.peer_addr)
    × (q.error_count ≡ 0 + 2)
    × (2 < 3)
failures-reach_example =
    failures-reach conf two_failures recovered 2 (omega arith) (omega arith) refl refl

schedule_immediate_update-next_example :
    is_update
      (periodic_update conf
        (pos 990)
        (pos 1010)
        true
        false
        (schedule_immediate_update conf (pos 1010) recovered)).2
    ≡ not (
        (update_idle_status conf (pos 990) (pos 1010) recovered).idling
        && ltb_ℤ conf.update_interval conf.idle_interval)
schedule_immediate_update-next_example =
    schedule_immediate_update-next conf (pos 990) (pos 1010) true false recovered

check_response_header-send_example : check_response_header (send_fixed16 200 (codes "[]")) ≡ none
check_response_header-send_example = check_response_header-send (codes "[]") (omega arith)
