-- ===== src/Peer/Status.antt =====
-- The status of a peer of lmd/peer.go over all that happens to it.
use mathlib.Core.Path.{subst}
use lmd.Prelude.{
  ℕ, ◌+◌, ◌<◌, ◌≡◌, refl, Bool, true, false, some, List, [], ◌∷◌, Bytes, length, get_elem?,
  get_elem?-lt, ok, ok-injective, if◌then◌else◌, arith, Option-cases, inl, inr,
}
use lmd.Prelude.Int.{ℤ}
use lmd.Peer.{
  PeerStatus, up, warning, down, pending, Config, Peer, new_peer, is_up, warned, next_num, is_stale,
  failed, set_next_addr_from_err, reset_errors, update_idle_status, init_not_ready,
  schedule_immediate_update, spin_up,
}

-- The timers and flags that updates and queries set, to whatever values.
abbrev pub timed : ℤ → ℤ → ℤ → ℤ → ℤ → Bool → Bool → Peer → Peer
timed update full hosts services query rests logs p = record p {
  last_update = update;
  last_full_update = full;
  last_full_host_update = hosts;
  last_full_service_update = services;
  last_query = query;
  idling = rests;
  error_logged = logs;
}

-- what happens to a peer
pub data Step (conf : Config) : Peer → Peer → Type 0 where
  failing :
      (now : ℤ) (message : Bytes) {p q : Peer}
      → set_next_addr_from_err conf now message p ≡ ok q
      → Step conf p q
  recovering : (now : ℤ) {p : Peer} → Step conf p (reset_errors now p)
  resting : (restart now : ℤ) {p : Peer} → Step conf p (update_idle_status conf restart now p)
  scheduling : (now : ℤ) {p : Peer} → Step conf p (schedule_immediate_update conf now p)
  unready : {p : Peer} → Step conf p (init_not_ready p)
  -- the other writes: updates and queries set timers, updates end idling and note what they log
  timing :
      (update full hosts services query : ℤ) (rests logs : Bool) {p : Peer}
      → Step conf p (timed update full hosts services query rests logs p)
  waking : (now : ℤ) {p : Peer} → Step conf p (spin_up conf now p).0

pub data Reachable (conf : Config) : Peer → Type 0 where
  started : (source : List Bytes) {p : Peer} → new_peer source ≡ ok p → Reachable conf p
  after : {p q : Peer} → Reachable conf p → Step conf p q → Reachable conf q

abbrev pub is_fresh : PeerStatus → Bool
is_fresh up = true
is_fresh pending = true
is_fresh _ = false

pub record IsConsistent (p : Peer) : Type 0 where
  pub addressed : p.cur_peer_addr_num < length p.source
  pub counted : is_fresh p.peer_status ≡ true → p.error_count ≡ 0
  pub clean : is_up p.peer_status ≡ true → p.last_error ≡ []

new_peer-IsConsistent : (source : List Bytes) {p : Peer} → new_peer source ≡ ok p → IsConsistent p
unfolding new_peer
new_peer-IsConsistent [] eq = absurd (cc eq)
new_peer-IsConsistent (addr ∷ rest) eq =
    subst IsConsistent (ok-injective eq)
      (record { addressed = omega arith; counted = λ _. refl; clean = λ h. absurd (cc h) })

-- the status after a failure, which is stale or not
abbrev status_after : Bool → PeerStatus → PeerStatus
status_after stale s = if stale then down else warned s

status_after-fresh : (stale : Bool) (s : PeerStatus) → is_fresh (status_after stale s) ≡ false
status_after-fresh true s = refl
status_after-fresh false up = refl
status_after-fresh false warning = refl
status_after-fresh false down = refl
status_after-fresh false pending = refl

status_after-up : (stale : Bool) (s : PeerStatus) → is_up (status_after stale s) ≡ false
status_after-up true s = refl
status_after-up false up = refl
status_after-up false warning = refl
status_after-up false down = refl
status_after-up false pending = refl

pub next_num-lt : (sources n : ℕ) → n < sources → next_num sources n < sources
next_num-lt sources n h = ground arith

failed-IsConsistent :
    (conf : Config) (now : ℤ) (message addr : Bytes) (p : Peer)
    → IsConsistent p
    → IsConsistent (failed conf now message addr p)
failed-IsConsistent conf now message addr p h = record {
  addressed = next_num-lt (length p.source) p.cur_peer_addr_num h.addressed;
  counted = λ e.
      absurd (cc (status_after-fresh (is_stale conf now (p.error_count + 1) p) p.peer_status, e));
  clean =
      λ e. absurd (cc (status_after-up (is_stale conf now (p.error_count + 1) p) p.peer_status, e));
}

set_next-IsConsistent :
    (conf : Config) (now : ℤ) (message : Bytes) (p : Peer) {q : Peer}
    → IsConsistent p
    → set_next_addr_from_err conf now message p ≡ ok q
    → IsConsistent q
unfolding set_next_addr_from_err
set_next-IsConsistent conf now message p {q} h eq =
    elim (Option-cases (get_elem? p.source (next_num (length p.source) p.cur_peer_addr_num))) [
      | inl missing ↦ absurd (ground arith)
      | inr (addr, there) ↦
          let same : failed conf now message addr p ≡ q = ground arith in
          subst IsConsistent same (failed-IsConsistent conf now message addr p h)
    ]

idle-IsConsistent :
    (b : Bool) (p : Peer)
    → IsConsistent p
    → IsConsistent (if b then record p { idling = true } else p)
idle-IsConsistent true p h = record {
  addressed = h.addressed;
  counted = h.counted;
  clean = h.clean;
}
idle-IsConsistent false p h = h

woken-IsConsistent :
    (b : Bool) (p q r : Peer)
    → IsConsistent q
    → IsConsistent r
    → IsConsistent (if◌then◌else◌ {A = Peer × Bool} b (q, true) (r, false)).0
woken-IsConsistent true p q r hq hr = hq
woken-IsConsistent false p q r hq hr = hr

Step-IsConsistent : (conf : Config) {p q : Peer} → Step conf p q → IsConsistent p → IsConsistent q
unfolding reset_errors update_idle_status schedule_immediate_update spin_up init_not_ready
Step-IsConsistent conf {p} (failing now message eq) h =
    set_next-IsConsistent conf now message p h eq
Step-IsConsistent conf {p} (recovering now) h = record {
  addressed = h.addressed;
  counted = λ _. refl;
  clean = λ _. refl;
}
Step-IsConsistent conf {p} (resting restart now) h = idle-IsConsistent _ p h
Step-IsConsistent conf {p} (scheduling now) h = record {
  addressed = h.addressed;
  counted = h.counted;
  clean = h.clean;
}
Step-IsConsistent conf {p} unready h = record {
  addressed = h.addressed;
  counted = λ e. absurd (cc e);
  clean = λ e. absurd (cc e);
}
Step-IsConsistent conf {p} (timing update full hosts services query rests logs) h = record {
  addressed = h.addressed;
  counted = h.counted;
  clean = h.clean;
}
Step-IsConsistent conf {p} (waking now) h =
    woken-IsConsistent (is_up p.peer_status) p _ _
      (record { addressed = h.addressed; counted = h.counted; clean = h.clean })
      (record { addressed = h.addressed; counted = h.counted; clean = h.clean })

-- Whatever happens to a peer after its start, a failure, a recovery, a partner that is not ready, or
-- any change of its timers and flags, its address number is in the range of its sources, it counts no
-- errors while it is up or pending, and while it is up it has no error message.
pub Reachable-IsConsistent : (conf : Config) {p : Peer} → Reachable conf p → IsConsistent p
Reachable-IsConsistent conf (started source eq) = new_peer-IsConsistent source eq
Reachable-IsConsistent conf (after r s) = Step-IsConsistent conf s (Reachable-IsConsistent conf r)

pub set_next_addr_from_err-ok :
    (conf : Config) (now : ℤ) (message : Bytes) (p : Peer)
    → p.cur_peer_addr_num < length p.source
    → (addr : Bytes) × (set_next_addr_from_err conf now message p
        ≡ ok (failed conf now message addr p))
      × (get_elem? p.source (next_num (length p.source) p.cur_peer_addr_num) ≡ some addr)
unfolding set_next_addr_from_err
set_next_addr_from_err-ok conf now message p h =
    let (addr, there) =
      get_elem?-lt (next_num (length p.source) p.cur_peer_addr_num) p.source
        (next_num-lt (length p.source) p.cur_peer_addr_num h) in
    (addr, (rw (there, set_next_addr_from_err) refl), there)
