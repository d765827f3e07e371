-- ===== src/Peer/Timers.antt =====
-- The update timers of lmd/peer.go.
use lmd.Prelude.{◌≡◌, refl, Bool, true, false, ◌&&◌, not, arith, ap, ◌∙◌, if◌then◌else◌}
use lmd.Prelude.Int.{ℤ, pos, negsuc, ltb_ℤ, ◌+ℤ◌, ◌-ℤ◌}
use lmd.Peer.{
  Config, Peer, Update, no_update, which_update, periodic_update, update_idle_status,
  schedule_immediate_update,
}

-- The updates of a period; that of timeperiods and groups at a new minute is not one of them.
abbrev pub is_update : Update → Bool
is_update no_update = false
is_update _ = true

which_update-is_update :
    (conf : Config) (now : ℤ) (last_ok : Bool) (p : Peer) (s : _) (full : ℤ)
    → is_update (which_update conf now last_ok p s full) ≡ true
which_update-is_update conf now last_ok p s full = ground arith

is_update-if :
    (b m : Bool) (p q : Peer) (u : Update)
    → is_update u ≡ true
    → is_update (if◌then◌else◌ {A = Peer × Bool × Update} b (p, m, no_update) (q, m, u)).2 ≡ not b
is_update-if true m p q u h = refl
is_update-if false m p q u h = h

delayed : (now u i : ℤ) → ltb_ℤ now ((now -ℤ u) +ℤ i) ≡ ltb_ℤ u i
unfolding ◌+ℤ◌ ◌-ℤ◌
delayed (pos n) (pos u) (pos i) = ground arith
delayed (pos n) (pos u) (negsuc i) = ground arith
delayed (pos n) (negsuc u) (pos i) = ground arith
delayed (pos n) (negsuc u) (negsuc i) = ground arith
delayed (negsuc n) (pos u) (pos i) = ground arith
delayed (negsuc n) (pos u) (negsuc i) = ground arith
delayed (negsuc n) (negsuc u) (pos i) = ground arith
delayed (negsuc n) (negsuc u) (negsuc i) = ground arith

not_itself : (u : ℤ) → ltb_ℤ u u ≡ false
not_itself u = ground arith

-- is the interval over, by whether the peer idles?
over :
    (idles : Bool) (now u i : ℤ)
    → ltb_ℤ now ((now -ℤ u) +ℤ (if idles then i else u)) ≡ (idles && ltb_ℤ u i)
over true now u i = delayed now u i
over false now u i = delayed now u u ∙ not_itself u

idling-schedule :
    (conf : Config) (restart now : ℤ) (p : Peer)
    → (update_idle_status conf restart now (schedule_immediate_update conf now p)).idling
      ≡ (update_idle_status conf restart now p).idling
unfolding update_idle_status schedule_immediate_update
idling-schedule conf restart now p = ground arith

-- After an immediate update is scheduled, the loop updates the peer at once, unless the peer is idle
-- and the idle interval is longer than the update interval.
pub schedule_immediate_update-next :
    (conf : Config) (restart now : ℤ) (last_ok minute : Bool) (p : Peer)
    → is_update
        (periodic_update conf restart now last_ok minute (schedule_immediate_update conf now p)).2
      ≡ not (
          (update_idle_status conf restart now p).idling
          && ltb_ℤ conf.update_interval conf.idle_interval)
unfolding periodic_update schedule_immediate_update
schedule_immediate_update-next conf restart now last_ok minute p =
    let scheduled = schedule_immediate_update conf now p in
    let q = update_idle_status conf restart now scheduled in
    is_update-if _ _ _ _ _
      (which_update-is_update conf now last_ok q scheduled.peer_status scheduled.last_full_update)
    ∙ ap not (over q.idling now conf.update_interval conf.idle_interval)
    ∙ ap (λ b. not (b && ltb_ℤ conf.update_interval conf.idle_interval))
        (idling-schedule conf restart now p)
