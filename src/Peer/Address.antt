-- ===== src/Peer/Address.antt =====
-- A peer of lmd/peer.go tries its sources in turn.
use mathlib.Core.Path.{subst}
use lmd.Prelude.{
  ℕ, suc, ◌+◌, ◌-◌, ◌<◌, ◌≡◌, refl, some, List, [], ◌∷◌, Bytes, length, get_elem?, Result, ok,
  ◌>>=◌, leb, if◌then◌else◌, arith,
}
use lmd.Prelude.Int.{ℤ}
use lmd.Runtime.{Panic}
use lmd.Peer.{Config, Peer, next_num, failed, set_next_addr_from_err}
use lmd.Peer.Status.{set_next_addr_from_err-ok, next_num-lt}

-- failures in a row: the time and the message of each
unfoldable pub failures : Config → List (ℤ × Bytes) → Peer → Result Panic Peer
failures conf [] p = ok p
failures conf ((now, message) ∷ rest) p = do
  q ← set_next_addr_from_err conf now message p
  failures conf rest q

-- how many sources away the source `i` is from the source `n`
abbrev pub distance : ℕ → ℕ → ℕ → ℕ
distance sources n i = if leb n i then i - n else sources - n + i

distance-next :
    (sources n i k : ℕ)
    → n < sources
    → i < sources
    → distance sources n i ≡ suc k
    → distance sources (next_num sources n) i ≡ k
distance-next sources n i k hn hi e = ground arith

distance-zero : (sources n i : ℕ) → n < sources → distance sources n i ≡ 0 → n ≡ i
distance-zero sources n i hn e = ground arith

-- From any source, every source is reached by as many failures as it is away, which is less than the
-- number of sources: no source of the peer is left out.
pub failures-reach :
    (conf : Config) (fs : List (ℤ × Bytes)) (p : Peer) (i : ℕ)
    → p.cur_peer_addr_num < length p.source
    → i < length p.source
    → get_elem? p.source p.cur_peer_addr_num ≡ some p.peer_addr
    → distance (length p.source) p.cur_peer_addr_num i ≡ length fs
    → (q : Peer) × (failures conf fs p ≡ ok q)
      × (get_elem? p.source i ≡ some q.peer_addr)
      × (q.error_count ≡ p.error_count + length fs)
      × (length fs < length p.source)
unfolding failures
failures-reach conf [] p i at bound addr away =
    let same = distance-zero (length p.source) p.cur_peer_addr_num i at away in
    (
      p,
      refl,
      (subst (λ n. get_elem? p.source n ≡ some p.peer_addr) same addr),
      omega arith,
      omega arith,
    )
failures-reach conf ((now, message) ∷ fs) p i at bound addr away =
    let (next, is, there) = set_next_addr_from_err-ok conf now message p at in
    let q = failed conf now message next p in
    let closer = distance-next (length p.source) p.cur_peer_addr_num i (length fs) at bound away in
    let (r, ran, reached, counted, fewer) =
      failures-reach conf fs q i (next_num-lt (length p.source) p.cur_peer_addr_num at) bound there
        closer in
    (r, rw is ran, reached, omega (arith, counted), ground arith)
