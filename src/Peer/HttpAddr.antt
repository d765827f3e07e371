-- ===== src/Peer/HttpAddr.antt =====
-- `completePeerHTTPAddr` of lmd/peer.go.
use mathlib.Core.List.{reverse, reverse_aux}
use lmd.Prelude.{
  ◌≡◌, refl, Bool, true, false, [], ◌∷◌, ◌++◌, Bytes, codes, arith, if◌then◌else◌, Bool-cases, inl,
  inr,
}
use lmd.Text.{has_prefix}

-- s ends with suffix
unfoldable pub has_suffix : Bytes → Bytes → Bool
unfolding has_prefix
has_suffix s suffix = has_prefix (reverse s) (reverse suffix)

unfoldable pub complete_peer_http_addr : Bytes → Bytes
unfolding has_suffix
complete_peer_http_addr addr =
    if has_suffix addr (codes "/thruk/")
    then addr ++ codes "cgi-bin/remote.cgi"
    else if has_suffix addr (codes "/thruk")
    then addr ++ codes "/cgi-bin/remote.cgi"
    else if has_suffix addr (codes "/remote.cgi")
    then addr
    else if has_suffix addr (codes "/")
    then addr ++ codes "thruk/cgi-bin/remote.cgi"
    else addr ++ codes "/thruk/cgi-bin/remote.cgi"

reverse_aux-append : (s t r : Bytes) → reverse_aux (s ++ t) r ≡ reverse_aux t (reverse_aux s r)
reverse_aux-append [] t r = refl
reverse_aux-append (c ∷ s) t r = reverse_aux-append s t (c ∷ r)

-- what ends with the script does not end with the other two
script-not_dir :
    (r : Bytes)
    → has_prefix r (reverse (codes "/remote.cgi")) ≡ true
    → has_prefix r (reverse (codes "/thruk/")) ≡ false
unfolding has_prefix
script-not_dir [] h = refl
script-not_dir (c ∷ r) h = ground arith

script-not_name :
    (r : Bytes)
    → has_prefix r (reverse (codes "/remote.cgi")) ≡ true
    → has_prefix r (reverse (codes "/thruk")) ≡ false
unfolding has_prefix
script-not_name [] h = refl
script-not_name (c ∷ r) h = ground arith

-- an address that ends with the script is complete
complete-script :
    (addr : Bytes)
    → has_suffix addr (codes "/remote.cgi") ≡ true
    → complete_peer_http_addr addr ≡ addr
unfolding complete_peer_http_addr
complete-script addr h =
    rw (script-not_dir (reverse addr) h, script-not_name (reverse addr) h, h) refl

-- the ends that are appended
append-script :
    (addr : Bytes) → has_suffix (addr ++ codes "cgi-bin/remote.cgi") (codes "/remote.cgi") ≡ true
unfolding has_suffix
append-script addr = rw (reverse_aux-append addr (codes "cgi-bin/remote.cgi") []) refl

append-bin :
    (addr : Bytes) → has_suffix (addr ++ codes "/cgi-bin/remote.cgi") (codes "/remote.cgi") ≡ true
unfolding has_suffix
append-bin addr = rw (reverse_aux-append addr (codes "/cgi-bin/remote.cgi") []) refl

append-dir :
    (addr : Bytes)
    → has_suffix (addr ++ codes "thruk/cgi-bin/remote.cgi") (codes "/remote.cgi") ≡ true
unfolding has_suffix
append-dir addr = rw (reverse_aux-append addr (codes "thruk/cgi-bin/remote.cgi") []) refl

append-all :
    (addr : Bytes)
    → has_suffix (addr ++ codes "/thruk/cgi-bin/remote.cgi") (codes "/remote.cgi") ≡ true
unfolding has_suffix
append-all addr = rw (reverse_aux-append addr (codes "/thruk/cgi-bin/remote.cgi") []) refl

chosen :
    (b : Bool) (s t : Bytes)
    → has_suffix s (codes "/remote.cgi") ≡ true
    → (b ≡ false → has_suffix t (codes "/remote.cgi") ≡ true)
    → has_suffix (if b then s else t) (codes "/remote.cgi") ≡ true
chosen true s t h h' = h
chosen false s t h h' = h' refl

-- the third test is the property itself
kept :
    (addr t : Bytes)
    → has_suffix t (codes "/remote.cgi") ≡ true
    → has_suffix (if has_suffix addr (codes "/remote.cgi") then addr else t) (codes "/remote.cgi")
      ≡ true
kept addr t h = elim (Bool-cases (has_suffix addr (codes "/remote.cgi"))) [
  | inl is ↦ rw is is
  | inr isnt ↦ rw isnt h
]

completed : (addr : Bytes) → has_suffix (complete_peer_http_addr addr) (codes "/remote.cgi") ≡ true
unfolding complete_peer_http_addr
completed a = chosen (has_suffix a (codes "/thruk/")) _ _ (append-script a) (λ _.
    chosen (has_suffix a (codes "/thruk")) _ _ (append-bin a)
      (λ _. kept a _ (chosen (has_suffix a (codes "/")) _ _ (append-dir a) (λ _. append-all a))))

-- A completed address ends with the script, and completing it again changes nothing.
pub complete_peer_http_addr-again :
    (addr : Bytes)
    → (has_suffix (complete_peer_http_addr addr) (codes "/remote.cgi") ≡ true)
      × (complete_peer_http_addr (complete_peer_http_addr addr) ≡ complete_peer_http_addr addr)
complete_peer_http_addr-again addr =
    (completed addr, complete-script (complete_peer_http_addr addr) (completed addr))
