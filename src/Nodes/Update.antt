-- ===== src/Nodes/Update.antt =====
-- `updateBackends` and `redistribute` of lmd/nodes.go: which peers are stopped and started.
pub mod Lists
pub mod Running
use lmd.Prelude.{
  Bool, true, false, ◌&&◌, not, List, [], ◌∷◌, ◌++◌, Bytes, equal, Result, ok, err, ◌>>=◌,
  if◌then◌else◌,
}
use lmd.Runtime.{Panic, raised}
use lmd.Nodes.{Nodes, contains}
use lmd.Nodes.Assign.{plan}

-- `peer.Stop()`, `peer.Clear()` and `peer.Start()` of the peer with this id
pub data PeerAction : Type 0 where
  stop clear start : Bytes → PeerAction

-- `addBackends` and `rmvBackends`
pub record Changes : Type 0 where
  pub add : List Bytes
  pub rmv : List Bytes

pub note_backend : Bytes → Bool → Bool → Changes → Changes
note_backend backend assigned_now assigned_before c =
    if assigned_now && not assigned_before
    then record c { add = backend ∷ c.add }
    else if assigned_before && not assigned_now
    then record c { rmv = backend ∷ c.rmv }
    else c

-- The lists are built from the back, so that the order is that of the appends.
pub changes : List Bytes → List Bytes → List Bytes → Changes
unfolding contains note_backend
changes ours before [] = record { add = []; rmv = [] }
changes ours before (backend ∷ rest) =
    note_backend backend (contains ours backend) (contains before backend)
      (changes ours before rest)

pub stops : List Bytes → List PeerAction
stops [] = []
stops (backend ∷ rest) = stop backend ∷ clear backend ∷ stops rest

pub starts : List Bytes → List PeerAction
starts [] = []
starts (backend ∷ rest) = start backend ∷ starts rest

pub update_backends : Nodes → List Bytes → Nodes × List PeerAction
unfolding stops starts
update_backends n ours =
    let c = changes ours n.assigned_backends n.backends in
    (record n { assigned_backends = ours }, stops c.rmv ++ starts c.add)

pub redistribute : Nodes → Result Panic (Nodes × List PeerAction)
redistribute n = do (planned, ours) ← plan n; ok (update_backends planned ours)

-- The peers whose update loop runs (`Updating` in their status). `Start` panics on a running peer;
-- `Stop` does nothing to a peer that does not run, and has ended the loop before the next action.
pub without : Bytes → List Bytes → List Bytes
without b [] = []
without b (x ∷ xs) = let rest = without b xs in if equal x b then rest else x ∷ rest

pub run_actions : List PeerAction → List Bytes → Result Panic (List Bytes)
unfolding contains without
run_actions [] running = ok running
run_actions (stop b ∷ rest) running = run_actions rest (without b running)
run_actions (clear b ∷ rest) running = run_actions rest running
run_actions (start b ∷ rest) running =
    let go = run_actions rest (b ∷ running) in if contains running b then err raised else go
