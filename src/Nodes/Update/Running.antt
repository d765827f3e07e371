-- ===== src/Nodes/Update/Running.antt =====
-- After `updateBackends` of lmd/nodes.go the peers that run are those assigned to this node.
use lmd.Prelude.{
  true, false, ◌&&◌, ◌||◌, not, List, [], ◌∷◌, ◌++◌, Bytes, equal_iff, equal_self, ◌≡◌, refl, ok,
  arith, ◌∙◌,
}
use lmd.Nodes.{Nodes, contains}
use lmd.Nodes.Update.{PeerAction, without, changes, stops, starts, run_actions, update_backends}
use lmd.Nodes.Update.Lists.{
  contains-without, contains-add, contains-rmv, AllDistinct, add-AllDistinct,
}

-- Stops never panic, and end the loops of the peers that they name.
run_actions-stops :
    (rmv running : List Bytes) (rest : List PeerAction)
    → (left : List Bytes) × (run_actions (stops rmv ++ rest) running ≡ run_actions rest left)
      × ((b : Bytes) → contains left b ≡ (contains running b && not (contains rmv b)))
unfolding run_actions stops contains
run_actions-stops [] running rest = (running, refl, λ b. ground arith)
run_actions-stops (r ∷ rmv) running rest =
    let (left, runs, has) = run_actions-stops rmv (without r running) rest in
    (left, runs, λ b. ground (arith, has b, contains-without r b running))

-- Starts panic on no peer, if none of them runs and none is named twice.
run_actions-starts :
    (add running : List Bytes)
    → AllDistinct add
    → ((b : Bytes) → contains add b ≡ true → contains running b ≡ false)
    → (now : List Bytes) × (run_actions (starts add) running ≡ ok now)
      × ((b : Bytes) → contains now b ≡ (contains running b || contains add b))
unfolding run_actions starts contains
run_actions-starts [] running distinct fresh = (running, refl, λ b. ground arith)
run_actions-starts (a ∷ add) running distinct fresh =
    let (now, runs, has) =
      run_actions-starts add (a ∷ running) distinct.1
        (λ b h. ground (arith, fresh b, equal_iff a b, distinct.0)) in
    (now, ground (arith, runs, fresh a, equal_self a), λ b. ground (arith, has b))

-- Let the peers that run be, among the backends of the cluster, those assigned to this node, and
-- let no backend be listed twice.
-- Then the stops and starts of `updateBackends` do not panic, the new state assigns `ours` to this
-- node, and afterwards the peers that run are, among the backends, those of `ours`.
pub update_backends-running :
    (n : Nodes) (ours running : List Bytes)
    → AllDistinct n.backends
    → ((b : Bytes)
        → contains n.backends b ≡ true
        → contains running b ≡ contains n.assigned_backends b)
    → (now : List Bytes) × (run_actions (update_backends n ours).1 running ≡ ok now)
      × ((update_backends n ours).0 ≡ record n { assigned_backends = ours })
      × ((b : Bytes) → contains n.backends b ≡ true → contains now b ≡ contains ours b)
unfolding update_backends
update_backends-running n ours running distinct agree =
    let c = changes ours n.assigned_backends n.backends in
    let (left, stopped, has_left) = run_actions-stops c.rmv running (starts c.add) in
    let (now, started, has_now) =
      run_actions-starts c.add left (add-AllDistinct ours n.assigned_backends n.backends distinct)
        (λ b h.
          ground
            (arith, has_left b, agree b, contains-add ours n.assigned_backends n.backends b)) in
    (
      now,
      stopped ∙ started,
      refl,
      λ b h. ground (
        arith,
        has_left b,
        has_now b,
        agree b h,
        contains-add ours n.assigned_backends n.backends b,
        contains-rmv ours n.assigned_backends n.backends b,
      ),
    )
