-- ===== src/Nodes/Tests.antt =====
-- Tests of the cluster manager, and the theorems about it at concrete clusters.
use lmd.Prelude.{
  take, ◌-◌, ◌+◌, ◌%◌, ◌≡◌, ◌<◌, equal, refl, inr, Bool, true, false, some, List, [], ◌∷◌, Bytes,
  codes, ok, err, arith, String,
}
use lmd.Prelude.Dict.{Dict, insert}
use lmd.Nodes.Assign.Held.{IdsDistinct}
use lmd.Runtime.{index_out_of_range}
use lmd.Nodes.{NodeAddress, Nodes, contains, get_online_nodes}
use lmd.Nodes.Assign.{plan, by_node, assigned_numbers, deal}
use lmd.Nodes.Assign.Plan.{available}
use lmd.Nodes.Assign.Shares.{all_held, IsEven, plan_covers, plan_leaves, plan_overruns}
use lmd.Nodes.Update.{run_actions, update_backends}
use lmd.Nodes.Update.Lists.{AllDistinct}
use lmd.Nodes.Update.Running.{update_backends-running}

abbrev node : String → Bool → NodeAddress
node name is_me = record {
  id = codes name;
  ip = codes name;
  port = 80;
  url = codes name;
  is_me = is_me;
}

abbrev names : List String → List Bytes
names [] = []
names (s ∷ ss) = codes s ∷ names ss

-- the node "a" among "b" and "c", all online
abbrev cluster : List String → Nodes
cluster backends = record {
  id = codes "a";
  backends = names backends;
  this_node = some (codes "a");
  node_addresses = node "a" true ∷ node "b" false ∷ node "c" false ∷ [];
  online_nodes = names ("a" ∷ "b" ∷ "c" ∷ []);
  assigned_backends = names ("x" ∷ []);
  node_backends = [];
}

abbrev four : Nodes
four = cluster ("x" ∷ "y" ∷ "z" ∷ "u" ∷ [])

-- of four backends this node gets the first two
plan-four :
    plan four
    ≡ ok (
      record four {
        node_backends =
            (codes "a", names ("x" ∷ "y" ∷ []))
            ∷ (codes "b", names ("z" ∷ []))
            ∷ (codes "c", names ("u" ∷ []))
            ∷ [];
      },
      names ("x" ∷ "y" ∷ []),
    )
unfolding plan get_online_nodes assigned_numbers deal by_node insert equal
plan-four = refl

four-IsEven : IsEven four
unfolding contains equal
four-IsEven = inr (omega arith)

four-IdsDistinct : IdsDistinct four.node_addresses
unfolding equal
four-IdsDistinct = (refl, (refl, (refl, tt)))

plan_covers_example :
    (held : Dict (List Bytes)) × (ours : List Bytes) × (plan four
      ≡ ok (record four { node_backends = held }, ours))
    × (all_held four held ≡ four.backends)
plan_covers_example = plan_covers four refl four-IdsDistinct four-IsEven

abbrev five : Nodes
five = cluster ("x" ∷ "y" ∷ "z" ∷ "u" ∷ "v" ∷ [])

five-shares : (0 < available five) × (available five < 5) × (1 < 5 % available five)
unfolding contains equal
five-shares = omega arith

plan_leaves_example :
    (held : Dict (List Bytes)) × (ours : List Bytes) × (plan five
      ≡ ok (record five { node_backends = held }, ours))
    × (all_held five held ≡ take (5 + 1 - 5 % available five) five.backends)
plan_leaves_example =
    plan_leaves five refl four-IdsDistinct five-shares.0 five-shares.1 five-shares.2

abbrev two : Nodes
two = cluster ("x" ∷ "y" ∷ [])

two-short : 2 < available two
unfolding contains equal
two-short = omega arith

plan_overruns_example : plan two ≡ err index_out_of_range
plan_overruns_example = plan_overruns two two-short

four-AllDistinct : AllDistinct four.backends
unfolding contains equal
four-AllDistinct = (refl, (refl, (refl, (refl, tt))))

update_backends-running_example :
    (now : List Bytes) × (run_actions (update_backends four (names ("y" ∷ []))).1 (names ("x" ∷ []))
      ≡ ok now)
    × ((update_backends four (names ("y" ∷ []))).0
        ≡ record four { assigned_backends = names ("y" ∷ []) })
    × ((b : Bytes)
        → contains four.backends b ≡ true
        → contains now b ≡ contains (names ("y" ∷ [])) b)
update_backends-running_example =
    update_backends-running four (names ("y" ∷ [])) (names ("x" ∷ [])) four-AllDistinct
      (λ b h. refl)
