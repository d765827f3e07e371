-- ===== src/Nodes/Assign/Shares.antt =====
-- When `redistribute` of lmd/nodes.go gives every backend to a node, when it leaves some without a
-- node, and when it panics.
use mathlib.Core.List.{flatten}
use native.Mathlib.Nat.{div-add-mod}
use lmd.Prelude.{
  map, length-map, take, ◌-◌, refl, ◌+◌, ◌%◌, ◌≤◌, ◌<◌, ◌≡◌, ◌⊎◌, inl, inr, true, List, [], Bytes,
  ok, err, length, arith, take_all, ap, if◌then◌else◌, ◌==◌, ◌∙◌,
}
use lmd.Runtime.{index_out_of_range}
use lmd.Nodes.{Nodes}
use lmd.Nodes.Assign.{assigned_numbers, by_node, plan}
use lmd.Nodes.Assign.Coverage.{total, total-one_each, total-spread_first}
use lmd.Nodes.Assign.Plan.{
  has_me, available, numbers, node_online, length-numbers, plan-ok, plan-err,
}
use lmd.Nodes.Assign.Held.{IdsDistinct, backends_of, by_node-backends_of}
use lmd.Prelude.Dict.{Dict, lookup}

module _ (n : Nodes) where
  -- The backends are dealt evenly up to a remainder of one, or there is one for each online node.
  abbrev pub IsEven : Type 0
  IsEven =
      (available n ≡ length n.backends)
      ⊎ ((0 < available n)
          × (available n < length n.backends)
          × (length n.backends % available n ≤ 1))

  total_one : length n.backends ≤ available n → total (numbers n) ≡ available n
  unfolding assigned_numbers
  total_one h = ground (arith, total-one_each (node_online n))

  total_spread :
      0 < available n
      → available n < length n.backends
      → total (numbers n) + length n.backends % available n
        ≡ length n.backends + (if length n.backends % available n == 0 then 0 else 1)
  unfolding assigned_numbers
  total_spread some fewer = ground (
    arith,
    total-spread_first (length n.backends) (available n) (node_online n) some,
    div-add-mod (length n.backends) (available n),
  )

  total_even : IsEven → total (numbers n) ≡ length n.backends
  total_even (inl same) = ground (arith, total_one)
  total_even (inr (some, fewer, small)) = ground (arith, total_spread some fewer)

  total_short :
      0 < available n
      → available n < length n.backends
      → 1 < length n.backends % available n
      → total (numbers n) + length n.backends % available n ≡ length n.backends + 1
  total_short some fewer big = ground (arith, total_spread some fewer)

  -- what the nodes hold, one after the other
  abbrev pub all_held : Dict (List Bytes) → List Bytes
  all_held held = flatten (map (backends_of held) n.node_addresses)

  held_lists :
      (lists : List (List Bytes))
      → IdsDistinct n.node_addresses
      → map length lists ≡ numbers n
      → all_held (by_node n.node_addresses lists []) ≡ flatten lists
  unfolding lookup
  held_lists lists distinct sizes =
      let same : length lists ≡ length n.node_addresses =
        omega (arith, length-map lists length, ap length sizes, length-numbers n) in
      ap flatten (by_node-backends_of n.node_addresses lists [] distinct same (λ id h. refl))

  -- If this node is among the nodes, no two of which have one id, and there are as many online nodes as
  -- backends, or fewer and the remainder of the division is at most one, then the plan succeeds, changes
  -- nothing but `nodeBackends`, and the nodes hold each backend once, in the order of `n.backends`.
  pub plan_covers :
      has_me n.node_addresses ≡ true
      → IdsDistinct n.node_addresses
      → IsEven
      → (held : Dict (List Bytes)) × (ours : List Bytes) × (plan n
          ≡ ok (record n { node_backends = held }, ours))
        × (all_held held ≡ n.backends)
  plan_covers me distinct even =
      let (lists, ours, planned, flat, sizes) = plan-ok n me (omega (arith, total_even even)) in
      (
        by_node n.node_addresses lists [],
        ours,
        planned,
        held_lists lists distinct sizes
            ∙ flat
            ∙ take_all _ n.backends (omega (arith, total_even even)),
      )

  -- If this node is among the nodes, no two of which have one id, and some nodes are online, fewer
  -- than there are backends, with a remainder of the division above one, then the plan succeeds,
  -- and what the nodes hold, one after the other, are the first backends, all but the remainder
  -- less one.
  pub plan_leaves :
      has_me n.node_addresses ≡ true
      → IdsDistinct n.node_addresses
      → 0 < available n
      → available n < length n.backends
      → 1 < length n.backends % available n
      → (held : Dict (List Bytes)) × (ours : List Bytes) × (plan n
          ≡ ok (record n { node_backends = held }, ours))
        × (all_held held
            ≡ take (length n.backends + 1 - length n.backends % available n) n.backends)
  plan_leaves me distinct some fewer big =
      let t = total_short some fewer big in
      let (lists, ours, planned, flat, sizes) = plan-ok n me (omega arith) in
      let count : total (numbers n) ≡ length n.backends + 1 - length n.backends % available n =
        omega (arith, t) in
      (
        by_node n.node_addresses lists [],
        ours,
        planned,
        held_lists lists distinct sizes ∙ flat ∙ ap (λ k. take k n.backends) count,
      )

  -- With more online nodes than backends the plan reads behind the end of the backends.
  pub plan_overruns : length n.backends < available n → plan n ≡ err index_out_of_range
  plan_overruns more = plan-err n (ground (arith, total_one))
