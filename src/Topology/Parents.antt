-- ===== src/Topology/Parents.antt =====
-- Applications/PciTopology/PciTopology.c: `AssignParents`, `HasChild`, `LastChildIndex` and
-- `LastRootInSegment`.
pub mod Best
pub mod Assign
use uefi_tools_pkg.Base.{
  ℕ, zero, suc, ◌+◌, ◌-◌, Bool, true, false, ◌&&◌, ◌||◌, not, List, [], ◌∷◌, ltb, ◌==◌,
  if◌then◌else◌,
}
use uefi_tools_pkg.Topology.Device.{Device, no_parent}

-- the tests of the inner loop on a bridge, but for the one on the index
abbrev pub covers : Device → Device → Bool
covers bridge child =
    bridge.is_bridge
    && (bridge.segment == child.segment
        && (not (ltb bridge.subordinate_bus bridge.secondary_bus)
            && not (ltb child.bus bridge.secondary_bus || ltb bridge.subordinate_bus child.bus)))

abbrev pub span : Device → ℕ
span bridge = bridge.subordinate_bus - bridge.secondary_bus

-- the inner loop from index `i`, on `Best` and `BestSpan`
unfoldable pub best_from : ℕ → Device → ℕ → List Device → ℕ → ℕ → ℕ
best_from child_index child i [] best best_span = best
best_from child_index child i (bridge ∷ rest) best best_span =
    let takes = not (i == child_index) && (covers bridge child && ltb (span bridge) best_span) in
    best_from child_index child (suc i) rest (if takes then i else best)
      (if takes then span bridge else best_span)

-- the outer loop; the inner one reads no `Parent`
unfoldable pub assign_from : List Device → ℕ → List Device → List Device
assign_from devices i [] = []
assign_from devices i (child ∷ rest) =
    record child { parent = best_from i child 0 devices no_parent no_parent }
    ∷ assign_from devices (suc i) rest

unfoldable pub assign_parents : List Device → List Device
assign_parents devices = assign_from devices 0 devices

unfoldable pub has_child : List Device → ℕ → Bool
has_child [] parent = false
has_child (d ∷ rest) parent = d.parent == parent || has_child rest parent

-- the loops that keep the last index at which a test holds
unfoldable pub last_index : (Device → Bool) → ℕ → List Device → ℕ → ℕ
last_index test i [] found = found
last_index test i (d ∷ rest) found = last_index test (suc i) rest (if test d then i else found)

unfoldable pub last_child_index : List Device → ℕ → ℕ
last_child_index devices parent = last_index (λ d. d.parent == parent) 0 devices no_parent

unfoldable pub last_root_in_segment : List Device → ℕ → ℕ
last_root_in_segment devices segment =
    last_index (λ d. d.segment == segment && d.parent == no_parent) 0 devices no_parent
