-- ===== src/Topology/Print.antt =====
-- Applications/PciTopology/PciTopology.c: `PrintPrefix`, `PrintDeviceLine`, `PrintSubtree` and `PrintTopology`.
-- The printer holds the `Printed` flags of the devices, the array `LastAtDepth` and the output.
pub mod Shown
pub mod Complete
use uefi_tools_pkg.Base.{
  ℕ, zero, suc, ◌+◌, ◌-◌, Bool, true, false, not, Option, none, some, List, [], ◌∷◌, ◌++◌, ◌==◌,
  if◌then◌else◌, get_or, set, take, replicate, length,
}
use uefi_tools_pkg.Topology.Device.{Device, no_parent}
use uefi_tools_pkg.Topology.Parents.{has_child, last_child_index, last_root_in_segment}

pub data Line : Type 0 where
  domain : ℕ → Line
  -- the bars of the prefix, the corner, the index of the device and the device
  node : List Bool → Bool → ℕ → Device → Line
  max_depth : Line
  orphan : ℕ → Device → Line

pub record Printer : Type 0 where
  pub printed : List Bool
  pub last_at_depth : List Bool
  pub lines : List Line

abbrev pub emit : Line → Printer → Printer
emit line p = record p { lines = p.lines ++ (line ∷ []) }

-- the array has 32 elements, and 31 is the largest depth
abbrev pub max_levels : ℕ
max_levels = 31

-- `PrintPrefix`, `PrintDeviceLine` and the flag
unfoldable pub print_node : ℕ → ℕ → Device → Bool → Printer → Printer
print_node depth index d is_last p =
    record (emit (node (take depth p.last_at_depth) is_last index d) p) {
      printed = set p.printed index true;
    }

-- the loop over the children, with the call for each of them
unfoldable pub for_children :
    (ℕ → Device → Bool → Printer → Printer) → ℕ → ℕ → ℕ → List Device → Printer → Printer
for_children visit parent last i [] p = p
for_children visit parent last i (d ∷ rest) p =
    for_children visit parent last (suc i) rest
      (if d.parent == parent then visit i d (i == last) p else p)

-- `levels` is 31 - `Depth`: at zero `Depth + 1 >= 32` holds.
unfoldable pub print_subtree : ℕ → List Device → ℕ → Device → Bool → Printer → Printer
print_subtree zero devices index d is_last p =
    let p' = print_node max_levels index d is_last p in
    if not (has_child devices index) then p' else emit max_depth p'
print_subtree (suc levels) devices index d is_last p =
    let depth = max_levels - suc levels in
    let p' = print_node depth index d is_last p in
    let below =
      for_children (print_subtree levels devices) index (last_child_index devices index) 0 devices
        (record p' { last_at_depth = set p'.last_at_depth depth is_last }) in
    if not (has_child devices index) then p' else below

-- the first loop of `PrintTopology`, on `CurrentSegment` and `LastRoot`
unfoldable pub print_roots : List Device → ℕ → List Device → ℕ → ℕ → Printer → Printer
print_roots devices i [] segment last_root p = p
print_roots devices i (d ∷ rest) segment last_root p =
    let changed = not (d.segment == segment) in
    let root = if changed then last_root_in_segment devices d.segment else last_root in
    let p' = if changed then emit (domain d.segment) p else p in
    print_roots devices (suc i) rest d.segment root
      (if d.parent == no_parent then print_subtree max_levels devices i d (i == root) p' else p')

-- the second loop
unfoldable pub print_orphans : ℕ → List Device → Printer → Printer
print_orphans i [] p = p
print_orphans i (d ∷ rest) p =
    print_orphans (suc i) rest (if not (get_or p.printed i false) then emit (orphan i d) p else p)

abbrev pub new_printer : List Device → Printer
new_printer devices = record {
  printed = replicate (length devices) false;
  last_at_depth = replicate 32 false;
  lines = [];
}

unfoldable pub print_topology : List Device → List Line
print_topology devices =
    (print_orphans 0 devices
      (print_roots devices 0 devices no_parent no_parent (new_printer devices))).lines
