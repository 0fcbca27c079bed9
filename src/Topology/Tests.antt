-- ===== src/Topology/Tests.antt =====
-- Runs of Applications/PciTopology/PciTopology.c on a small machine, and each theorem at a concrete input.
use mathlib.Core.List.{map, Perm, Pairwise}
use uefi_tools_pkg.Base.{
  ◌==◌, ℕ, ◌≡◌, refl, ◌⊎◌, true, false, some, List, [], ◌∷◌, ◌++◌, length, get_elem?, arith,
}
use uefi_tools_pkg.Efi.{success, error, not_found}
use uefi_tools_pkg.Topology.Device.{Config, Device, no_parent, is_pci_to_pci_bridge, compare_device}
use uefi_tools_pkg.Topology.Sort.{sort_devices}
use uefi_tools_pkg.Base.Insertion.{insert_below, sort_onto, insertion_sort}
use uefi_tools_pkg.Topology.Sort.Order.{InOrder, sort_devices-sorts}
use uefi_tools_pkg.Topology.Parents.{
  best_from, assign_from, assign_parents, has_child, last_index, last_child_index,
  last_root_in_segment,
}
use uefi_tools_pkg.Topology.Parents.Best.{Candidate, IsNarrowest}
use uefi_tools_pkg.Topology.Parents.Assign.{assign_parents-best}
use uefi_tools_pkg.Topology.Print.{
  Line, node, print_node, for_children, print_subtree, print_roots, print_orphans, print_topology,
}
use uefi_tools_pkg.Topology.Print.Complete.{print_topology-shows}
use uefi_tools_pkg.Topology.Print.Shown.{IsShown}
use uefi_tools_pkg.Topology.Collect.{
  PciIo, Message, banner, summary, topology, new_device, collect_from, collect_devices,
  bridge_count, uefi_main,
}
use uefi_tools_pkg.Topology.Collect.Shows.{
  devices_of, expected_status, uefi_main-status, uefi_main-shows,
}

abbrev endpoint : Config
endpoint = record {
  base_class = 2;
  sub_class = 0;
  prog_if = 0;
  vendor_id = 0x8086;
  device_id = 1;
  primary = 0;
  secondary = 0;
  subordinate = 0;
}

abbrev bridge_to : ℕ → ℕ → ℕ → Config
bridge_to from first last = record endpoint {
  base_class = 6;
  sub_class = 4;
  primary = from;
  secondary = first;
  subordinate = last;
}

abbrev io_at : ℕ → Config → ℕ → ℕ → PciIo
io_at handle pci bus device = record {
  handle = handle;
  protocol = success;
  config = (success, pci);
  location = (success, record { segment = 0; bus = bus; device = device; function = 0 });
}

-- an endpoint behind two bridges, in the order of the firmware
abbrev handles : List PciIo
handles =
    io_at 1 endpoint 2 0
    ∷ io_at 2 (bridge_to 1 2 2) 1 0
    ∷ record (io_at 3 endpoint 0 5) { protocol = error not_found }
    ∷ io_at 4 (bridge_to 0 1 2) 0 1
    ∷ []

-- the depths and handles of the lines, and the counts
abbrev rows : List Message → List (ℕ × ℕ)
rows [] = []
rows (topology (node bars corner i d) ∷ rest) = (length bars, d.handle) ∷ rows rest
rows (summary devices bridges ∷ rest) = (devices, bridges) ∷ rows rest
rows (_ ∷ rest) = rows rest

topology_rows : List PciIo → List (ℕ × ℕ)
unfolding uefi_main collect_devices collect_from new_device bridge_count sort_devices insertion_sort
    sort_onto insert_below compare_device is_pci_to_pci_bridge assign_parents assign_from best_from
    has_child last_index last_child_index last_root_in_segment print_node for_children print_subtree
    print_roots print_orphans print_topology
topology_rows handles = rows (uefi_main (success, handles) true).1

topology_rows-handles : topology_rows handles ≡ (3, 2) ∷ (0, 4) ∷ (1, 2) ∷ (2, 1) ∷ []
unfolding topology_rows
topology_rows-handles = refl

abbrev device_at : ℕ → Config → ℕ → ℕ → Device
device_at handle pci bus device = record {
  handle = handle;
  pci = pci;
  segment = 0;
  bus = bus;
  device = device;
  function = 0;
  is_bridge = pci.base_class == 6;
  primary_bus = pci.primary;
  secondary_bus = pci.secondary;
  subordinate_bus = pci.subordinate;
  parent = no_parent;
}

abbrev devices : List Device
devices =
    device_at 4 (bridge_to 0 1 2) 0 1
    ∷ device_at 2 (bridge_to 1 2 2) 1 0
    ∷ device_at 1 endpoint 2 0
    ∷ []

sort_devices-sorts_example :
    Pairwise InOrder (sort_devices devices) × Perm (sort_devices devices) devices
sort_devices-sorts_example = sort_devices-sorts devices

assign_parents-best_example :
    (parent : ℕ) × (get_elem? (assign_parents devices) 2
      ≡ some (record (device_at 1 endpoint 2 0) { parent = parent }))
    × (((parent ≡ no_parent)
          × ((m : ℕ) (other : Device)
              → ¬ (Candidate 2 (device_at 1 endpoint 2 0) 0 devices m other)))
        ⊎ IsNarrowest 2 (device_at 1 endpoint 2 0) 0 devices no_parent parent)
assign_parents-best_example =
    assign_parents-best devices 2 (device_at 1 endpoint 2 0)
      (omega arith, (omega arith, (omega arith, tt))) refl

print_topology-shows_example : IsShown 2 (device_at 1 endpoint 2 0) (print_topology devices)
print_topology-shows_example = print_topology-shows devices 2 (device_at 1 endpoint 2 0) refl

uefi_main-status_example :
    (uefi_main (success, handles) false).0 ≡ expected_status success false (devices_of handles)
uefi_main-status_example = uefi_main-status success handles false

uefi_main-shows_example :
    (shown : List Message) × (lines : List Line) × (uefi_main (success, handles) true ≡ (
      success,
      banner ∷ shown
          ++ (summary (length (devices_of handles)) (bridge_count (devices_of handles))
              ∷ map topology lines),
    ))
    × ((j : ℕ) (d : Device)
        → get_elem? (assign_parents (sort_devices (devices_of handles))) j ≡ some d
        → IsShown j d lines)
uefi_main-shows_example = uefi_main-shows success handles refl (λ e. cc) (omega arith)
