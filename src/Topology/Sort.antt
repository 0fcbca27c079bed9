-- ===== src/Topology/Sort.antt =====
-- Applications/PciTopology/PciTopology.c: `SortDevices`, an insertion sort in place.
pub mod Order
use uefi_tools_pkg.Base.{List, Bool}
use uefi_tools_pkg.Base.Insertion.{insertion_sort}
use uefi_tools_pkg.Topology.Device.{Device, compare_device, is_less}

-- the test of the inner loop
abbrev pub moves_below : Device → Device → Bool
moves_below current before = is_less (compare_device current before)

unfoldable pub sort_devices : List Device → List Device
sort_devices devices = insertion_sort moves_below devices
