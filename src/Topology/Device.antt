-- ===== src/Topology/Device.antt =====
-- Applications/PciTopology/PciTopology.c: `PCI_TOPO_DEVICE`, `IsPciToPciBridge` and
-- `CompareDevice`. The protocol pointer of a device is its handle here.
use uefi_tools_pkg.Base.{ℕ, Bool, true, false, ◌&&◌, not, ltb, ◌==◌, if◌then◌else◌}

-- MAX_UINTN
abbrev pub no_parent : ℕ
no_parent = 0xffff_ffff_ffff_ffff

-- the bytes of the configuration space that the program reads
pub record Config : Type 0 where
  pub base_class : ℕ
  pub sub_class : ℕ
  pub prog_if : ℕ
  pub vendor_id : ℕ
  pub device_id : ℕ
  pub primary : ℕ
  pub secondary : ℕ
  pub subordinate : ℕ

-- the field `Printed` is kept by the printer
pub record Device : Type 0 where
  pub handle : ℕ
  pub pci : Config
  pub segment : ℕ
  pub bus : ℕ
  pub device : ℕ
  pub function : ℕ
  pub is_bridge : Bool
  pub primary_bus : ℕ
  pub secondary_bus : ℕ
  pub subordinate_bus : ℕ
  pub parent : ℕ

-- PCI_CLASS_BRIDGE and PCI_CLASS_BRIDGE_P2P of Pci22.h
abbrev pub class_bridge : ℕ
class_bridge = 6

abbrev pub class_bridge_p2p : ℕ
class_bridge_p2p = 4

unfoldable pub is_pci_to_pci_bridge : Config → Bool
is_pci_to_pci_bridge pci = pci.base_class == class_bridge && pci.sub_class == class_bridge_p2p

-- the results -1, 0 and 1
pub data Comparison : Type 0 where
  less same more : Comparison

unfoldable pub compare_device : Device → Device → Comparison
compare_device left right =
    if not (left.segment == right.segment)
    then (if ltb left.segment right.segment then less else more)
    else if not (left.bus == right.bus)
    then (if ltb left.bus right.bus then less else more)
    else if not (left.device == right.device)
    then (if ltb left.device right.device then less else more)
    else if not (left.function == right.function)
    then (if ltb left.function right.function then less else more)
    else same

abbrev pub is_less : Comparison → Bool
is_less less = true
is_less _ = false
