-- ===== src/Topology/Collect.antt =====
-- Applications/PciTopology/PciTopology.c: `CollectDevices` and `UefiMain`. The PCI I/O protocol and the pool
-- are parameters: what they return.
pub mod Arranged
pub mod Shows
use uefi_tools_pkg.Base.{
  ℕ, zero, suc, ◌+◌, ◌%◌, ◌^◌, Bool, true, false, not, Option, none, some, List, [], ◌∷◌, ◌++◌,
  if◌then◌else◌, length,
}
use mathlib.Core.List.{map}
use uefi_tools_pkg.Efi.{Status, success, error, not_found, out_of_resources, efi_error}
use uefi_tools_pkg.Topology.Device.{Config, Device, no_parent, is_pci_to_pci_bridge}
use uefi_tools_pkg.Topology.Sort.{sort_devices}
use uefi_tools_pkg.Topology.Parents.{assign_parents}
use uefi_tools_pkg.Topology.Print.{Line, print_topology}

pub record Location : Type 0 where
  pub segment : ℕ
  pub bus : ℕ
  pub device : ℕ
  pub function : ℕ

-- what `HandleProtocol`, `Pci.Read` and `GetLocation` return for a handle
pub record PciIo : Type 0 where
  pub handle : ℕ
  pub protocol : Status
  pub config : Status × Config
  pub location : Status × Location

pub data Message : Type 0 where
  banner : Message
  config_failed : ℕ → Status → Message
  location_failed : ℕ → Status → Message
  no_handles_found : Status → Message
  summary : ℕ → ℕ → Message
  topology : Line → Message

-- The bus numbers of a device that is no bridge are those of the zeroed pool.
unfoldable pub new_device : ℕ → Config → Location → Device
new_device handle pci at =
    let bridge = is_pci_to_pci_bridge pci in
    record {
      handle = handle;
      pci = pci;
      segment = at.segment;
      bus = at.bus;
      device = at.device;
      function = at.function;
      is_bridge = bridge;
      primary_bus = if bridge then pci.primary else 0;
      secondary_bus = if bridge then pci.secondary else 0;
      subordinate_bus = if bridge then pci.subordinate else 0;
      parent = no_parent;
    }

-- the loop: the devices so far, and what was printed
unfoldable pub collect_from :
    ℕ → List PciIo → List Device → List Message → List Device × List Message
collect_from index [] devices shown = (devices, shown)
collect_from index (io ∷ rest) devices shown =
    if efi_error io.protocol
    then collect_from (suc index) rest devices shown
    else if efi_error io.config.0
    then collect_from (suc index) rest devices (shown ++ (config_failed index io.config.0 ∷ []))
    else if efi_error io.location.0
    then collect_from (suc index) rest devices (shown ++ (location_failed index io.location.0 ∷ []))
    else collect_from (suc index) rest
        (devices ++ (new_device io.handle io.config.1 io.location.1 ∷ [])) shown

-- the end of `CollectDevices`
abbrev pub found_devices : List Device × List Message → Status × List Device × List Message
found_devices ([], shown) = (error not_found, [], shown)
found_devices (d ∷ devices, shown) = (success, d ∷ devices, shown)

-- `allocates`: whether the pool has room for the array
unfoldable pub collect_devices : Status × List PciIo → Bool → Status × List Device × List Message
collect_devices (status, handles) allocates =
    if efi_error status
    then (status, [], [])
    else if not allocates
    then (error out_of_resources, [], [])
    else found_devices (collect_from 0 handles [] [])

unfoldable pub bridge_count : List Device → ℕ
bridge_count [] = 0
bridge_count (d ∷ rest) = (if d.is_bridge then 1 else 0) + bridge_count rest

unfoldable pub uefi_main : Status × List PciIo → Bool → Status × List Message
uefi_main located allocates =
    let (status, found, shown) = collect_devices located allocates in
    if efi_error status
    then (status, banner ∷ shown ++ (no_handles_found status ∷ []))
    else let devices = assign_parents (sort_devices found) in
      (
        success,
        banner ∷ shown
            ++ (summary (length devices % 2 ^ 32) (bridge_count devices % 2 ^ 32)
                ∷ map topology (print_topology devices)),
      )
