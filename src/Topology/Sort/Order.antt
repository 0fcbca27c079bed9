-- ===== src/Topology/Sort/Order.antt =====
-- Applications/PciTopology/PciTopology.c: the result of `SortDevices`.
use mathlib.Core.List.{Perm, Pairwise}
use mathlib.Core.List.Pairwise
use uefi_tools_pkg.Base.{◌<◌, ◌≤◌, ◌⊎◌, ◌≡◌, ◌≢◌, true, false, List, arith}
use uefi_tools_pkg.Base.Insertion.{Orders, insertion_sort-perm, insertion_sort-Pairwise}
use uefi_tools_pkg.Topology.Device.{Device, more, compare_device, is_less}
use uefi_tools_pkg.Topology.Sort.{moves_below, sort_devices}

-- `a` may stand before `b`
abbrev AtMost : Device → Device → Type 0
AtMost a b = compare_device a b ≢ more

-- by segment, then by bus, then by device, then by function
abbrev pub InOrder : Device → Device → Type 0
InOrder a b =
    (a.segment < b.segment)
    ⊎ ((a.segment ≡ b.segment)
        × ((a.bus < b.bus)
            ⊎ ((a.bus ≡ b.bus)
                × ((a.device < b.device) ⊎ ((a.device ≡ b.device) × (a.function ≤ b.function))))))

AtMost-trans : (a b c : Device) → AtMost a b → AtMost b c → AtMost a c
unfolding compare_device
AtMost-trans a b c h k = ground arith

AtMost-flip : (a b : Device) → is_less (compare_device a b) ≡ true → AtMost a b
AtMost-flip a b h = ground arith

not_less : (a b : Device) → is_less (compare_device a b) ≡ false → AtMost b a
unfolding compare_device
not_less a b h = ground arith

device_order : Orders moves_below (λ a b. compare_device a b ≡ more)
device_order = record { trans = AtMost-trans; passed = AtMost-flip; stayed = not_less }

AtMost-InOrder : (a b : Device) → AtMost a b → InOrder a b
unfolding compare_device
AtMost-InOrder a b h = ground (arith, h)

-- `SortDevices` orders the devices by segment, bus, device and function, and keeps each of them.
pub sort_devices-sorts :
    (l : List Device) → Pairwise InOrder (sort_devices l) × Perm (sort_devices l) l
unfolding sort_devices
sort_devices-sorts l = (
  Pairwise.imp AtMost-InOrder (insertion_sort-Pairwise device_order l),
  insertion_sort-perm moves_below l,
)
