-- ===== src/Topology/Collect/Shows.antt =====
-- Applications/PciTopology/PciTopology.c: what `UefiMain` counts and shows of the handles.
use mathlib.Core.List.{map, append-nil, append_assoc}
use uefi_tools_pkg.Base.{
  some, get_elem?, ℕ, suc, ◌%◌, ◌^◌, ◌<◌, ◌≡◌, refl, ◌≢◌, sym, ◌∙◌, ap, Bool, true, false, not,
  List, [], ◌∷◌, ◌++◌, if◌then◌else◌, length, arith, Bool-cases, inl, inr, ◌&&◌,
}
use uefi_tools_pkg.Efi.{Status, success, warning, error, not_found, out_of_resources, efi_error}
use uefi_tools_pkg.Topology.Device.{Device}
use uefi_tools_pkg.Topology.Sort.{sort_devices}
use uefi_tools_pkg.Topology.Parents.{assign_parents}
use uefi_tools_pkg.Topology.Print.{print_topology, Line}
use uefi_tools_pkg.Topology.Print.Complete.{print_topology-shows}
use uefi_tools_pkg.Topology.Print.Shown.{IsShown}
use uefi_tools_pkg.Topology.Collect.{
  PciIo, Message, banner, summary, topology, new_device, collect_from, collect_devices,
  found_devices, bridge_count, uefi_main,
}
use uefi_tools_pkg.Topology.Collect.Arranged.{
  length-arranged, bridge_count-arranged, bridge_count-le,
}

-- the three calls succeed
abbrev pub is_readable : PciIo → Bool
is_readable io =
    not (efi_error io.protocol) && (not (efi_error io.config.0) && not (efi_error io.location.0))

abbrev pub devices_of : List PciIo → List Device
devices_of [] = []
devices_of (io ∷ rest) =
    if is_readable io
    then new_device io.handle io.config.1 io.location.1 ∷ devices_of rest
    else devices_of rest

collect_from-finds :
    (i : ℕ) (handles : List PciIo) (devices : List Device) (shown : List Message)
    → (collect_from i handles devices shown).0 ≡ devices ++ devices_of handles
unfolding collect_from
collect_from-finds i [] devices shown = sym (append-nil devices)
collect_from-finds i (io ∷ rest) devices shown = elim (Bool-cases (efi_error io.protocol)) [
  | inl e ↦ rw e (collect_from-finds (suc i) rest devices shown)
  | inr k ↦ elim (Bool-cases (efi_error io.config.0)) [
    | inl e ↦ rw (k, e) (collect_from-finds (suc i) rest devices _)
    | inr k' ↦ elim (Bool-cases (efi_error io.location.0)) [
      | inl e ↦ rw (k, k', e) (collect_from-finds (suc i) rest devices _)
      | inr k'' ↦
          rw (k, k', k'')
            (collect_from-finds (suc i) rest
                (devices ++ (new_device io.handle io.config.1 io.location.1 ∷ [])) shown
              ∙ append_assoc devices (new_device io.handle io.config.1 io.location.1 ∷ [])
                  (devices_of rest))
    ]
  ]
]

found_devices-some :
    (r : List Device × List Message) → r.0 ≢ [] → found_devices r ≡ (success, r.0, r.1)
found_devices-some ([], shown) some_there = absurd (some_there refl)
found_devices-some (d ∷ devices, shown) some_there = refl

abbrev pub is_nil : List Device → Bool
is_nil [] = true
is_nil (d ∷ rest) = false

abbrev pub expected_status : Status → Bool → List Device → Status
expected_status located allocates found =
    if efi_error located
    then located
    else if not allocates
    then error out_of_resources
    else if is_nil found
    then error not_found
    else success

found_devices-status :
    (r : List Device × List Message)
    → (found_devices r).0 ≡ (if is_nil r.0 then error not_found else success)
found_devices-status ([], shown) = refl
found_devices-status (d ∷ devices, shown) = refl

collect_devices-status :
    (located : Status) (handles : List PciIo) (allocates : Bool)
    → (collect_devices (located, handles) allocates).0
      ≡ expected_status located allocates (devices_of handles)
unfolding collect_devices
collect_devices-status located handles allocates = elim (Bool-cases (efi_error located)) [
  | inl e ↦ rw e refl
  | inr k ↦ elim (Bool-cases allocates) [
    | inl e ↦
        rw (k, e)
          (found_devices-status (collect_from 0 handles [] [])
            ∙ ap (λ (l : List Device). if is_nil l then error not_found else success)
                (collect_from-finds 0 handles [] []))
    | inr none_left ↦ rw (k, none_left) refl
  ]
]

expected_status-ok :
    (located : Status) (allocates : Bool) (found : List Device)
    → efi_error (expected_status located allocates found) ≡ false
    → expected_status located allocates found ≡ success
expected_status-ok success allocates found h = ground arith
expected_status-ok (warning code) allocates found h = ground arith
expected_status-ok (error code) allocates found h = cc

-- The status of `UefiMain` is an error of `LocateHandleBuffer`, else OUT_OF_RESOURCES if the pool is
-- full, else NOT_FOUND if no handle could be read, else success.
pub uefi_main-status :
    (located : Status) (handles : List PciIo) (allocates : Bool)
    → (uefi_main (located, handles) allocates).0
      ≡ expected_status located allocates (devices_of handles)
unfolding uefi_main
uefi_main-status located handles allocates =
    let status = collect_devices-status located handles allocates in
    elim (Bool-cases (efi_error (collect_devices (located, handles) allocates).0)) [
      | inl e ↦ rw e status
      | inr k ↦ rw k (
          sym (
            expected_status-ok located allocates (devices_of handles)
              (sym (ap efi_error status) ∙ k)))
    ]

collect_devices-finds :
    (located : Status) (handles : List PciIo)
    → efi_error located ≡ false
    → devices_of handles ≢ []
    → (shown : List Message) × (collect_devices (located, handles) true
        ≡ (success, devices_of handles, shown))
unfolding collect_devices
collect_devices-finds located handles good some_there =
    let r = collect_from 0 handles [] [] in
    let finds = collect_from-finds 0 handles [] [] in
    (
      r.1,
      rw good
          (found_devices-some r (λ e. some_there (sym finds ∙ e)) ∙ (λ i. (success, finds i, r.1))),
    )

-- Where handles were located, the pool has room and some handle can be read, but fewer than 2^32,
-- `UefiMain` succeeds, counts the handles that can be read and the bridges among them, and each
-- device found has a line, at its place in the sorted order and with its parent.
pub uefi_main-shows :
    (located : Status) (handles : List PciIo)
    → efi_error located ≡ false
    → devices_of handles ≢ []
    → length (devices_of handles) < 2 ^ 32
    → (shown : List Message) × (lines : List Line) × (uefi_main (located, handles) true ≡ (
      success,
      banner ∷ shown
          ++ (summary (length (devices_of handles)) (bridge_count (devices_of handles))
              ∷ map topology lines),
    ))
      × ((j : ℕ) (d : Device)
          → get_elem? (assign_parents (sort_devices (devices_of handles))) j ≡ some d
          → IsShown j d lines)
unfolding uefi_main
uefi_main-shows located handles good some_there few =
    let found = devices_of handles in
    let devices = assign_parents (sort_devices found) in
    let (shown, collected) = collect_devices-finds located handles good some_there in
    let same_length = length-arranged found in
    let same_bridges = bridge_count-arranged found in
    let fewer = bridge_count-le found in
    let count : length devices % 2 ^ 32 ≡ length found = omega (arith, same_length) in
    let bridges_there : bridge_count devices % 2 ^ 32 ≡ bridge_count found =
      omega (arith, same_bridges, fewer) in
    (
      shown,
      print_topology devices,
      rw collected (λ i. (
        success,
        banner ∷ shown
            ++ (summary (count i) (bridges_there i) ∷ map topology (print_topology devices)),
      )),
      print_topology-shows devices,
    )
