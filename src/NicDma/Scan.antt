-- ===== src/NicDma/Scan.antt =====
-- Applications/NicDmaScan/NicDmaScan.c: `Realtek` and `ShellAppMain`. What a read of the hardware returns is a
-- parameter; a register can change between its reads, so these are counted.
pub mod Gate
pub mod Program
use Prim.Native.Nat.{bit_and}
use uefi_tools_pkg.Base.{
  ℕ, suc, ◌+◌, ◌%◌, ◌^◌, Bool, true, false, ◌&&◌, ◌||◌, not, Option, none, some, List, [], ◌∷◌,
  ◌++◌, map, Text, codes, equal, ltb, length, get_or, ◌==◌, if◌then◌else◌,
}
use uefi_tools_pkg.Efi.{Status, efi_error, is_not_found}
use uefi_tools_pkg.NicDma.Map.{MapServices, get_map}
use uefi_tools_pkg.NicDma.Decode.{Bytes, byte_at, le32}
use uefi_tools_pkg.NicDma.Ram.{MemoryDescriptor}
use uefi_tools_pkg.NicDma.Device.{Resource, AcpiConstants, power_d0, find_mmio}
use uefi_tools_pkg.NicDma.Snapshot.{Event, read_base, snapshot}

-- `descriptor_size` is that of EFI_MEMORY_DESCRIPTOR, `map_services offset` what `GetMap` finds for the ring at
-- `offset`; `register offset n` is what the read with number `n` of the two registers at `offset` returns, and
-- `memory offset` what the snapshot of the ring at `offset` sees.
pub record NicIo : Type 0 where
  pub protocol : Status
  pub config : ℕ → ℕ → Option Bytes
  pub bar_attributes : ℕ → Option Resource
  pub register : ℕ → ℕ → Option (ℕ × ℕ)
  pub descriptor_size : ℕ
  pub map_services : ℕ → MapServices
  pub memory : ℕ → ℕ → ℕ → Bytes

-- the map that `Snapshot` asks `GetMap` for
abbrev pub memory_map : ℕ → NicIo → ℕ → Option (List MemoryDescriptor)
memory_map max_uintn io offset =
    elim (get_map max_uintn io.descriptor_size (io.map_services offset)) [
      | none ↦ none
      | some found ↦ some found.descriptors
    ]

pub data ScanEvent : Type 0 where
  usage no_pci_handles : ScanEvent
  enumeration_failed : Status → ScanEvent
  device : ℕ → ScanEvent
  mmio_disabled not_d0 no_memory_bar no_decoder : ScanEvent
  -- `ReadBase` reads the registers of a device at this offset of a BAR
  mmio_read : NicIo → ℕ → ℕ → ScanEvent
  base_unavailable : ℕ → ScanEvent
  ring_base : ℕ → ℕ → ScanEvent
  no_descriptor_reads payload_not_read : ScanEvent
  -- an event of the snapshot of the ring of a device at this offset of a BAR
  observed : NicIo → ℕ → ℕ → Event → ScanEvent
  totals : ℕ → ℕ → ScanEvent

-- the device that the decoder knows
abbrev pub is_allowed : Bytes → Bool
is_allowed cfg =
    le32 cfg 0 == 0x816810ec && (byte_at cfg 8 == 0x15 && bit_and (byte_at cfg 0x0e) 0x7f == 0)

module _ (max_uintn : ℕ) (acpi : AcpiConstants) (identity : Bool) (io : NicIo) where
  -- the round for a ring whose base was read
  unfoldable pub show_ring : ℕ → ℕ → ℕ → List ScanEvent
  show_ring bar offset base =
      ring_base offset base
      ∷ (if offset == 0x28
          then no_descriptor_reads ∷ []
          else if identity
          then map (observed io bar offset) (
              snapshot max_uintn (memory_map max_uintn io offset) (io.memory offset)
                (read_base (io.register offset 2) (io.register offset 3)) base (offset == 0xe4))
          else payload_not_read ∷ [])

  -- the loop over the offsets, with the failures
  unfoldable pub show_rings : ℕ → List ℕ → ℕ → List ScanEvent → ℕ × List ScanEvent
  show_rings bar [] failures shown = (failures, shown)
  show_rings bar (offset ∷ rest) failures shown =
      elim (read_base (io.register offset 0) (io.register offset 1)) [
        | none ↦
            show_rings bar rest ((failures + 1) % suc max_uintn)
              (shown ++ (mmio_read io bar offset ∷ base_unavailable offset ∷ []))
        | some base ↦
            show_rings bar rest failures
              (shown ++ (mmio_read io bar offset ∷ show_ring bar offset base))
      ]

  unfoldable pub realtek : Bytes → ℕ → ℕ × List ScanEvent
  realtek cfg failures =
      if bit_and (byte_at cfg 4) 2 == 0
      then (failures, mmio_disabled ∷ [])
      else if not (power_d0 io.config cfg)
      then (failures, not_d0 ∷ [])
      else elim (find_mmio acpi io.bar_attributes cfg) [
        | none ↦ (failures, no_memory_bar ∷ [])
        | some bar ↦ show_rings bar (0x20 ∷ 0x28 ∷ 0xe4 ∷ []) failures []
      ]

  -- A round of the loop of `ShellAppMain`: the networks, the failures and the output.
  unfoldable pub inspect : ℕ → ℕ → ℕ × ℕ × List ScanEvent
  inspect networks failures =
      if efi_error io.protocol
      then (networks, (failures + 1) % suc max_uintn, [])
      else elim (io.config 0 64) [
        | none ↦ (networks, (failures + 1) % suc max_uintn, [])
        | some cfg ↦
            if not (byte_at cfg 11 == 2)
            then (networks, failures, [])
            else let (failures', events) =
                if is_allowed cfg then realtek cfg failures else (failures, no_decoder ∷ []) in
              ((networks + 1) % suc max_uintn, failures', device (le32 cfg 0) ∷ events)
      ]

module _ (max_uintn : ℕ) (acpi : AcpiConstants) (identity : Bool) where
  -- the loop over the handles
  unfoldable pub scan_handles : List NicIo → ℕ → ℕ → List ScanEvent → ℕ × ℕ × List ScanEvent
  scan_handles [] networks failures shown = (networks, failures, shown)
  scan_handles (io ∷ rest) networks failures shown =
      let (networks', failures', events) = inspect max_uintn acpi identity io networks failures in
      scan_handles rest networks' failures' (shown ++ events)

  -- the scan, with the flag `mIdentity` set
  unfoldable pub scan : Status × List NicIo → ℕ × List ScanEvent
  scan (status, handles) =
      if is_not_found status
      then (0, no_pci_handles ∷ [])
      else if efi_error status
      then (1, enumeration_failed status ∷ [])
      else let (networks, failures, shown) = scan_handles handles 0 0 [] in
        (
          if failures == 0 then 0 else 1,
          shown ++ (totals (networks % 2 ^ 32) (failures % 2 ^ 32) ∷ []),
        )

abbrev pub asks_help : List Text → Bool
asks_help argv =
    length argv == 2
    && (equal (get_or argv 1 []) (codes "--help") || equal (get_or argv 1 []) (codes "-h"))

abbrev pub asserts_identity : List Text → Bool
asserts_identity argv = length argv == 2 && equal (get_or argv 1 []) (codes "--identity-map")

-- the result of the program, and its output; the arguments include the name of the program
unfoldable pub shell_app_main :
    ℕ → AcpiConstants → List Text → Status × List NicIo → ℕ × List ScanEvent
shell_app_main max_uintn acpi argv located =
    if asserts_identity argv
    then scan max_uintn acpi true located
    else if not (length argv == 1)
    then (if asks_help argv then 0 else 2, usage ∷ [])
    else scan max_uintn acpi false located
