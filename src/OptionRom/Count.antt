-- ===== src/OptionRom/Count.antt =====
-- Applications/PciOptionRomInfo/PciOptionRomInfo.c: what `UefiMain` counts and prints.
use mathlib.Core.List.{append-nil, append_assoc}
use uefi_tools_pkg.Base.{
  ℕ, suc, ◌+◌, ◌^◌, ◌≤◌, ◌<◌, Bool-cases, inl, inr, ◌≡◌, ◌∙◌, false, not, Option, some, List, [],
  ◌∷◌, ◌++◌, length, arith, mod-eq_small,
}
use uefi_tools_pkg.Efi.{Status, success, efi_error}
use uefi_tools_pkg.OptionRom.Format.{Format}
use uefi_tools_pkg.OptionRom.Devices.{
  PciIo, DeviceLine, print_device_rom_info, scan_handles, uefi_main, has_rom, count_roms, all_lines,
}

same_lines :
    {a b : ℕ} (ls : List DeviceLine) → a ≡ b → ◌≡◌ {A = ℕ × List DeviceLine} (a, ls) (b, ls)
same_lines ls e = λ i. (e i, ls)

same_counts :
    {a b c d : ℕ} (ls : List DeviceLine)
    → a ≡ b
    → c ≡ d
    → ◌≡◌ {A = Status × Option (ℕ × ℕ) × List DeviceLine}
        (success, some (a, c), ls)
        (success, some (b, d), ls)
same_counts ls e f = λ i. (success, some (e i, f i), ls)

count_roms-le : (handles : List (Status × PciIo)) → count_roms handles ≤ length handles
count_roms-le [] = omega arith
count_roms-le (handle ∷ handles) = ground (arith, count_roms-le handles)

module _ (fmt : Format) (max_uintn : ℕ) where
  print_device_rom_info_ok :
      (handle : Status × PciIo)
      → efi_error (print_device_rom_info fmt max_uintn handle).0 ≡ not (has_rom handle)
  unfolding print_device_rom_info
  print_device_rom_info_ok (status, io) = ground arith

  scan_handles_lem :
      (handles : List (Status × PciIo)) (count : ℕ) (shown : List DeviceLine)
      → count + length handles ≤ max_uintn
      → scan_handles fmt max_uintn handles count shown
        ≡ (count + count_roms handles, shown ++ all_lines fmt max_uintn handles)
  unfolding scan_handles
  scan_handles_lem [] count shown h = rw append-nil (same_lines _ (omega arith))
  scan_handles_lem (handle ∷ handles) count shown h =
      let lines = (print_device_rom_info fmt max_uintn handle).1 in
      elim (Bool-cases (has_rom handle)) [
        | inl rom ↦
            rw
              (
                print_device_rom_info_ok handle,
                rom,
                mod-eq_small (count + 1) max_uintn (omega arith),
              )
              (scan_handles_lem handles (count + 1) (shown ++ lines) (omega arith)
                ∙ rw append_assoc (same_lines _ (omega arith)))
        | inr none_there ↦
            rw (print_device_rom_info_ok handle, none_there)
              (scan_handles_lem handles count (shown ++ lines) (omega arith)
                ∙ rw append_assoc (same_lines _ (omega arith)))
      ]

  -- If handles were located, fewer than 2^32, and UINTN has 32 bits at least, `UefiMain` succeeds,
  -- its last line gives their number and that of the devices that have an Option ROM and a readable
  -- configuration, and the output is that of each device in turn.
  pub uefi_main-counts :
      (status : Status) (handles : List (Status × PciIo))
      → efi_error status ≡ false
      → length handles < 2 ^ 32
      → 2 ^ 32 ≤ suc max_uintn
      → uefi_main fmt max_uintn (status, handles)
        ≡ (success, some (length handles, count_roms handles), all_lines fmt max_uintn handles)
  unfolding uefi_main
  uefi_main-counts status handles good few wide =
      let fewer = count_roms-le handles in
      rw (good, scan_handles_lem handles 0 [] (omega arith))
        (same_counts _ (omega arith) (omega (arith, fewer)))
