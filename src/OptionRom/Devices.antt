-- ===== src/OptionRom/Devices.antt =====
-- Applications/PciOptionRomInfo/PciOptionRomInfo.c: `PrintDeviceRomInfo` and `UefiMain`. The PCI I/O protocol is a
-- parameter: what it returns for each handle.
use uefi_tools_pkg.Base.{
  ℕ, suc, ◌+◌, ◌%◌, ◌^◌, Bool, true, false, not, ◌&&◌, ◌||◌, Option, none, some, List, [], ◌∷◌,
  ◌++◌, length, ◌==◌, if◌then◌else◌,
}
use uefi_tools_pkg.Efi.{Status, success, error, not_found, efi_error}
use uefi_tools_pkg.OptionRom.Format.{Bytes, Format}
use uefi_tools_pkg.OptionRom.Walk.{Walk, print_option_rom_images}

pub record Location : Type 0 where
  pub segment : ℕ
  pub bus : ℕ
  pub device : ℕ
  pub function : ℕ

-- `config` is the device-independent region, of which the program prints fields only
pub record PciIo : Type 0 where
  pub rom_image : Option Bytes
  pub rom_size : ℕ
  pub config : Status × Bytes
  pub location : Status × Location

pub data DeviceLine : Type 0 where
  config_failed : Status → DeviceLine
  device : Location → Bytes → DeviceLine
  option_rom : ℕ → DeviceLine
  images : Walk → DeviceLine

abbrev pub is_null : Option Bytes → Bool
is_null none = true
is_null (some rom) = false

abbrev pub location_or_zero : Status × Location → Location
location_or_zero (status, location) =
    if efi_error status then record { segment = 0; bus = 0; device = 0; function = 0 } else location

module _ (fmt : Format) (max_uintn : ℕ) where
  unfoldable pub print_device_rom_info : Status × PciIo → Status × List DeviceLine
  print_device_rom_info (status, io) =
      if efi_error status
      then (status, [])
      else if is_null io.rom_image || io.rom_size == 0
      then (error not_found, [])
      else if efi_error io.config.0
      then (io.config.0, config_failed io.config.0 ∷ [])
      else (
        success,
        device (location_or_zero io.location) io.config.1
            ∷ option_rom io.rom_size
            ∷ images (print_option_rom_images fmt max_uintn io.rom_image io.rom_size)
            ∷ [],
      )

  -- the loop of `UefiMain`: the count, and what was printed
  unfoldable pub scan_handles : List (Status × PciIo) → ℕ → List DeviceLine → ℕ × List DeviceLine
  scan_handles [] count shown = (count, shown)
  scan_handles (handle ∷ handles) count shown =
      let (status, lines) = print_device_rom_info handle in
      scan_handles handles (if not (efi_error status) then (count + 1) % suc max_uintn else count)
        (shown ++ lines)

  -- the status, and the counts of the last line, which is printed on success
  unfoldable pub uefi_main :
      Status × List (Status × PciIo) → Status × Option (ℕ × ℕ) × List DeviceLine
  uefi_main (status, handles) =
      if efi_error status
      then (status, none, [])
      else let (count, shown) = scan_handles handles 0 [] in
        (success, some (length handles % 2 ^ 32, count % 2 ^ 32), shown)

-- a device with an Option ROM that can be shown
abbrev pub has_rom : Status × PciIo → Bool
has_rom (status, io) =
    not (efi_error status)
    && (not (is_null io.rom_image) && (not (io.rom_size == 0) && not (efi_error io.config.0)))

abbrev pub count_roms : List (Status × PciIo) → ℕ
count_roms [] = 0
count_roms (handle ∷ handles) = (if has_rom handle then 1 else 0) + count_roms handles

-- all that is printed, device by device
abbrev pub all_lines : Format → ℕ → List (Status × PciIo) → List DeviceLine
all_lines fmt max_uintn [] = []
all_lines fmt max_uintn (handle ∷ handles) =
    (print_device_rom_info fmt max_uintn handle).1 ++ all_lines fmt max_uintn handles
