-- ===== src/OptionRom/Format.antt =====
-- Applications/PciOptionRomInfo/PciOptionRomInfo.c: the data of the walk. The three packed headers come from MdePkg, so
-- their sizes and decoders are parameters; of their fields the program relies only on the width.
use uefi_tools_pkg.Base.{
  ℕ, ◌+◌, ◌<◌, ◌^◌, Option, some, none, List, length, take, drop, leb, if◌then◌else◌,
}

abbrev pub Bytes : Type 0
Bytes = List ℕ

-- PCI_EXPANSION_ROM_HEADER
pub record RomHeader : Type 0 where
  pub signature : ℕ
  pub pcir_offset : ℕ

-- PCI_DATA_STRUCTURE
pub record Pcir : Type 0 where
  pub signature : ℕ
  pub vendor_id : ℕ
  pub device_id : ℕ
  pub struct_length : ℕ
  pub revision : ℕ
  pub class_code : ℕ
  pub image_length : ℕ
  pub code_revision : ℕ
  pub code_type : ℕ
  pub indicator : ℕ

-- EFI_PCI_EXPANSION_ROM_HEADER
pub record EfiHeader : Type 0 where
  pub initialization_size : ℕ
  pub efi_signature : ℕ
  pub efi_subsystem : ℕ
  pub efi_machine_type : ℕ
  pub compression_type : ℕ
  pub efi_image_header_offset : ℕ

pub record Format : Type 0 where
  pub header_size : ℕ
  pub pcir_size : ℕ
  pub efi_size : ℕ
  pub header_of : Bytes → RomHeader
  pub pcir_of : Bytes → Pcir
  pub efi_of : Bytes → EfiHeader
  pub rom_signature : ℕ
  pub pcir_signature : ℕ
  pub efi_signature : ℕ
  pub pcat_type : ℕ

-- `PcirOffset` and `ImageLength` are UINT16
pub record IsPacked (fmt : Format) : Type 0 where
  pub pcir_offset-lt : (bytes : Bytes) → (fmt.header_of bytes).pcir_offset < 2 ^ 16
  pub image_length-lt : (bytes : Bytes) → (fmt.pcir_of bytes).image_length < 2 ^ 16

-- what `CodeTypeName` tells apart
pub data CodeType : Type 0 where
  pc_at efi unknown : CodeType

-- one constructor for each `Print` of the walk; images and offsets are counted in UINTN
pub data Line : Type 0 where
  rom_too_large : ℕ → Line
  truncated_header : ℕ → ℕ → Line
  invalid_signature : ℕ → ℕ → ℕ → Line
  pcir_outside : ℕ → ℕ → ℕ → Line
  truncated_pcir : ℕ → ℕ → ℕ → Line
  invalid_pcir : ℕ → ℕ → ℕ → Line
  image : ℕ → ℕ → ℕ → CodeType → Pcir → Line
  invalid_length : Line
  efi_truncated : Line
  efi_invalid_signature : ℕ → Line
  efi_offset_outside : ℕ → Line
  efi_arch : EfiHeader → ℕ → Line

-- `CopyMem` from the ROM: `none` is a read outside of it
abbrev pub copy : Bytes → ℕ → ℕ → Option Bytes
copy rom offset size =
    if leb (offset + size) (length rom) then some (take size (drop offset rom)) else none
