-- ===== src/OptionRom/Tests.antt =====
-- Runs of Applications/PciOptionRomInfo/PciOptionRomInfo.c on small ROMs in the layout of the PCI firmware
-- specification, and each theorem at a concrete input.
use uefi_tools_pkg.Base.{
  ℕ, zero, suc, ◌+◌, ◌*◌, ◌%◌, ◌^◌, ◌-◌, ◌≤◌, ◌≡◌, refl, ◌↔◌, true, none, some, List, [], ◌∷◌,
  length, get_or, arith,
}
use uefi_tools_pkg.Efi.{Status, success, error, not_found}
use uefi_tools_pkg.OptionRom.Format.{Bytes, Pcir, Format, IsPacked, pc_at, image, truncated_header}
use uefi_tools_pkg.OptionRom.Walk.{
  Walk, printed, range_in_buffer, code_type_name, efi_header_lines, print_efi_rom_header,
  finish_image, check_pcir, check_header, step, walk, print_option_rom_images,
}
use uefi_tools_pkg.OptionRom.Step.{range_in_buffer_iff}
use uefi_tools_pkg.OptionRom.Chain.{IsGoodWalk, print_option_rom_images-IsGoodWalk}
use uefi_tools_pkg.OptionRom.Devices.{PciIo, uefi_main, all_lines}
use uefi_tools_pkg.OptionRom.Count.{uefi_main-counts}

abbrev u8 : Bytes → ℕ → ℕ
u8 bs i = get_or bs i 0 % 256

abbrev u16 : Bytes → ℕ → ℕ
u16 bs i = u8 bs i + 256 * u8 bs (i + 1)

abbrev u32 : Bytes → ℕ → ℕ
u32 bs i = u16 bs i + 65536 * u16 bs (i + 2)

abbrev pci_format : Format
pci_format = record {
  header_size = 26;
  pcir_size = 24;
  efi_size = 26;
  header_of = λ bs. record { signature = u16 bs 0; pcir_offset = u16 bs 24 };
  pcir_of = λ bs. record {
    signature = u32 bs 0;
    vendor_id = u16 bs 4;
    device_id = u16 bs 6;
    struct_length = u16 bs 10;
    revision = u8 bs 12;
    class_code = u8 bs 13 + 65536 * u8 bs 15 + 256 * u8 bs 14;
    image_length = u16 bs 16;
    code_revision = u16 bs 18;
    code_type = u8 bs 20;
    indicator = u8 bs 21;
  };
  efi_of = λ bs. record {
    initialization_size = u16 bs 2;
    efi_signature = u32 bs 4;
    efi_subsystem = u16 bs 8;
    efi_machine_type = u16 bs 10;
    compression_type = u16 bs 12;
    efi_image_header_offset = u16 bs 22;
  };
  rom_signature = 0xaa55;
  pcir_signature = 0x52494350;
  efi_signature = 0x0ef1;
  pcat_type = 0;
}

pci_format-IsPacked : IsPacked pci_format
pci_format-IsPacked = record {
  pcir_offset-lt = λ bytes. omega arith;
  image_length-lt = λ bytes. omega arith;
}

abbrev zeros : ℕ → Bytes → Bytes
zeros zero rest = rest
zeros (suc n) rest = 0 ∷ zeros n rest

-- an image of one block, with the given indicator
abbrev block : ℕ → Bytes → Bytes
block indicator rest =
    0x55
    ∷ 0xaa
    ∷ zeros 22 (
        28
        ∷ 0
        ∷ zeros 2 (
            b'P'
            ∷ b'C'
            ∷ b'I'
            ∷ b'R'
            ∷ zeros 12 (1 ∷ 0 ∷ 0 ∷ 0 ∷ 0 ∷ indicator ∷ zeros (2 + 460) rest)))

abbrev two_images : Bytes
two_images = block 0 (block 0x80 [])

-- the image says that it is longer than the ROM
abbrev cut_image : Bytes
cut_image = block 0 (0x55 ∷ [])

abbrev max_uintn : ℕ
max_uintn = 2 ^ 64 - 1

images_of : Bytes → Walk
unfolding print_option_rom_images walk step check_header check_pcir finish_image
    print_efi_rom_header efi_header_lines code_type_name range_in_buffer
images_of rom = print_option_rom_images pci_format max_uintn (some rom) (length rom)

abbrev block_pcir : ℕ → Pcir
block_pcir i = record {
  signature = 0x52494350;
  vendor_id = 0;
  device_id = 0;
  struct_length = 0;
  revision = 0;
  class_code = 0;
  image_length = 1;
  code_revision = 0;
  code_type = 0;
  indicator = i;
}

images_of-two_images :
    images_of two_images
    ≡ printed (image 0 0 512 pc_at (block_pcir 0) ∷ image 1 512 512 pc_at (block_pcir 0x80) ∷ [])
unfolding images_of
images_of-two_images = refl

images_of-cut_image :
    images_of cut_image ≡ printed (image 0 0 512 pc_at (block_pcir 0) ∷ truncated_header 1 512 ∷ [])
unfolding images_of
images_of-cut_image = refl

range_in_buffer_iff_example :
    (range_in_buffer 512 500 (2 ^ 64 - 100) ≡ true) ↔ (500 + (2 ^ 64 - 100) ≤ 512)
range_in_buffer_iff_example = range_in_buffer_iff 512 500 (2 ^ 64 - 100)

print_option_rom_images-IsGoodWalk_example :
    IsGoodWalk
      (length two_images)
      0
      0
      (print_option_rom_images pci_format max_uintn (some two_images) (length two_images))
print_option_rom_images-IsGoodWalk_example =
    print_option_rom_images-IsGoodWalk pci_format max_uintn two_images (omega arith) (omega arith)
      pci_format-IsPacked

abbrev rom_device : Status × PciIo
rom_device = (
  success,
  record {
    rom_image = some two_images;
    rom_size = 1024;
    config = (success, []);
    location = (success, record { segment = 0; bus = 2; device = 0; function = 1 });
  },
)

abbrev plain_device : Status × PciIo
plain_device = (rom_device.0, record (rom_device.1) { rom_image = none; rom_size = 0 })

abbrev handles : List (Status × PciIo)
handles = plain_device ∷ rom_device ∷ (error not_found, rom_device.1) ∷ []

uefi_main-counts_example :
    uefi_main pci_format max_uintn (success, handles)
    ≡ (success, some (3, 1), all_lines pci_format max_uintn handles)
uefi_main-counts_example =
    uefi_main-counts pci_format max_uintn success handles refl (omega arith) (omega arith)
