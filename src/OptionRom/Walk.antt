-- ===== src/OptionRom/Walk.antt =====
-- Applications/PciOptionRomInfo/PciOptionRomInfo.c: `RangeInBuffer`, `CodeTypeName`,
-- `PrintEfiRomHeader` and `PrintOptionRomImages`. UINTN arithmetic wraps at `max_uintn + 1`; where
-- the source subtracts, a test before it keeps the difference from going below zero.
use Prim.Native.Nat.{bit_and}
use uefi_tools_pkg.Base.{
  ℕ, zero, suc, ◌+◌, ◌-◌, ◌*◌, ◌%◌, ◌^◌, Bool, true, false, ◌||◌, not, Option, none, some, List, [],
  ◌∷◌, ◌++◌, ltb, ◌==◌, if◌then◌else◌,
}
use uefi_tools_pkg.OptionRom.Format.{
  Bytes, RomHeader, Pcir, EfiHeader, Format, CodeType, pc_at, efi, unknown, Line, rom_too_large,
  truncated_header, invalid_signature, pcir_outside, truncated_pcir, invalid_pcir, image,
  invalid_length, efi_truncated, efi_invalid_signature, efi_offset_outside, efi_arch, copy,
}

unfoldable pub range_in_buffer : ℕ → ℕ → ℕ → Bool
range_in_buffer buffer_size offset len =
    if ltb buffer_size offset then false else if ltb (buffer_size - offset) len then false else true

-- the images, after one of them
pub data Step : Type 0 where
  fault : Step
  stop : List Line → Step
  advance : List Line → ℕ → Step

-- `out_of_fuel` stands for a loop that did not end
pub data Walk : Type 0 where
  fault out_of_fuel : Walk
  printed : List Line → Walk

abbrev pub prepend : List Line → Walk → Walk
prepend ls Walk.fault = Walk.fault
prepend ls Walk.out_of_fuel = Walk.out_of_fuel
prepend ls (Walk.printed more) = Walk.printed (ls ++ more)

abbrev pub is_last : Pcir → Bool
is_last p = not (bit_and p.indicator 0x80 == 0)

module _ (fmt : Format) where
  unfoldable pub code_type_name : ℕ → CodeType
  code_type_name t = if t == fmt.pcat_type then pc_at else if t == 3 then efi else unknown

  -- the prints of `PrintEfiRomHeader` on a header that was copied
  unfoldable pub efi_header_lines : ℕ → EfiHeader → List Line
  efi_header_lines image_size h =
      if not (h.efi_signature == fmt.efi_signature)
      then efi_invalid_signature h.efi_signature ∷ []
      else let arch = efi_arch h (h.initialization_size * 512 % 2 ^ 32) ∷ [] in
        if ltb image_size h.efi_image_header_offset
        then efi_offset_outside h.efi_image_header_offset ∷ arch
        else arch

  unfoldable pub print_efi_rom_header : Bytes → ℕ → ℕ → ℕ → Pcir → Option (List Line)
  print_efi_rom_header rom rom_size image_offset image_size p =
      if not (p.code_type == 3)
      then some []
      else if not (range_in_buffer rom_size image_offset fmt.efi_size)
          || ltb image_size fmt.efi_size
      then some (efi_truncated ∷ [])
      else elim (copy rom image_offset fmt.efi_size) [
        | none ↦ none
        | some bytes ↦ some (efi_header_lines image_size (fmt.efi_of bytes))
      ]

module _ (fmt : Format) (max_uintn : ℕ) (rom : Bytes) (rom_size : ℕ) where
  -- the rest of a round, on the lines that were printed for the image
  unfoldable pub finish_image : ℕ → ℕ → Pcir → List Line → Step
  finish_image offset image_size p shown =
      if image_size == 0 || ltb (rom_size - offset) image_size
      then stop (shown ++ (invalid_length ∷ []))
      else elim (print_efi_rom_header fmt rom rom_size offset image_size p) [
        | none ↦ Step.fault
        | some efi_lines ↦
            if is_last p
            then stop (shown ++ efi_lines)
            else advance (shown ++ efi_lines) ((offset + image_size) % suc max_uintn)
      ]

  -- the round on a PCI data structure that was copied
  unfoldable pub check_pcir : ℕ → ℕ → Pcir → Step
  check_pcir offset index p =
      if not (p.signature == fmt.pcir_signature)
      then stop (invalid_pcir index offset p.signature ∷ [])
      else let image_size = p.image_length * 512 % suc max_uintn in
        finish_image offset image_size p
          (image index offset (image_size % 2 ^ 32) (code_type_name fmt p.code_type) p ∷ [])

  -- the round on a ROM header that was copied
  unfoldable pub check_header : ℕ → ℕ → RomHeader → Step
  check_header offset index h =
      if not (h.signature == fmt.rom_signature)
      then stop (invalid_signature index offset h.signature ∷ [])
      else if ltb (rom_size - offset) h.pcir_offset
      then stop (pcir_outside index offset h.pcir_offset ∷ [])
      else let pcir_offset = (offset + h.pcir_offset) % suc max_uintn in
        if not (range_in_buffer rom_size pcir_offset fmt.pcir_size)
        then stop (truncated_pcir index offset pcir_offset ∷ [])
        else elim (copy rom pcir_offset fmt.pcir_size) [
          | none ↦ Step.fault
          | some bytes ↦ check_pcir offset index (fmt.pcir_of bytes)
        ]

  -- one round of the loop, at an offset below the size
  unfoldable pub step : ℕ → ℕ → Step
  step offset index =
      if not (range_in_buffer rom_size offset fmt.header_size)
      then stop (truncated_header index offset ∷ [])
      else elim (copy rom offset fmt.header_size) [
        | none ↦ Step.fault
        | some bytes ↦ check_header offset index (fmt.header_of bytes)
      ]

  unfoldable pub walk : ℕ → ℕ → ℕ → Walk
  walk zero offset index = Walk.out_of_fuel
  walk (suc fuel) offset index =
      if not (ltb offset rom_size) then Walk.printed [] else elim (step offset index) [
        | Step.fault ↦ Walk.fault
        | stop ls ↦ Walk.printed ls
        | advance ls next ↦ prepend ls (walk fuel next ((index + 1) % suc max_uintn))
      ]

-- Each round that goes on moves the offset, so one round more than there are bytes is enough.
unfoldable pub print_option_rom_images : Format → ℕ → Option Bytes → ℕ → Walk
print_option_rom_images fmt max_uintn none rom_size = Walk.printed []
print_option_rom_images fmt max_uintn (some rom) rom_size =
    if rom_size == 0
    then Walk.printed []
    else if ltb max_uintn rom_size
    then Walk.printed (rom_too_large rom_size ∷ [])
    else walk fmt max_uintn rom rom_size (suc rom_size) 0 0
