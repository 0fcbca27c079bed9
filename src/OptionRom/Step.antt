-- ===== src/OptionRom/Step.antt =====
-- Applications/PciOptionRomInfo/PciOptionRomInfo.c: bounds of one round, and the end of the walk.
use mathlib.Core.List.{append-nil}
use uefi_tools_pkg.Base.{
  ℕ, suc, ◌+◌, ◌-◌, ◌*◌, ◌%◌, ◌^◌, ◌≤◌, ◌<◌, ◌⊎◌, ◌≡◌, refl, ◌↔◌, true, false, not, ◌||◌, Option,
  none, some, List, [], ◌∷◌, ◌++◌, length, take, drop, ltb, ◌==◌, arith, ◌≢◌, subst, mod-eq_small,
  Bool-cases, Option-cases, inl, inr,
}
use uefi_tools_pkg.OptionRom.Format.{
  Bytes, RomHeader, Pcir, EfiHeader, CodeType, image, invalid_length, Format, IsPacked, Line, copy,
}
use uefi_tools_pkg.OptionRom.Walk.{
  range_in_buffer, Step, stop, advance, is_last, efi_header_lines, print_efi_rom_header,
  finish_image, check_pcir, check_header, step,
}

-- `RangeInBuffer` holds exactly where the range ends within the buffer, whatever the numbers: the
-- subtraction cannot wrap.
pub range_in_buffer_iff :
    (size offset len : ℕ) → (range_in_buffer size offset len ≡ true) ↔ (offset + len ≤ size)
unfolding range_in_buffer
range_in_buffer_iff size offset len = ground arith

copy_in_range :
    (rom : Bytes) (offset len : ℕ)
    → range_in_buffer (length rom) offset len ≡ true
    → copy rom offset len ≡ some (take len (drop offset rom))
copy_in_range rom offset len h = ground (arith, range_in_buffer_iff (length rom) offset len)

-- The images that the lines show: numbered from `index`, the first at `offset`, each within the ROM
-- at its start and directly behind the one before it.
abbrev pub Follows : ℕ → ℕ → ℕ → List Line → Type 0
Follows size offset index [] = Unit {0}
Follows size offset index (image i at shown_size name p ∷ ls) =
    (i ≡ index)
    × (at ≡ offset)
    × (at < size)
    × (shown_size ≡ p.image_length * 512)
    × (((0 < p.image_length) × (offset + p.image_length * 512 ≤ size)) ⊎ (ls ≡ invalid_length ∷ []))
    × Follows size (offset + p.image_length * 512) (index + 1) ls
Follows size offset index (line ∷ ls) = Follows size offset index ls

-- a round reads nothing outside of the ROM; if it goes on, then by a block at least, and inside
abbrev pub IsSafeStep : ℕ → ℕ → ℕ → Step → Type 0
IsSafeStep size offset index Step.fault = ⊥
IsSafeStep size offset index (stop ls) = Follows size offset index ls
IsSafeStep size offset index (advance ls next) =
    (offset + 512 ≤ next)
    × (next ≤ size)
    × ((more : List Line)
        → Follows size next (index + 1) more
        → Follows size offset index (ls ++ more))

-- lines that may stand before others and show no image
abbrev Skips : ℕ → ℕ → ℕ → Option (List Line) → Type 0
Skips size offset index none = Unit {0}
Skips size offset index (some ls) =
    (more : List Line) → Follows size offset index more → Follows size offset index (ls ++ more)

module _ (fmt : Format) (max_uintn : ℕ) (rom : Bytes) where
  efi_header-ne-none :
      (offset image_size : ℕ) (p : Pcir)
      → print_efi_rom_header fmt rom (length rom) offset image_size p ≢ none
  unfolding print_efi_rom_header
  efi_header-ne-none offset image_size p = ground (arith, copy_in_range rom offset fmt.efi_size)

  efi_header_lines-Follows :
      (image_size : ℕ) (h : EfiHeader) (size offset index : ℕ) (more : List Line)
      → Follows size offset index more
      → Follows size offset index (efi_header_lines fmt image_size h ++ more)
  unfolding efi_header_lines
  efi_header_lines-Follows image_size h size offset index more f =
      elim (Bool-cases (h.efi_signature == fmt.efi_signature)) [
        | inr other ↦ rw other f
        | inl same ↦ elim (Bool-cases (ltb image_size h.efi_image_header_offset)) [
          | inl out ↦ rw (same, out) f
          | inr within ↦ rw (same, within) f
        ]
      ]

  -- the lines on an EFI header show no image
  efi_header-Skips :
      (at image_size : ℕ) (p : Pcir) (size offset index : ℕ)
      → Skips size offset index (print_efi_rom_header fmt rom (length rom) at image_size p)
  unfolding print_efi_rom_header
  efi_header-Skips at image_size p size offset index =
      let cut = not (range_in_buffer (length rom) at fmt.efi_size) || ltb image_size fmt.efi_size in
      elim (Bool-cases (p.code_type == 3)) [
        | inr other ↦ rw other (λ more f. f)
        | inl efi ↦ elim (Bool-cases cut) [
          | inl short ↦ rw (efi, short) (λ more f. f)
          | inr long ↦ elim (Option-cases (copy rom at fmt.efi_size)) [
            | inl gone ↦ rw (efi, long, gone) tt
            | inr (bytes, read) ↦
                rw (efi, long, read)
                  (efi_header_lines-Follows image_size (fmt.efi_of bytes) size offset index)
          ]
        ]
      ]

  module _ (fits : length rom ≤ max_uintn) where
    next_in_range :
        (offset image_size : ℕ)
        → offset < length rom
        → (image_size == 0 || ltb (length rom - offset) image_size) ≡ false
        → ((offset + image_size) % suc max_uintn ≡ offset + image_size)
          × (offset + image_size ≤ length rom)
          × (1 ≤ image_size)
    next_in_range offset image_size h c =
        ground (arith, mod-eq_small (offset + image_size) max_uintn)

    finish_image-IsSafeStep :
        (offset index image_size : ℕ) (name : CodeType) (p : Pcir)
        → offset < length rom
        → image_size ≡ p.image_length * 512
        → IsSafeStep (length rom) offset index (
            finish_image fmt max_uintn rom
              (length rom)
              offset
              image_size
              p
              (image index offset image_size name p ∷ []))
    unfolding finish_image
    finish_image-IsSafeStep offset index image_size name p h size_is =
        elim (Bool-cases (image_size == 0 || ltb (length rom - offset) image_size)) [
          | inl bad ↦ rw bad (refl, refl, h, size_is, inr refl, tt)
          | inr good ↦
              let (next_is, within, some_bytes) = next_in_range offset image_size h good in
              let fitting : (0 < p.image_length) × (offset + p.image_length * 512 ≤ length rom) =
                (omega (arith, some_bytes, size_is), omega (arith, within, size_is)) in
              elim (Option-cases (print_efi_rom_header fmt rom (length rom) offset image_size p)) [
                | inl e ↦ absurd (efi_header-ne-none offset image_size p e)
                | inr (efi_lines, e) ↦
                    let skip : (o i : ℕ) → Skips (length rom) o i (some efi_lines) = λ o i.
                      subst (Skips (length rom) o i) e
                        (efi_header-Skips offset image_size p (length rom) o i) in
                    elim (Bool-cases (is_last p)) [
                      | inl last ↦
                          rw (good, e, last)
                            (
                              refl,
                              refl,
                              h,
                              size_is,
                              inl fitting,
                              rw append-nil at
                                  (skip (offset + p.image_length * 512) (index + 1) [] tt),
                            )
                      | inr more_images ↦
                          rw (good, e, more_images, next_is)
                            (
                              omega (arith, some_bytes, size_is),
                              within,
                              λ more f. (
                                refl,
                                refl,
                                h,
                                size_is,
                                inl fitting,
                                skip (offset + p.image_length * 512) (index + 1) more
                                    (rw size_is at f),
                              ),
                            )
                    ]
              ]
        ]

    module _ (wide : 2 ^ 32 ≤ suc max_uintn) (packed : IsPacked fmt) where
      check_pcir-IsSafeStep :
          (offset index : ℕ) (bytes : Bytes)
          → offset < length rom
          → IsSafeStep
              (length rom)
              offset
              index
              (check_pcir fmt max_uintn rom (length rom) offset index (fmt.pcir_of bytes))
      unfolding check_pcir
      check_pcir-IsSafeStep offset index bytes h =
          let p = fmt.pcir_of bytes in
          let short = packed.image_length-lt bytes in
          let whole = mod-eq_small (p.image_length * 512) max_uintn (omega (arith, short)) in
          let shown : p.image_length * 512 % 2 ^ 32 ≡ p.image_length * 512 = omega (arith, short) in
          elim (Bool-cases (p.signature == fmt.pcir_signature)) [
            | inl same ↦
                rw (same, whole, shown)
                  (finish_image-IsSafeStep offset index (p.image_length * 512) _ p h refl)
            | inr other ↦ rw other tt
          ]

      check_header-IsSafeStep :
          (offset index : ℕ) (h : RomHeader)
          → offset < length rom
          → IsSafeStep
              (length rom)
              offset
              index
              (check_header fmt max_uintn rom (length rom) offset index h)
      unfolding check_header
      check_header-IsSafeStep offset index h below =
          let at = (offset + h.pcir_offset) % suc max_uintn in
          elim (Bool-cases (h.signature == fmt.rom_signature)) [
            | inr other ↦ rw other tt
            | inl same ↦ elim (Bool-cases (ltb (length rom - offset) h.pcir_offset)) [
              | inl out ↦ rw (same, out) tt
              | inr inside ↦ elim (Bool-cases (range_in_buffer (length rom) at fmt.pcir_size)) [
                | inr cut ↦ rw (same, inside, cut) tt
                | inl whole ↦
                    rw (same, inside, whole, copy_in_range rom at fmt.pcir_size whole)
                      (check_pcir-IsSafeStep offset index (take fmt.pcir_size (drop at rom)) below)
              ]
            ]
          ]

      pub step-IsSafeStep :
          (offset index : ℕ)
          → offset < length rom
          → IsSafeStep (length rom) offset index (step fmt max_uintn rom (length rom) offset index)
      unfolding step
      step-IsSafeStep offset index below =
          elim (Bool-cases (range_in_buffer (length rom) offset fmt.header_size)) [
            | inr cut ↦ rw cut tt
            | inl whole ↦
                rw (whole, copy_in_range rom offset fmt.header_size whole)
                  (check_header-IsSafeStep offset index
                    (fmt.header_of (take fmt.header_size (drop offset rom))) below)
          ]
