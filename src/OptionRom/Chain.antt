-- ===== src/OptionRom/Chain.antt =====
-- Applications/PciOptionRomInfo/PciOptionRomInfo.c: the whole walk.
use uefi_tools_pkg.Base.{
  ℕ, zero, suc, ◌+◌, ◌%◌, ◌^◌, ◌≤◌, ◌<◌, ◌≡◌, refl, true, false, some, List, ◌++◌, length, ltb,
  arith, Bool-cases, inl, inr, mod-eq_small, ltb→lt, ◌==◌,
}
use uefi_tools_pkg.OptionRom.Format.{Bytes, Format, IsPacked, Line}
use uefi_tools_pkg.OptionRom.Walk.{
  Step, stop, advance, Walk, printed, prepend, step, walk, print_option_rom_images,
}
use uefi_tools_pkg.OptionRom.Step.{Follows, IsSafeStep, step-IsSafeStep}

-- The walk ended without a read outside of the ROM, and its lines show a chain of images.
abbrev pub IsGoodWalk : ℕ → ℕ → ℕ → Walk → Type 0
IsGoodWalk size offset index Walk.fault = ⊥
IsGoodWalk size offset index Walk.out_of_fuel = ⊥
IsGoodWalk size offset index (printed ls) = Follows size offset index ls

prepend-IsGoodWalk :
    (size offset next index : ℕ) (ls : List Line) (w : Walk)
    → ((more : List Line)
        → Follows size next (index + 1) more
        → Follows size offset index (ls ++ more))
    → IsGoodWalk size next (index + 1) w
    → IsGoodWalk size offset index (prepend ls w)
prepend-IsGoodWalk size offset next index ls Walk.fault follow good = good
prepend-IsGoodWalk size offset next index ls Walk.out_of_fuel follow good = good
prepend-IsGoodWalk size offset next index ls (printed more) follow good = follow more good

module _ (fmt : Format) (max_uintn : ℕ) (rom : Bytes) where
  -- one round, and the walk behind it
  round-IsGoodWalk :
      (fuel offset index : ℕ) (s : Step)
      → step fmt max_uintn rom (length rom) offset index ≡ s
      → offset < length rom
      → (index + 1) % suc max_uintn ≡ index + 1
      → IsSafeStep (length rom) offset index s
      → ((next : ℕ)
          → offset + 512 ≤ next
          → next ≤ length rom
          → IsGoodWalk
              (length rom)
              next
              (index + 1)
              (walk fmt max_uintn rom (length rom) fuel next (index + 1)))
      → IsGoodWalk
          (length rom)
          offset
          index
          (walk fmt max_uintn rom (length rom) (suc fuel) offset index)
  unfolding walk
  round-IsGoodWalk fuel offset index Step.fault e below count safe rest = absurd safe
  round-IsGoodWalk fuel offset index (stop ls) e below count safe rest =
      let go : ltb offset (length rom) ≡ true = ground arith in rw (go, e) safe
  round-IsGoodWalk fuel offset index (advance ls next) e below count (far, within, follow) rest =
      let go : ltb offset (length rom) ≡ true = ground arith in
      rw (go, e, count)
        (prepend-IsGoodWalk (length rom) offset next index ls _ follow (rest next far within))

  module _ (fits : length rom ≤ max_uintn) (wide : 2 ^ 32 ≤ suc max_uintn)
      (packed : IsPacked fmt) where
    walk-IsGoodWalk :
        (fuel offset index : ℕ)
        → length rom < fuel + offset
        → offset ≤ length rom
        → index ≤ offset
        → IsGoodWalk
            (length rom)
            offset
            index
            (walk fmt max_uintn rom (length rom) fuel offset index)
    unfolding walk
    walk-IsGoodWalk zero offset index enough inside few = absurd (omega arith)
    walk-IsGoodWalk (suc fuel) offset index enough inside few =
        elim (Bool-cases (ltb offset (length rom))) [
          | inr ended ↦ rw ended tt
          | inl go ↦
              let below = ltb→lt offset (length rom) go in
              round-IsGoodWalk fuel offset index (step fmt max_uintn rom (length rom) offset index)
                refl below (mod-eq_small (index + 1) max_uintn (omega arith))
                (step-IsSafeStep fmt max_uintn rom fits wide packed offset index below)
                λ next far within.
                  walk-IsGoodWalk fuel next (index + 1) (omega arith) within (omega arith)
        ]

    -- On a ROM of the size that is given, which fits in a UINTN of 32 bits at least, and with
    -- header fields of their packed widths: whatever its bytes, the walk ends, no header is copied
    -- from outside of the ROM, and the images that it shows are numbered from 0, begin at offset 0
    -- and directly behind one another, and begin inside the ROM. Each is longer than nothing and ends
    -- inside the ROM, unless its length is reported as invalid and the walk ends there.
    pub print_option_rom_images-IsGoodWalk :
        IsGoodWalk (length rom) 0 0 (print_option_rom_images fmt max_uintn (some rom) (length rom))
    unfolding print_option_rom_images
    print_option_rom_images-IsGoodWalk = elim (Bool-cases (length rom == 0)) [
      | inl empty ↦ rw empty tt
      | inr some_bytes ↦
          let small : ltb max_uintn (length rom) ≡ false = ground arith in
          rw (some_bytes, small)
            (walk-IsGoodWalk (suc (length rom)) 0 0 (omega arith) (omega arith) (omega arith))
    ]
