-- ===== src/NicDma/Ram.antt =====
-- Applications/NicDmaScan/NicDmaScan.c: `ReadableRam` on the memory map, the descriptors of which `GetMap` has
-- checked to fill it.
use uefi_tools_pkg.Base.{
  ℕ, ◌+◌, ◌-◌, ◌≤◌, ◌<◌, ◌^◌, ◌≡◌, Bool, true, false, ◌&&◌, ◌||◌, none, some, List, [], ◌∷◌, ltb,
  if◌then◌else◌, Bool-cases, Option-cases, inl, inr, arith,
}
use uefi_tools_pkg.NicDma.Decode.{dma_end, safe_ram_type, ram_contains}
use uefi_tools_pkg.NicDma.Bounds.{IsInside, dma_end-some, ram_contains_iff}

-- EFI_MEMORY_DESCRIPTOR of UefiSpec.h
pub record MemoryDescriptor : Type 0 where
  pub kind : ℕ
  pub physical_start : ℕ
  pub number_of_pages : ℕ
  pub attribute : ℕ

-- the loop
unfoldable pub any_region : List MemoryDescriptor → ℕ → ℕ → Bool
any_region [] base len = false
any_region (d ∷ rest) base len =
    if safe_ram_type d.kind d.attribute && ram_contains d.physical_start d.number_of_pages base len
    then true
    else any_region rest base len

unfoldable pub readable_ram : ℕ → List MemoryDescriptor → ℕ → ℕ → Bool
readable_ram max_uintn map base len = elim (dma_end base len) [
  | none ↦ false
  | some end ↦
      if ltb max_uintn base || ltb max_uintn (end - 1) then false else any_region map base len
]

-- The range is within one descriptor of the map, of a kind that is safe to read.
pub data InSafeRam : List MemoryDescriptor → ℕ → ℕ → Type 0 where
  here :
      {d : MemoryDescriptor} {rest : List MemoryDescriptor} {base len : ℕ}
      → safe_ram_type d.kind d.attribute ≡ true
      → IsInside d.physical_start d.number_of_pages base len
      → InSafeRam (d ∷ rest) base len
  there :
      {d : MemoryDescriptor} {rest : List MemoryDescriptor} {base len : ℕ}
      → InSafeRam rest base len
      → InSafeRam (d ∷ rest) base len

-- a part of a range that is in safe RAM
pub InSafeRam-part :
    (map : List MemoryDescriptor) (base len b l : ℕ)
    → InSafeRam map base len
    → base ≤ b
    → b + l ≤ base + len
    → 0 < l
    → InSafeRam map b l
InSafeRam-part [] base len b l r low high full = elim r [ ]
InSafeRam-part (d ∷ rest) base len b l (here safe i) low high full = here safe (record {
  not_null = omega (arith, i.not_null);
  full = full;
  above_start = omega (arith, i.above_start);
  below_end = omega (arith, i.below_end);
  fits = i.fits;
})
InSafeRam-part (d ∷ rest) base len b l (there r) low high full =
    there (InSafeRam-part rest base len b l r low high full)

any_region-InSafeRam :
    (map : List MemoryDescriptor) (base len : ℕ)
    → len < 2 ^ 64
    → any_region map base len ≡ true
    → InSafeRam map base len
unfolding any_region
any_region-InSafeRam [] base len small h = cc
any_region-InSafeRam (d ∷ rest) base len small h =
    elim (Bool-cases (safe_ram_type d.kind d.attribute)) [
      | inl safe ↦ elim (Bool-cases (ram_contains d.physical_start d.number_of_pages base len)) [
        | inl inside ↦
            here safe
              ((ram_contains_iff d.physical_start d.number_of_pages base len small).0 inside)
        | inr outside ↦
            there (any_region-InSafeRam rest base len small (ground (arith, h, safe, outside)))
      ]
      | inr unsafe ↦ there (any_region-InSafeRam rest base len small (ground (arith, h, unsafe)))
    ]

-- What `ReadableRam` accepts is in safe RAM, and a pointer reaches all of it.
pub readable_ram-InSafeRam :
    (max_uintn : ℕ) (map : List MemoryDescriptor) (base len : ℕ)
    → len < 2 ^ 64
    → readable_ram max_uintn map base len ≡ true
    → InSafeRam map base len × (base + len ≤ max_uintn + 1)
unfolding readable_ram
readable_ram-InSafeRam max_uintn map base len small h = elim (Option-cases (dma_end base len)) [
  | inl e ↦ ground (arith, h, e)
  | inr (end, e) ↦
      let range = dma_end-some base len end small e in
      (any_region-InSafeRam map base len small (ground (arith, h, e)), ground (arith, h, e, range))
]
