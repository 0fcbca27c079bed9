-- ===== src/NicDma/Bounds.antt =====
-- Applications/NicDmaScan/Decode.c: `DmaEnd` and `RamContains` in the numbers that do not wrap.
use uefi_tools_pkg.Base.{
  ℕ, ◌+◌, ◌*◌, ◌/◌, ◌%◌, ◌^◌, ◌≤◌, ◌<◌, ◌≡◌, ◌↔◌, true, some, ltb, ◌==◌, Bool-cases, Option-cases,
  inl, inr, arith,
}
use uefi_tools_pkg.NicDma.Decode.{max_uint64, dma_end, ram_contains}

-- the range is not empty, and its end is a UINT64
abbrev pub IsRange : ℕ → ℕ → Type 0
IsRange base len = (0 < len) × (base + len < 2 ^ 64)

pub dma_end-some :
    (base len end : ℕ)
    → len < 2 ^ 64
    → dma_end base len ≡ some end
    → IsRange base len × (end ≡ base + len)
unfolding dma_end
dma_end-some base len end small h = ground arith

pub dma_end-range : (base len : ℕ) → IsRange base len → dma_end base len ≡ some (base + len)
unfolding dma_end
dma_end-range base len (full, fits) = ground arith

-- the range is within the pages of the region, which do not wrap around
pub record IsInside (start pages base len : ℕ) : Type 0 where
  pub not_null : 0 < base
  pub full : 0 < len
  pub above_start : start ≤ base
  pub below_end : base + len ≤ start + pages * 4096
  pub fits : start + pages * 4096 < 2 ^ 64

few_pages : (pages : ℕ) → pages ≤ max_uint64 / 2 ^ 12 → pages * 2 ^ 12 % 2 ^ 64 ≡ pages * 4096
few_pages pages h = omega arith

ram_contains-IsInside :
    (start pages base len : ℕ)
    → len < 2 ^ 64
    → ram_contains start pages base len ≡ true
    → IsInside start pages base len
unfolding ram_contains
ram_contains-IsInside start pages base len small h = elim (Bool-cases (base == 0)) [
  | inl e ↦ ground (arith)
  | inr not_null ↦ elim (Bool-cases (ltb (max_uint64 / 2 ^ 12) pages)) [
    | inl e ↦ ground (arith)
    | inr few ↦ elim (Option-cases (dma_end start (pages * 2 ^ 12 % 2 ^ 64))) [
      | inl e ↦ ground (arith)
      | inr (region_end, e) ↦ elim (Option-cases (dma_end base len)) [
        | inl e' ↦ ground (arith)
        | inr (end, e') ↦
            let a = dma_end-some start (pages * 2 ^ 12 % 2 ^ 64) region_end (omega arith) e in
            let b = dma_end-some base len end small e' in
            let c = few_pages pages (ground (arith, few)) in
            record {
              not_null = ground (arith, not_null);
              full = b.0.0;
              above_start = ground (arith);
              below_end = ground (arith);
              fits = ground (arith);
            }
      ]
    ]
  ]
]

IsInside-ram_contains :
    (start pages base len : ℕ)
    → IsInside start pages base len
    → ram_contains start pages base len ≡ true
unfolding ram_contains
IsInside-ram_contains start pages base len i =
    let c : pages * 2 ^ 12 % 2 ^ 64 ≡ pages * 4096 = omega (arith, i.fits) in
    let region =
      dma_end-range start (pages * 4096)
        (omega (arith, i.full, i.above_start, i.below_end), i.fits) in
    let range = dma_end-range base len (i.full, omega (arith, i.below_end, i.fits)) in
    rw (c, region, range) (ground (arith, i.not_null, i.above_start, i.below_end, i.fits))

-- For a length that is a UINT64, `RamContains` holds exactly of a non-empty range away from address
-- zero that is within the pages of the region, where no end wraps around.
pub ram_contains_iff :
    (start pages base len : ℕ)
    → len < 2 ^ 64
    → (ram_contains start pages base len ≡ true) ↔ IsInside start pages base len
ram_contains_iff start pages base len small =
    (ram_contains-IsInside start pages base len small, IsInside-ram_contains start pages base len)
