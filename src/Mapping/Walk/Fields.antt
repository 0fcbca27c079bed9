-- ===== src/Mapping/Walk/Fields.antt =====
-- Applications/LoongArchMappingDump/LoongArchMappingDump.c: the fields of the registers that decide the
-- walk, by their bits.
use Prim.Native.Nat.{bit_and, bit_or}
use uefi_tools_pkg.Base.{
  ℕ, zero, suc, ◌+◌, ◌*◌, ◌/◌, ◌%◌, ◌^◌, ◌≤◌, ◌<◌, ◌≡◌, refl, ◌∙◌, Bool, true, not, List, [], ◌∷◌,
  ◌==◌, if◌then◌else◌, arith,
}
use uefi_tools_pkg.Base.Bits.{bit_and-63, bit_and-31, bit_and-power, bit_or-shifted}
use uefi_tools_pkg.Mapping.Walk.{
  ppn_mask, parse_max_level, parse_bit_width, Line, page_walk_cfg, unsupported, selected_root, walk,
  Registers, page_walk_config, is_supported, is_high, dump_page_walk,
}

-- The levels of the tables: 5 where bits 18 to 23 of PWCTL1 are not zero, else 4 where its bits 6 to 11
-- are not, else 3 where bits 25 to 30 of PWCTL0 are not.
abbrev pub levels : Registers → ℕ
levels csr =
    if not (csr.pwctl1 / 2 ^ 18 % 64 == 0)
    then 5
    else if not (csr.pwctl1 / 2 ^ 6 % 64 == 0)
    then 4
    else if not (csr.pwctl0 / 2 ^ 25 % 64 == 0)
    then 3
    else 0

-- bits 5 to 9 of PWCTL0: the digits of an index
abbrev pub index_width : Registers → ℕ
index_width csr = csr.pwctl0 / 2 ^ 5 % 32

-- bit 47 of the address selects PGDH
abbrev pub is_upper : ℕ → Bool
is_upper address = address / 2 ^ 47 % 2 == 1

abbrev pub root : Registers → ℕ → ℕ
root csr address = if is_upper address then csr.pgdh else csr.pgdl

module _ (csr : Registers) (narrow : csr.pwctl0 < 2 ^ 32) where
  config_is : page_walk_config csr ≡ csr.pwctl1 % 2 ^ 32 * 2 ^ 32 + csr.pwctl0
  config_is =
      let high : csr.pwctl1 * 2 ^ 32 % 2 ^ 64 ≡ csr.pwctl1 % 2 ^ 32 * 2 ^ 32 = omega arith in
      (λ i. bit_or (high i) csr.pwctl0) ∙ bit_or-shifted 32 (csr.pwctl1 % 2 ^ 32) csr.pwctl0 narrow

  parse_bit_width-fields : parse_bit_width (page_walk_config csr) ≡ index_width csr
  unfolding parse_bit_width
  parse_bit_width-fields =
      let sum = config_is in bit_and-31 (page_walk_config csr / 2 ^ 5) ∙ omega (arith, sum, narrow)

  parse_max_level-fields : parse_max_level (page_walk_config csr) ≡ levels csr
  unfolding parse_max_level
  parse_max_level-fields =
      let cfg = page_walk_config csr in
      let sum = config_is in
      let dir4 : bit_and (cfg / 2 ^ 32 % 2 ^ 32 / 2 ^ 18) 63 ≡ csr.pwctl1 / 2 ^ 18 % 64 =
        bit_and-63 (cfg / 2 ^ 32 % 2 ^ 32 / 2 ^ 18) ∙ omega (arith, sum, narrow) in
      let dir3 : bit_and (cfg / 2 ^ 32 % 2 ^ 32 / 2 ^ 6) 63 ≡ csr.pwctl1 / 2 ^ 6 % 64 =
        bit_and-63 (cfg / 2 ^ 32 % 2 ^ 32 / 2 ^ 6) ∙ omega (arith, sum, narrow) in
      let dir2 : bit_and (cfg % 2 ^ 32 / 2 ^ 25) 63 ≡ csr.pwctl0 / 2 ^ 25 % 64 =
        bit_and-63 (cfg % 2 ^ 32 / 2 ^ 25) ∙ omega (arith, sum, narrow) in
      λ i.
        if not (dir4 i == 0)
        then 5
        else if not (dir3 i == 0)
        then 4
        else if not (dir2 i == 0)
        then 3
        else 0

is_high-bit : (address : ℕ) → is_high address ≡ is_upper address
is_high-bit address =
    (λ i. not (bit_and-power 47 address i == 0)) ∙ same (address / 2 ^ 47 % 2) (omega arith)
  where
    same : (bit : ℕ) → bit < 2 → not (bit * 2 ^ 47 == 0) ≡ (bit == 1)
    same zero h = refl
    same (suc zero) h = refl
    same (suc (suc bit)) h = absurd (omega (arith, h))

-- the dump, by what the registers and the address give
abbrev dump_with : Registers → (ℕ → ℕ) → ℕ → ℕ → ℕ → Bool → List Line
dump_with csr memory address max_level width high =
    let selected = if high then csr.pgdh else csr.pgdl in
    page_walk_cfg (page_walk_config csr) max_level width
    ∷ (if not (is_supported max_level width)
        then unsupported ∷ []
        else selected_root selected high
          ∷ walk memory address max_level width max_level 0 (bit_and selected ppn_mask))

pub dump_page_walk-fields :
    (csr : Registers) (memory : ℕ → ℕ) (address : ℕ)
    → csr.pwctl0 < 2 ^ 32
    → 0 < levels csr
    → 0 < index_width csr
    → index_width csr ≤ 12
    → dump_page_walk csr memory address
      ≡ page_walk_cfg (page_walk_config csr) (levels csr) (index_width csr)
        ∷ selected_root (root csr address) (is_upper address)
        ∷ walk memory address
            (levels csr)
            (index_width csr)
            (levels csr)
            0
            (bit_and (root csr address) ppn_mask)
unfolding dump_page_walk
dump_page_walk-fields csr memory address narrow some_levels some_width small =
    let supported : is_supported (levels csr) (index_width csr) ≡ true =
      fits (levels csr) some_levels in
    (λ i.
      dump_with csr memory address (parse_max_level-fields csr narrow i)
        (parse_bit_width-fields csr narrow i) (is_high-bit address i))
    ∙ rw supported refl
  where
    fits : (n : ℕ) → 0 < n → is_supported n (index_width csr) ≡ true
    fits n h = ground (arith, h, some_width, small)
