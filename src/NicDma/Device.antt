-- ===== src/NicDma/Device.antt =====
-- Applications/NicDmaScan/NicDmaScan.c: `PowerD0` and `FindMmio`, without their prints. The PCI I/O protocol is a
-- parameter.
use Prim.Native.Nat.{bit_and}
use uefi_tools_pkg.Base.{
  ℕ, zero, suc, ◌+◌, Bool, true, false, ◌&&◌, ◌||◌, not, Option, none, some, List, [], ◌∷◌, ltb,
  ◌==◌, if◌then◌else◌,
}
use uefi_tools_pkg.NicDma.Decode.{Bytes, byte_at, le32}

-- the fields of EFI_ACPI_ADDRESS_SPACE_DESCRIPTOR that are read
pub record Resource : Type 0 where
  pub desc : ℕ
  pub len : ℕ
  pub res_type : ℕ
  pub addr_range_min : ℕ
  pub addr_len : ℕ

-- ACPI_ADDRESS_SPACE_DESCRIPTOR, the size of the descriptor less 3, and
-- ACPI_ADDRESS_SPACE_TYPE_MEM, of MdePkg
pub record AcpiConstants : Type 0 where
  pub address_space_descriptor : ℕ
  pub descriptor_len : ℕ
  pub type_mem : ℕ

abbrev pub contains : ℕ → List ℕ → Bool
contains n [] = false
contains n (m ∷ rest) = n == m || contains n rest

-- `config offset count` is what a read of the configuration space returns, or none if it fails.
module _ (config : ℕ → ℕ → Option Bytes) where
  -- the power management capability at `cap`
  unfoldable pub capability_d0 : ℕ → Bool
  capability_d0 cap =
      if ltb 0xf8 cap
      then false
      else elim (config (cap + 4) 2) [ none ↦ false | some pm ↦ bit_and (byte_at pm 0) 3 == 0 ]

  -- the loop for the `left` rounds, with the capabilities of `Seen`
  unfoldable pub find_power : ℕ → ℕ → List ℕ → Bool
  find_power zero cap seen = cap == 0
  find_power (suc left) cap seen =
      if cap == 0
      then true
      else if ltb cap 0x40 || (ltb 0xfc cap || (not (bit_and cap 3 == 0) || contains cap seen))
      then false
      else elim (config cap 2) [
        | none ↦ false
        | some hdr ↦
            if byte_at hdr 0 == 1
            then capability_d0 cap
            else find_power left (byte_at hdr 1) (cap ∷ seen)
      ]

  unfoldable pub power_d0 : Bytes → Bool
  power_d0 cfg =
      if bit_and (byte_at cfg 6) 0x10 == 0 then true else find_power 48 (byte_at cfg 0x34) []

abbrev pub is_memory : AcpiConstants → Resource → Bool
is_memory acpi d = not (
    not (d.desc == acpi.address_space_descriptor)
    || (not (d.len == acpi.descriptor_len)
        || (not (d.res_type == acpi.type_mem) || (d.addr_range_min == 0 || ltb d.addr_len 0xec))))

-- The loop has one round, for BAR 2; `bar_attributes` is none on an error or without resources.
unfoldable pub find_mmio : AcpiConstants → (ℕ → Option Resource) → Bytes → Option ℕ
find_mmio acpi bar_attributes cfg =
    let raw = le32 cfg 0x18 in
    if bit_and (le32 cfg 0x10) 1 == 0
      || (not (le32 cfg 0x14 == 0) || not (bit_and (le32 cfg 0x18) 7 == 4))
    then none
    else if raw == 0 || (raw == 0xffff_ffff || not (bit_and raw 1 == 0))
    then none
    else if not (bit_and raw 6 == 0) && not (bit_and raw 6 == 4)
    then none
    else elim (bar_attributes 2) [
      | none ↦ none
      | some d ↦ if is_memory acpi d then some 2 else none
    ]
