-- ===== src/Mapping/Walk.antt =====
-- Applications/LoongArchMappingDump/LoongArchMappingDump.c: `DumpPageWalk` and the tests on an entry. The control
-- registers and the 64-bit words of memory are parameters.
pub mod Fields
pub mod Stops
use Prim.Native.Nat.{bit_and, bit_or}
use uefi_tools_pkg.Base.{
  ℕ, zero, suc, ◌+◌, ◌-◌, ◌*◌, ◌/◌, ◌%◌, ◌^◌, Bool, true, false, ◌&&◌, ◌||◌, not, List, [], ◌∷◌,
  ltb, ◌==◌, if◌then◌else◌,
}

-- the texts of `GetEntryKind`
pub data Kind : Type 0 where
  invalid_entry huge_leaf page_leaf table_pointer : Kind

-- BIT6 and BIT12
abbrev pub huge_bits : ℕ
huge_bits = 0x1040

-- LA_PTE_PPN_MASK
abbrev pub ppn_mask : ℕ
ppn_mask = 0x0000_ffff_ffff_f000

unfoldable pub entry_kind : ℕ → ℕ → ℕ → Kind
entry_kind entry level max_level =
    if entry == 0
    then invalid_entry
    else if ltb level (max_level - 1) && bit_and entry huge_bits == huge_bits
    then huge_leaf
    else if not (ltb level (max_level - 1))
    then page_leaf
    else table_pointer

unfoldable pub is_table_entry : ℕ → ℕ → ℕ → Bool
is_table_entry entry level max_level =
    if entry == 0
    then false
    else if not (ltb level (max_level - 1))
    then false
    else if bit_and entry huge_bits == huge_bits
    then false
    else true

unfoldable pub parse_max_level : ℕ → ℕ
parse_max_level cfg =
    let pwctl0 = cfg % 2 ^ 32 in
    let pwctl1 = cfg / 2 ^ 32 % 2 ^ 32 in
    if not (bit_and (pwctl1 / 2 ^ 18) 0x3f == 0)
    then 5
    else if not (bit_and (pwctl1 / 2 ^ 6) 0x3f == 0)
    then 4
    else if not (bit_and (pwctl0 / 2 ^ 25) 0x3f == 0)
    then 3
    else 0

unfoldable pub parse_bit_width : ℕ → ℕ
parse_bit_width cfg = bit_and (cfg / 2 ^ 5) 0x1f

pub data Line : Type 0 where
  page_walk_cfg : ℕ → ℕ → ℕ → Line
  unsupported : Line
  -- the root, and whether it is that of PGDH
  selected_root : ℕ → Bool → Line
  -- level, table, index, block shift, entry and its kind
  entry_line : ℕ → ℕ → ℕ → ℕ → ℕ → Kind → Line
  stop : ℕ → Kind → Line

module _ (memory : ℕ → ℕ) (address max_level width : ℕ) where
  abbrev pub block_shift : ℕ → ℕ
  block_shift level = (max_level - level - 1) * width + 12

  -- the mask `EntryNum - 1` has the low `width` bits
  abbrev pub index_at : ℕ → ℕ
  index_at level = address / 2 ^ block_shift level % 2 ^ width

  abbrev pub entry_at : ℕ → ℕ → ℕ
  entry_at level table = memory ((table + index_at level * 8) % 2 ^ 64)

  abbrev pub show_entry : ℕ → ℕ → Line
  show_entry level table =
      let entry = entry_at level table in
      entry_line level table (index_at level) (block_shift level) entry
        (entry_kind entry level max_level)

  -- the loop for the `left` levels that remain
  unfoldable pub walk : ℕ → ℕ → ℕ → List Line
  walk zero level table = []
  walk (suc left) level table =
      let entry = entry_at level table in
      let below = walk left (level + 1) (bit_and entry ppn_mask) in
      show_entry level table
      ∷ (if not (is_table_entry entry level max_level)
          then stop level (entry_kind entry level max_level) ∷ []
          else below)

-- the control registers that decide the walk
pub record Registers : Type 0 where
  pub pgdl : ℕ
  pub pgdh : ℕ
  pub pwctl0 : ℕ
  pub pwctl1 : ℕ

abbrev pub page_walk_config : Registers → ℕ
page_walk_config csr = bit_or (csr.pwctl1 * 2 ^ 32 % 2 ^ 64) csr.pwctl0

abbrev pub is_supported : ℕ → ℕ → Bool
is_supported max_level width = not (max_level == 0 || (width == 0 || ltb 12 width))

-- BIT47
abbrev pub is_high : ℕ → Bool
is_high address = not (bit_and address (2 ^ 47) == 0)

abbrev pub root_of : Registers → ℕ → ℕ
root_of csr address = if is_high address then csr.pgdh else csr.pgdl

unfoldable pub dump_page_walk : Registers → (ℕ → ℕ) → ℕ → List Line
dump_page_walk csr memory address =
    let cfg = page_walk_config csr in
    let max_level = parse_max_level cfg in
    let width = parse_bit_width cfg in
    page_walk_cfg cfg max_level width
    ∷ (if not (is_supported max_level width)
        then unsupported ∷ []
        else selected_root (root_of csr address) (is_high address)
          ∷ walk memory address max_level width max_level 0
              (bit_and (root_of csr address) ppn_mask))
