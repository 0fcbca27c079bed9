-- ===== src/Mapping/Tests.antt =====
-- Runs of Applications/LoongArchMappingDump/LoongArchMappingDump.c, and each theorem at a concrete input.
use Prim.Native.Nat.{bit_and}
use uefi_tools_pkg.Base.{
  ℕ, ◌+◌, ◌-◌, ◌*◌, ◌^◌, ◌≡◌, refl, arith, true, false, Option, none, some, List, [], ◌∷◌, ◌==◌,
  if◌then◌else◌, codes, Text,
}
use uefi_tools_pkg.Base.Hex.{hex_digit, without_prefix, hex_number}
use uefi_tools_pkg.Mapping.Address.{
  parse_hex_digits, parse_hex_address, low_bits, parse_hex_address-number,
}
use uefi_tools_pkg.Mapping.Walk.{
  entry_kind, is_table_entry, parse_max_level, parse_bit_width, Line, page_walk_cfg, selected_root,
  entry_line, walk, Registers, page_walk_config, dump_page_walk,
}
use uefi_tools_pkg.Mapping.Tlb.{
  TlbRegisters, TlbLine, tlb_registers, no_live_entry, even_page, odd_page, entry_bits, page_shift,
  dump_tlb_entry,
}
use uefi_tools_pkg.Mapping.Program.{Output, of_tlb, get_requested_address, uefi_main}
use uefi_tools_pkg.Mapping.Walk.Fields.{levels, index_width, is_upper, root}
use uefi_tools_pkg.Mapping.Walk.Stops.{IsWalk, dump_page_walk-IsWalk}

address_of : Text → Option ℕ
unfolding parse_hex_address parse_hex_digits hex_digit
address_of s = parse_hex_address s

address_of-prefix : address_of (codes "0x9000fF") ≡ some 0x9000ff
unfolding address_of
address_of-prefix = refl

address_of-other : address_of (codes "90h") ≡ none
unfolding address_of
address_of-other = refl

-- seventeen digits: the first is shifted out
address_of-long : address_of (codes "12000000000000003") ≡ some 0x2000_0000_0000_0003
unfolding address_of
address_of-long = refl

parse_hex_address-number_example :
    parse_hex_address (codes "0X1f") ≡ low_bits (hex_number 0 (without_prefix (codes "0X1f")))
parse_hex_address-number_example = parse_hex_address-number (codes "0X1f")

-- three levels of 9 bits, with the root at 0x10000
abbrev registers : Registers
registers = record { pgdl = 0x10000; pgdh = 0; pwctl0 = 0x3200_0120; pwctl1 = 0 }

abbrev memory : ℕ → ℕ
memory a =
    if a == 0x10000
    then 0x20000
    else if a == 0x20008
    then 0x30000
    else if a == 0x30010
    then 0x5003
    else 0

-- the indices of the levels that were read
abbrev rows : List Line → List (ℕ × ℕ)
rows [] = []
rows (entry_line level table index shift entry kind ∷ rest) = (table, index) ∷ rows rest
rows (_ ∷ rest) = rows rest

walk_rows : ℕ → List (ℕ × ℕ)
unfolding dump_page_walk walk is_table_entry entry_kind parse_max_level parse_bit_width
walk_rows address = rows (dump_page_walk registers memory address)

walk_rows-mapped : walk_rows (2 ^ 21 + 2 * 2 ^ 12) ≡ (0x10000, 0) ∷ (0x20000, 1) ∷ (0x30000, 2) ∷ []
unfolding walk_rows
walk_rows-mapped = refl

dump_page_walk-IsWalk_example :
    (lines : List Line) × (dump_page_walk registers memory 0x20_2000
      ≡ page_walk_cfg (page_walk_config registers) (levels registers) (index_width registers)
        ∷ selected_root (root registers 0x20_2000) (is_upper 0x20_2000)
        ∷ lines)
    × IsWalk memory 0x20_2000
        (index_width registers)
        0
        (levels registers - 1)
        (bit_and (root registers 0x20_2000) 0x0000_ffff_ffff_f000)
        lines
dump_page_walk-IsWalk_example =
    dump_page_walk-IsWalk registers memory 0x20_2000 (omega arith) (omega arith) (omega arith)
      (omega arith)

-- a search that finds an entry for the pair of pages from 0x20_2000 on, and none elsewhere
abbrev search : ℕ → TlbRegisters
search page = record {
  tlbidx = if page == 0x20_3000 then 12 * 2 ^ 24 + 5 else 2 ^ 31;
  tlbehi = 0x20_2000;
  tlbelo0 = 0x4003;
  tlbelo1 = 0x5003;
  asid = 1;
}

tlb_lines : Option (List Text) → List TlbLine
unfolding uefi_main get_requested_address parse_hex_address parse_hex_digits hex_digit
    dump_page_walk walk is_table_entry entry_kind parse_max_level parse_bit_width dump_tlb_entry
    page_shift
tlb_lines arguments = of_tlb_lines (uefi_main true registers memory search arguments).0
  where
    of_tlb_lines : List Output → List TlbLine
    of_tlb_lines [] = []
    of_tlb_lines (of_tlb line ∷ rest) = line ∷ of_tlb_lines rest
    of_tlb_lines (_ ∷ rest) = of_tlb_lines rest

tlb_lines-covered :
    tlb_lines (some (codes "dump" ∷ codes "203008" ∷ []))
    ≡ tlb_registers (12 * 2 ^ 24 + 5) 1 0x20_2000 12 true
      ∷ even_page 0x4003 (entry_bits 0x4003)
      ∷ odd_page 0x5003 (entry_bits 0x5003)
      ∷ []
unfolding tlb_lines
tlb_lines-covered = refl

-- without an argument the address is zero
tlb_lines-none : tlb_lines none ≡ tlb_registers (2 ^ 31) 1 0x20_2000 12 false ∷ no_live_entry 0 ∷ []
unfolding tlb_lines
tlb_lines-none = refl
