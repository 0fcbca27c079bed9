-- ===== src/Mapping/Tlb.antt =====
-- Applications/LoongArchMappingDump/LoongArchMappingDump.c: `DumpTlbEntry` and `PrintEntryBits`. What the
-- instructions tlbsrch and tlbrd leave in the control registers is a parameter.
use Prim.Native.Nat.{bit_and}
use uefi_tools_pkg.Base.{
  ℕ, ◌+◌, ◌-◌, ◌/◌, ◌%◌, ◌^◌, Bool, ◌||◌, not, List, [], ◌∷◌, ltb, ◌==◌, if◌then◌else◌,
}

-- the control registers behind a search, which are read
pub record TlbRegisters : Type 0 where
  pub tlbidx : ℕ
  pub tlbehi : ℕ
  pub tlbelo0 : ℕ
  pub tlbelo1 : ℕ
  pub asid : ℕ

-- the bits V, D, PLV, C, G or huge, P, W, bit 12, NR, NX and RPLV
abbrev pub entry_bits : ℕ → List ℕ
entry_bits entry =
    entry % 2
    ∷ entry / 2 ^ 1 % 2
    ∷ entry / 2 ^ 2 % 4
    ∷ entry / 2 ^ 4 % 4
    ∷ entry / 2 ^ 6 % 2
    ∷ entry / 2 ^ 7 % 2
    ∷ entry / 2 ^ 8 % 2
    ∷ entry / 2 ^ 12 % 2
    ∷ entry / 2 ^ 61 % 2
    ∷ entry / 2 ^ 62 % 2
    ∷ entry / 2 ^ 63 % 2
    ∷ []

pub data TlbLine : Type 0 where
  -- TLBIDX, ASID, TLBEHI, the page shift and whether the entry covers the address
  tlb_registers : ℕ → ℕ → ℕ → ℕ → Bool → TlbLine
  no_live_entry : ℕ → TlbLine
  even_page odd_page : ℕ → List ℕ → TlbLine

-- the value that is written to TLBEHI: the address without its low bits
abbrev pub page_of : ℕ → ℕ
page_of address = bit_and address (2 ^ 64 - 2 ^ 12)

unfoldable pub page_shift : ℕ → ℕ
page_shift tlbidx =
    let shift = bit_and (tlbidx / 2 ^ 24) 0x3f in if shift == 0 || ltb 47 shift then 12 else shift

-- the complement of the bits below an even and an odd page, in 64 bits
abbrev pub pair_mask : ℕ → ℕ
pair_mask shift = 2 ^ 64 - 2 ^ (shift + 1)

abbrev pub covers_address : TlbRegisters → ℕ → Bool
covers_address csr address =
    let mask = pair_mask (page_shift csr.tlbidx) in bit_and csr.tlbehi mask == bit_and address mask

-- LA_TLBIDX_NE, BIT31
abbrev pub is_not_existing : TlbRegisters → Bool
is_not_existing csr = not (bit_and csr.tlbidx (2 ^ 31) == 0)

-- `search` gives the registers behind a search for a page
unfoldable pub dump_tlb_entry : (ℕ → TlbRegisters) → ℕ → List TlbLine
dump_tlb_entry search address =
    let csr = search (page_of address) in
    tlb_registers csr.tlbidx csr.asid csr.tlbehi (page_shift csr.tlbidx)
      (covers_address csr address)
    ∷ (if is_not_existing csr || not (covers_address csr address)
        then no_live_entry address ∷ []
        else even_page csr.tlbelo0 (entry_bits csr.tlbelo0)
          ∷ odd_page csr.tlbelo1 (entry_bits csr.tlbelo1)
          ∷ [])
