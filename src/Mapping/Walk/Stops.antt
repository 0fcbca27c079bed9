-- ===== src/Mapping/Walk/Stops.antt =====
-- Applications/LoongArchMappingDump/LoongArchMappingDump.c: the dump against a walk that is described by
-- the fields of the registers and by the digits of the page number.
use Prim.Native.Nat.{bit_and}
use native.Mathlib.Nat.{div-div-eq-div-mul}
use uefi_tools_pkg.Base.{
  ℕ, zero, suc, ◌+◌, ◌-◌, ◌*◌, ◌/◌, ◌%◌, ◌^◌, ◌≤◌, ◌<◌, ◌≡◌, ◌≢◌, refl, ◌∙◌, sym, true, false, not,
  ◌&&◌, ltb, List, [], ◌∷◌, ◌==◌, Bool-cases, by_test, subst, inl, inr, arith,
}
use uefi_tools_pkg.Base.Bits.{power_sum}
use uefi_tools_pkg.Mapping.Walk.{
  Kind, invalid_entry, huge_leaf, page_leaf, table_pointer, ppn_mask, entry_kind, is_table_entry,
  Line, page_walk_cfg, selected_root, entry_line, stop, block_shift, index_at, entry_at, walk,
  Registers, page_walk_config, dump_page_walk,
}
use uefi_tools_pkg.Mapping.Walk.Fields.{levels, index_width, is_upper, root, dump_page_walk-fields}

-- the digit of a page number with `below` digits behind it, in base 2 ^ width
abbrev pub digit : ℕ → ℕ → ℕ → ℕ
digit width zero page = page % 2 ^ width
digit width (suc below) page = digit width below (page / 2 ^ width)

-- what an entry is with `below` levels of tables under it
pub data IsKind (below entry : ℕ) : Kind → Type 0 where
  is_invalid : entry ≡ 0 → IsKind below entry invalid_entry
  is_huge : entry ≢ 0 → 0 < below → bit_and entry 0x1040 ≡ 0x1040 → IsKind below entry huge_leaf
  is_page : entry ≢ 0 → below ≡ 0 → IsKind below entry page_leaf
  is_table :
      entry ≢ 0 → 0 < below → bit_and entry 0x1040 ≢ 0x1040 → IsKind below entry table_pointer

-- The line of a table's entry: the index is the digit of the page number, the entry is the word of the table
-- at the index, and the shift is that of the page offset and of the digits behind.
pub record Shows (memory : ℕ → ℕ) (address width below table index shift entry : ℕ) (kind : Kind)
    : Type 0 where
  pub index_is : index ≡ digit width below (address / 2 ^ 12)
  pub shift_is : shift ≡ below * width + 12
  pub entry_is : entry ≡ memory ((table + index * 8) % 2 ^ 64)
  pub kind_is : IsKind below entry kind

-- A walk from a table at a level with `below` levels under it: through table pointers, each to the page
-- of bits 12 to 47 of the entry above, to an entry that points to no table.
pub data IsWalk (memory : ℕ → ℕ) (address width : ℕ) : ℕ → ℕ → ℕ → List Line → Type 0 where
  ends :
      {level below table index shift entry : ℕ} {kind : Kind}
      → Shows memory address width below table index shift entry kind
      → kind ≢ table_pointer
      → IsWalk memory address width level below table
          (entry_line level table index shift entry kind ∷ stop level kind ∷ [])
  descends :
      {level below table index shift entry : ℕ} {rest : List Line}
      → Shows memory address width (suc below) table index shift entry table_pointer
      → IsWalk memory address width (level + 1) below (bit_and entry 0x0000_ffff_ffff_f000) rest
      → IsWalk memory address width level
          (suc below)
          table
          (entry_line level table index shift entry table_pointer ∷ rest)

digit-shift :
    (width below x address : ℕ)
    → digit width below (address / 2 ^ x) ≡ address / 2 ^ (below * width + x) % 2 ^ width
digit-shift width zero x address = λ i. address / 2 ^ (same i) % 2 ^ width
  where
    same : x ≡ 0 * width + x
    same = omega arith
digit-shift width (suc below) x address =
    let joined : address / 2 ^ x / 2 ^ width ≡ address / 2 ^ (x + width) =
      div-div-eq-div-mul address (2 ^ x) (2 ^ width) ∙ (λ i. address / sym (power_sum x width) i) in
    let same : below * width + (x + width) ≡ suc below * width + x = omega arith in
    (λ i. digit width below (joined i))
    ∙ digit-shift width below (x + width) address
    ∙ (λ i. address / 2 ^ (same i) % 2 ^ width)

entry_kind-IsKind :
    (entry level below max_level : ℕ)
    → level + suc below ≡ max_level
    → IsKind below entry (entry_kind entry level max_level)
unfolding entry_kind
entry_kind-IsKind entry level below max_level all =
    by_test (IsKind below entry) (entry == 0) (λ e. is_invalid (ground (arith, e)))
      (λ some_entry.
        let present : entry ≢ 0 = ground (arith, some_entry) in
        by_test (IsKind below entry) (ltb level (max_level - 1) && bit_and entry 0x1040 == 0x1040)
          (λ e. is_huge present (ground (arith, e, all)) (ground (arith, e)))
          (λ small.
            by_test (IsKind below entry) (not (ltb level (max_level - 1)))
              (λ e. is_page present (ground (arith, e, all)))
              (λ e. is_table present (ground (arith, e, all)) (ground (arith, e, small)))))

-- `IsTableEntry` and `GetEntryKind` agree.
is_table_entry-yes :
    (entry level max_level : ℕ)
    → is_table_entry entry level max_level ≡ true
    → (entry_kind entry level max_level ≡ table_pointer) × (level + 1 < max_level)
unfolding is_table_entry entry_kind
is_table_entry-yes entry level max_level h = ground arith

is_table_entry-no :
    (entry level max_level : ℕ)
    → is_table_entry entry level max_level ≡ false
    → entry_kind entry level max_level ≢ table_pointer
unfolding is_table_entry entry_kind
is_table_entry-no entry level max_level h k = ground arith

module _ (memory : ℕ → ℕ) (address max_level width : ℕ) where
  show_entry-Shows :
      (level below table : ℕ)
      → level + suc below ≡ max_level
      → Shows memory address width below table
          (index_at memory address max_level width level)
          (block_shift memory address max_level width level)
          (entry_at memory address max_level width level table)
          (entry_kind (entry_at memory address max_level width level table) level max_level)
  show_entry-Shows level below table all =
      let entry = entry_at memory address max_level width level table in
      let left : max_level - level - 1 ≡ below = omega (arith, all) in
      record {
        index_is =
            (λ i. address / 2 ^ (left i * width + 12) % 2 ^ width)
            ∙ sym (digit-shift width below 12 address);
        shift_is = λ i. left i * width + 12;
        entry_is = refl;
        kind_is = entry_kind-IsKind entry level below max_level all;
      }

  walk-IsWalk :
      (below level table : ℕ)
      → level + suc below ≡ max_level
      → IsWalk memory address width level below table
          (walk memory address max_level width (suc below) level table)
  unfolding walk
  walk-IsWalk zero level table all =
      let entry = entry_at memory address max_level width level table in
      elim (Bool-cases (is_table_entry entry level max_level)) [
        | inl e ↦
            let t = is_table_entry-yes entry level max_level e in absurd (omega (arith, t.1, all))
        | inr e ↦
            rw (e, walk)
              (ends (show_entry-Shows level zero table all)
                (is_table_entry-no entry level max_level e))
      ]
  walk-IsWalk (suc below) level table all =
      let entry = entry_at memory address max_level width level table in
      let index = index_at memory address max_level width level in
      let shift = block_shift memory address max_level width level in
      let shown = show_entry-Shows level (suc below) table all in
      elim (Bool-cases (is_table_entry entry level max_level)) [
        | inl e ↦
            let pointer = (is_table_entry-yes entry level max_level e).0 in
            let next = bit_and entry ppn_mask in
            let rest = walk memory address max_level width (suc below) (level + 1) next in
            rw (e, walk)
              (subst
                (λ (kind : Kind).
                  IsWalk memory address width level (suc below) table
                    (entry_line level table index shift entry kind ∷ rest))
                (sym pointer)
                (descends
                  (subst (Shows memory address width (suc below) table index shift entry) pointer
                    shown)
                  (walk-IsWalk below (level + 1) next (omega (arith, all)))))
        | inr e ↦ rw (e, walk) (ends shown (is_table_entry-no entry level max_level e))
      ]

-- Where the tables have levels and an index of 1 to 12 binary digits, and PWCTL0 has 32: the dump tells
-- of these, goes from the root that bit 47 of the address selects through table pointers to an entry that
-- is none, and says there that it stops. At each level the index is the next digit of the page number, the
-- highest first, and the next table is the page of bits 12 to 47 of the entry.
pub dump_page_walk-IsWalk :
    (csr : Registers) (memory : ℕ → ℕ) (address : ℕ)
    → csr.pwctl0 < 2 ^ 32
    → 0 < levels csr
    → 0 < index_width csr
    → index_width csr ≤ 12
    → (lines : List Line) × (dump_page_walk csr memory address
        ≡ page_walk_cfg (page_walk_config csr) (levels csr) (index_width csr)
          ∷ selected_root (root csr address) (is_upper address)
          ∷ lines)
      × IsWalk memory address
          (index_width csr)
          0
          (levels csr - 1)
          (bit_and (root csr address) 0x0000_ffff_ffff_f000)
          lines
dump_page_walk-IsWalk csr memory address narrow some_levels some_width small =
    let below = levels csr - 1 in
    let table = bit_and (root csr address) ppn_mask in
    let lines = walk memory address (levels csr) (index_width csr) (levels csr) 0 table in
    let count : suc below ≡ levels csr = omega (arith, some_levels) in
    (
      lines,
      dump_page_walk-fields csr memory address narrow some_levels some_width small,
      subst
          (λ (left : ℕ).
            IsWalk memory address (index_width csr) 0 below table
              (walk memory address (levels csr) (index_width csr) left 0 table))
          count
          (walk-IsWalk memory address (levels csr) (index_width csr) below 0 table
            (omega (arith, count))),
    )
