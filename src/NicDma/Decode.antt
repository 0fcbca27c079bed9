-- ===== src/NicDma/Decode.antt =====
-- Applications/NicDmaScan/Decode.c: ranges, little-endian reads and the test on memory descriptors. All numbers
-- are UINT64 or UINT32.
use Prim.Native.Nat.{bit_and, bit_or}
use uefi_tools_pkg.Base.{
  ℕ, ◌+◌, ◌-◌, ◌*◌, ◌/◌, ◌%◌, ◌^◌, Bool, false, ◌&&◌, ◌||◌, not, Option, none, some, List, ltb, leb,
  ◌==◌, if◌then◌else◌, get_or,
}

abbrev pub Bytes : Type 0
Bytes = List ℕ

abbrev pub max_uint64 : ℕ
max_uint64 = 0xffff_ffff_ffff_ffff

-- FALSE is `none`, and else `*End` is returned
unfoldable pub dma_end : ℕ → ℕ → Option ℕ
dma_end base len =
    if len == 0 || ltb (max_uint64 - len) base then none else some ((base + len) % 2 ^ 64)

-- the byte at `P + i`
abbrev pub byte_at : Bytes → ℕ → ℕ
byte_at p i = get_or p i 0

-- the four bytes from `P + i`
unfoldable pub le32 : Bytes → ℕ → ℕ
le32 p i =
    bit_or
      (bit_or (bit_or (byte_at p i) (byte_at p (i + 1) * 2 ^ 8 % 2 ^ 32))
        (byte_at p (i + 2) * 2 ^ 16 % 2 ^ 32))
      (byte_at p (i + 3) * 2 ^ 24 % 2 ^ 32)

unfoldable pub le64 : Bytes → ℕ → ℕ
le64 p i = bit_or (le32 p i) (le32 p (i + 4) * 2 ^ 32 % 2 ^ 64)

unfoldable pub safe_ram_type : ℕ → ℕ → Bool
safe_ram_type kind attributes =
    (kind == 1 || (kind == 2 || (kind == 3 || (kind == 4 || kind == 7))))
    && (bit_and attributes (bit_or 0x8000_0000_0000_0000 0x2000) == 0
        && not (bit_and attributes 8 == 0))

unfoldable pub ram_contains : ℕ → ℕ → ℕ → ℕ → Bool
ram_contains start pages base len =
    if base == 0 || ltb (max_uint64 / 2 ^ 12) pages
    then false
    else elim (dma_end start (pages * 2 ^ 12 % 2 ^ 64)) [
      | none ↦ false
      | some region_end ↦ elim (dma_end base len) [
        | none ↦ false
        | some end ↦ leb start base && leb end region_end
      ]
    ]

-- the result is a UINT32
unfoldable pub rtl_length : ℕ → Bool → ℕ
rtl_length opts1 rx = bit_and opts1 (if rx then 0x3fff else 0xffff) % 2 ^ 32
