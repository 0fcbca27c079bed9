-- ===== src/NicDma/Snapshot.antt =====
-- Applications/NicDmaScan/NicDmaScan.c: `ReadBase` and `Snapshot`. Memory, the memory map and the register are
-- parameters; memory is what a pass over the 16 bytes at an address sees, since the device may write
-- at any time, and the passes are counted.
pub mod Safe
pub mod Ring
use Prim.Native.Nat.{bit_and, bit_or}
use uefi_tools_pkg.Base.{
  equal, ℕ, zero, suc, ◌+◌, ◌-◌, ◌*◌, ◌%◌, ◌^◌, Bool, true, false, ◌&&◌, not, Option, none, some,
  List, [], ◌∷◌, ◌++◌, ◌==◌, if◌then◌else◌,
}
use uefi_tools_pkg.NicDma.Decode.{Bytes, max_uint64, dma_end, le32, le64, rtl_length}
use uefi_tools_pkg.NicDma.Ram.{MemoryDescriptor, readable_ram}

-- the two reads of the two registers; a read that fails is `none`
unfoldable pub read_base : Option (ℕ × ℕ) → Option (ℕ × ℕ) → Option ℕ
read_base (some (a0, a1)) (some (b0, b1)) =
    if not (a0 == b0 && a1 == b1)
    then none
    else let base = bit_or a0 (a1 * 2 ^ 32 % 2 ^ 64) in
      if base == max_uint64 then none else some base
read_base _ _ = none

-- what a snapshot prints, and `read_at` for each pass over 16 bytes
pub data Event : Type 0 where
  refused_base no_memory_map overflow : Event
  refused_prefix : ℕ → Event
  read_at : ℕ → Event
  unstable : ℕ → Event
  descriptor : ℕ → ℕ → ℕ → ℕ → Event
  -- whether the device owns the buffer, its start, end and length
  buffer_range : Bool → ℕ → ℕ → ℕ → Event
  identity_range : ℕ → ℕ → Event
  not_eligible no_buffer_range : Event
  ring_end : ℕ → ℕ → ℕ → Event
  incomplete : ℕ → Event
  base_reread invalid_snapshot : Event

-- a round ends the loop, ends the ring, or goes on
pub data Round : Type 0 where
  stopped last more : List Event → Round

abbrev pub snapshot_descriptors : ℕ
snapshot_descriptors = 256

module _ (max_uintn : ℕ) (map : List MemoryDescriptor) (rx : Bool) where
  -- the prints on the buffer of a descriptor
  unfoldable pub buffer_events : ℕ → ℕ → List Event
  buffer_events opts1 buffer =
      let len = rtl_length opts1 rx in
      let owned = not (bit_and opts1 0x8000_0000 == 0) in
      if buffer == 0 then no_buffer_range ∷ [] else elim (dma_end buffer len) [
        | none ↦ no_buffer_range ∷ []
        | some end ↦
            buffer_range owned buffer end len
            ∷ (if readable_ram max_uintn map buffer len
                then identity_range buffer end
                else not_eligible)
            ∷ []
      ]

  -- the round on a descriptor that was read twice alike
  unfoldable pub decode_round : ℕ → ℕ → Bytes → Round
  decode_round i address first =
      let opts1 = le32 first 0 in
      let buffer = le64 first 8 in
      let events =
        read_at address
        ∷ read_at address
        ∷ descriptor i opts1 (le32 first 4) buffer
        ∷ buffer_events opts1 buffer in
      if not (bit_and opts1 0x4000_0000 == 0) then last events else more events

module _ (max_uintn : ℕ) (map : List MemoryDescriptor) (memory : ℕ → ℕ → Bytes) (base : ℕ)
    (rx : Bool) where
  unfoldable pub round : ℕ → Round
  round i = elim (dma_end base ((i + 1) * 16)) [
    | none ↦ stopped (overflow ∷ [])
    | some end ↦
        let address = end - 16 in
        let first = memory (2 * i) address in
        if not (readable_ram max_uintn map base ((i + 1) * 16))
        then stopped (refused_prefix i ∷ [])
        else if not (equal first (memory (2 * i + 1) address))
        then stopped (read_at address ∷ read_at address ∷ unstable i ∷ [])
        else decode_round max_uintn map rx i address first
  ]

  -- The loop for the `left` rounds that the limit allows: `Count`, `Complete` and the output.
  unfoldable pub observe : ℕ → ℕ → ℕ → List Event → ℕ × Bool × List Event
  observe zero i count shown = (count, false, shown)
  observe (suc left) i count shown = elim (round i) [
    | stopped events ↦ (count, false, shown ++ events)
    | last events ↦ (count + 1, true, shown ++ events)
    | more events ↦ observe left (i + 1) (count + 1) (shown ++ events)
  ]

-- the prints after the loop
unfoldable pub finish : ℕ → ℕ × Bool × List Event → List Event
finish base (count, false, shown) = shown ++ (incomplete count ∷ [])
finish base (count, true, shown) = elim (dma_end base (count * 16)) [
  | none ↦ shown ++ (incomplete count ∷ [])
  | some end ↦ shown ++ (ring_end base end (count * 16) ∷ [])
]

abbrev pub recheck : ℕ → Option ℕ → List Event
recheck base none = invalid_snapshot ∷ []
recheck base (some after) = if after == base then [] else invalid_snapshot ∷ []

-- `after` is the ring register at the end.
unfoldable pub snapshot :
    ℕ → Option (List MemoryDescriptor) → (ℕ → ℕ → Bytes) → Option ℕ → ℕ → Bool → List Event
snapshot max_uintn mapped memory after base rx =
    if base == 0
    then refused_base ∷ []
    else if not (bit_and base 0xff == 0)
    then refused_base ∷ []
    else elim mapped [
      | none ↦ no_memory_map ∷ []
      | some map ↦
          finish base (observe max_uintn map memory base rx snapshot_descriptors 0 0 [])
          ++ (base_reread ∷ recheck base after)
    ]
