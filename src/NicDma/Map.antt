-- ===== src/NicDma/Map.antt =====
-- Applications/NicDmaScan/NicDmaScan.c: `GetMap`. The memory map of the firmware can change between two
-- calls, which are counted.
use uefi_tools_pkg.Base.{
  ℕ, zero, suc, ◌+◌, ◌-◌, ◌*◌, ◌/◌, ◌%◌, ◌≤◌, ◌≡◌, Bool, false, ◌||◌, not, Option, none, some, List,
  ltb, ◌==◌, if◌then◌else◌, by_test, arith,
}
use uefi_tools_pkg.Efi.{Status, efi_error, is_too_small}
use uefi_tools_pkg.NicDma.Ram.{MemoryDescriptor}

-- what `GetMemoryMap` returns
pub record Reply : Type 0 where
  pub status : Status
  pub size : ℕ
  pub stride : ℕ
  pub descriptors : List MemoryDescriptor

-- `get_memory_map` takes the number of the call and the size of the buffer.
pub record MapServices : Type 0 where
  pub get_memory_map : ℕ → ℕ → Reply
  pub allocates : ℕ → ℕ → Bool

-- the buffer with the map that is in it
pub record MemoryMap : Type 0 where
  pub capacity : ℕ
  pub size : ℕ
  pub stride : ℕ
  pub descriptors : List MemoryDescriptor

-- `descriptor_size` is that of EFI_MEMORY_DESCRIPTOR
module _ (max_uintn descriptor_size : ℕ) (firmware : MapServices) where
  -- the attempts that are left, and the size and the stride that the last call asked for
  unfoldable pub attempts : ℕ → ℕ → ℕ → ℕ → Option MemoryMap
  attempts zero call size stride = none
  attempts (suc left) call size stride =
      let capacity = size + 16 * stride in
      let reply = firmware.get_memory_map call capacity in
      let rest = attempts left (call + 1) reply.size reply.stride in
      if ltb stride descriptor_size
        || (ltb (max_uintn / 16) stride || ltb (max_uintn - 16 * stride) size)
      then none
      else if not (firmware.allocates call capacity)
      then none
      else if not (efi_error reply.status)
      then (if ltb reply.stride descriptor_size || not (reply.size % reply.stride == 0)
          then none
          else some (record {
            capacity = capacity;
            size = reply.size;
            stride = reply.stride;
            descriptors = reply.descriptors;
          }))
      else if not (is_too_small reply.status)
      then none
      else rest

  unfoldable pub get_map : Option MemoryMap
  get_map =
      let reply = firmware.get_memory_map 0 0 in
      if not (is_too_small reply.status) then none else attempts 3 1 reply.size reply.stride

  -- whole descriptors that fit in the buffer, the size of which fits in UINTN
  abbrev pub IsMap : Option MemoryMap → Type 0
  IsMap none = Unit {0}
  IsMap (some map) =
      (descriptor_size ≤ map.stride)
      × (map.size % map.stride ≡ 0)
      × (map.size ≤ map.capacity)
      × (map.capacity ≤ max_uintn)

  -- a map that is returned fits in the buffer
  abbrev pub MapsFit : Type 0
  MapsFit =
      (call capacity : ℕ)
      → efi_error (firmware.get_memory_map call capacity).status ≡ false
      → (firmware.get_memory_map call capacity).size ≤ capacity

  attempts-IsMap : (left call size stride : ℕ) → MapsFit → IsMap (attempts left call size stride)
  unfolding attempts
  attempts-IsMap zero call size stride fits = tt
  attempts-IsMap (suc left) call size stride fits =
      let capacity = size + 16 * stride in
      let reply = firmware.get_memory_map call capacity in
      by_test IsMap
        (ltb stride descriptor_size
          || (ltb (max_uintn / 16) stride || ltb (max_uintn - 16 * stride) size))
        (λ _. tt)
        (λ bounded.
          by_test IsMap (not (firmware.allocates call capacity)) (λ _. tt)
            (λ _.
              by_test IsMap (not (efi_error reply.status))
                (λ good.
                  by_test IsMap
                    (ltb reply.stride descriptor_size || not (reply.size % reply.stride == 0))
                    (λ _. tt)
                    (λ whole. (
                      ground (arith, whole),
                      ground (arith, whole),
                      fits call capacity (ground (arith, good)),
                      ground (arith, bounded),
                    )))
                (λ _.
                  by_test IsMap (not (is_too_small reply.status)) (λ _. tt)
                    (λ _. attempts-IsMap left (call + 1) reply.size reply.stride fits))))

  -- Where a map that `GetMemoryMap` returns fits in the buffer: the map that `GetMap` returns has whole
  -- descriptors and fits in its buffer, and the size of the buffer is a number of UINTN.
  pub get_map-IsMap : MapsFit → IsMap get_map
  unfolding get_map
  get_map-IsMap fits =
      let reply = firmware.get_memory_map 0 0 in
      by_test IsMap (not (is_too_small reply.status)) (λ _. tt)
        (λ _. attempts-IsMap 3 1 reply.size reply.stride fits)
