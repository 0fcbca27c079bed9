-- ===== src/NicDma/Tests.antt =====
-- Runs of Applications/NicDmaScan on a small machine, and each theorem at a concrete input.
use uefi_tools_pkg.Base.{
  ℕ, ◌+◌, ◌-◌, ◌^◌, ltb, ◌≡◌, refl, ◌↔◌, true, Option, some, List, [], ◌∷◌, ◌==◌, if◌then◌else◌,
  arith, Text, codes, replicate,
}
use uefi_tools_pkg.Efi.{success, error, buffer_too_small}
use uefi_tools_pkg.NicDma.Decode.{
  Bytes, dma_end, le32, le64, safe_ram_type, ram_contains, rtl_length,
}
use uefi_tools_pkg.NicDma.Bounds.{IsInside, ram_contains_iff}
use uefi_tools_pkg.NicDma.Ram.{MemoryDescriptor, any_region, readable_ram}
use uefi_tools_pkg.NicDma.Map.{
  MapServices, MemoryMap, attempts, get_map, IsMap, MapsFit, get_map-IsMap,
}
use uefi_tools_pkg.NicDma.Device.{AcpiConstants, capability_d0, find_power, power_d0, find_mmio}
use uefi_tools_pkg.NicDma.Snapshot.{
  Event, read_at, ring_end, read_base, buffer_events, decode_round, round, observe, finish,
  snapshot,
}
use uefi_tools_pkg.NicDma.Snapshot.Safe.{AreSafe}
use uefi_tools_pkg.NicDma.Snapshot.Ring.{regions, snapshot-AreSafe}
use uefi_tools_pkg.NicDma.Scan.{
  NicIo, ScanEvent, mmio_read, observed, show_ring, show_rings, realtek, inspect, scan_handles,
  scan, asserts_identity, shell_app_main,
}
use uefi_tools_pkg.NicDma.Scan.Gate.{AreGated}
use uefi_tools_pkg.NicDma.Scan.Program.{shell_app_main-AreGated}

abbrev max_uintn : ℕ
max_uintn = 0xffff_ffff_ffff_ffff

-- two pages of conventional memory
abbrev two_regions : List MemoryDescriptor
two_regions =
    record { kind = 6; physical_start = 0; number_of_pages = 1; attribute = 8 }
    ∷ record { kind = 7; physical_start = 0x1000; number_of_pages = 2; attribute = 8 }
    ∷ []

-- a ring of two descriptors, with the buffers at 0x2000; the second one ends it
abbrev ring : ℕ → ℕ → Bytes
ring pass address =
    if address == 0x1000
    then 0x40 ∷ 0 ∷ 0 ∷ 0x80 ∷ 0 ∷ 0 ∷ 0 ∷ 0 ∷ 0 ∷ 0x20 ∷ replicate 6 0
    else 0x40 ∷ 0 ∷ 0 ∷ 0xc0 ∷ 0 ∷ 0 ∷ 0 ∷ 0 ∷ 0 ∷ 0x20 ∷ replicate 6 0

-- the passes, and the end of the ring
abbrev accesses : List Event → List (ℕ × ℕ)
accesses [] = []
accesses (read_at a ∷ rest) = (a, 16) ∷ accesses rest
accesses (ring_end base end len ∷ rest) = (base, len) ∷ accesses rest
accesses (_ ∷ rest) = accesses rest

snapshot_accesses : ℕ → List (ℕ × ℕ)
unfolding snapshot finish observe round decode_round buffer_events readable_ram any_region
    ram_contains safe_ram_type dma_end le32 le64 rtl_length
snapshot_accesses base = accesses (snapshot max_uintn (some two_regions) ring (some base) base true)

snapshot_accesses-ring :
    snapshot_accesses 0x1000
    ≡ (0x1000, 16) ∷ (0x1000, 16) ∷ (0x1010, 16) ∷ (0x1010, 16) ∷ (0x1000, 32) ∷ []
unfolding snapshot_accesses
snapshot_accesses-ring = refl

-- a ring behind the map is not read
snapshot_accesses-unmapped : snapshot_accesses 0x3000 ≡ []
unfolding snapshot_accesses
snapshot_accesses-unmapped = refl

abbrev acpi : AcpiConstants
acpi = record { address_space_descriptor = 0x8a; descriptor_len = 43; type_mem = 0 }

-- the configuration space of a network card that the program decodes
abbrev card_config : Bytes
card_config =
    0xec
    ∷ 0x10
    ∷ 0x68
    ∷ 0x81
    ∷ 7
    ∷ 0
    ∷ 0
    ∷ 0
    ∷ 0x15
    ∷ 0
    ∷ 0
    ∷ 2
    ∷ 0
    ∷ 0
    ∷ 0
    ∷ 0
    ∷ 1
    ∷ 0xe0
    ∷ 0
    ∷ 0
    ∷ 0
    ∷ 0
    ∷ 0
    ∷ 0
    ∷ 4
    ∷ 0
    ∷ 0
    ∷ 0xf0
    ∷ replicate 36 0

abbrev card : NicIo
card = record {
  protocol = success;
  config = λ offset count. some card_config;
  bar_attributes = λ bar. some (record {
    desc = 0x8a;
    len = 43;
    res_type = 0;
    addr_range_min = 0xf000_0000;
    addr_len = 0x1000;
  });
  register = λ offset n. some (0x1000, 0);
  descriptor_size = 40;
  map_services = λ offset. record {
    get_memory_map = λ call capacity. record {
      status = if ltb capacity 96 then error buffer_too_small else success;
      size = 96;
      stride = 48;
      descriptors = two_regions;
    };
    allocates = λ call capacity. true;
  };
  memory = λ offset. ring;
}

-- how often registers were read, and memory
abbrev count_reads : List ScanEvent → ℕ × ℕ
count_reads [] = (0, 0)
count_reads (mmio_read io bar offset ∷ rest) = let (r, m) = count_reads rest in (r + 1, m)
count_reads (observed io bar offset (read_at a) ∷ rest) =
    let (r, m) = count_reads rest in (r, m + 1)
count_reads (_ ∷ rest) = count_reads rest

reads_of : Text → List Text → ℕ × ℕ
unfolding get_map attempts shell_app_main scan scan_handles inspect realtek show_rings show_ring
    read_base power_d0 find_power capability_d0 find_mmio snapshot finish observe round decode_round
    buffer_events readable_ram any_region ram_contains safe_ram_type dma_end le32 le64 rtl_length
reads_of name arguments =
    count_reads (shell_app_main max_uintn acpi (name ∷ arguments) (success, card ∷ [])).1

reads_of-plain : reads_of (codes "NicDmaScan.efi") [] ≡ (3, 0)
unfolding reads_of
reads_of-plain = refl

reads_of-identity : reads_of (codes "NicDmaScan.efi") (codes "--identity-map" ∷ []) ≡ (3, 8)
unfolding reads_of
reads_of-identity = refl

ram_contains_iff_example :
    (ram_contains 0x1000 2 0x1000 0x2000 ≡ true) ↔ IsInside 0x1000 2 0x1000 0x2000
ram_contains_iff_example = ram_contains_iff 0x1000 2 0x1000 0x2000 (omega arith)

snapshot-AreSafe_example :
    AreSafe max_uintn
      (regions (some two_regions))
      (snapshot max_uintn (some two_regions) ring (some 0x1000) 0x1000 true)
snapshot-AreSafe_example =
    snapshot-AreSafe max_uintn (some two_regions) ring (some 0x1000) 0x1000 true

abbrev arguments : List Text
arguments = codes "NicDmaScan.efi" ∷ codes "--identity-map" ∷ []

shell_app_main-AreGated_example :
    AreGated max_uintn acpi
      (asserts_identity arguments)
      (card ∷ [])
      (shell_app_main max_uintn acpi arguments (success, card ∷ [])).1
shell_app_main-AreGated_example =
    shell_app_main-AreGated max_uintn acpi arguments success (card ∷ [])

-- a map of 96 bytes, two descriptors, that has grown to three when it is asked for
abbrev growing : MapServices
growing = record {
  get_memory_map = λ call capacity.
      let size = if call == 0 then 96 else 144 in
      record {
        status = if ltb capacity size then error buffer_too_small else success;
        size = size;
        stride = 48;
        descriptors = [];
      };
  allocates = λ call capacity. true;
}

grown : Option MemoryMap
unfolding get_map attempts
grown = get_map (2 ^ 64 - 1) 40 growing

grown-map : grown ≡ some (record { capacity = 864; size = 144; stride = 48; descriptors = [] })
unfolding grown
grown-map = refl

growing-MapsFit : MapsFit (2 ^ 64 - 1) 40 growing
growing-MapsFit call capacity h = ground (arith, h)

grown-IsMap : IsMap (2 ^ 64 - 1) 40 growing (get_map (2 ^ 64 - 1) 40 growing)
grown-IsMap = get_map-IsMap (2 ^ 64 - 1) 40 growing growing-MapsFit
