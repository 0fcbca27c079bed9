-- ===== src/NicDma/Scan/Gate.antt =====
-- Applications/NicDmaScan/NicDmaScan.c: what must hold before registers or memory are read.
use Prim.Native.Nat.{bit_and}
use uefi_tools_pkg.Base.{
  ℕ, suc, ◌+◌, ◌%◌, ◌≡◌, refl, Bool, true, false, some, List, [], ◌∷◌, ◌++◌, map, ◌==◌, Bool-cases,
  Option-cases, ◌⊎◌, inl, inr,
}
use uefi_tools_pkg.NicDma.Decode.{Bytes, byte_at}
use uefi_tools_pkg.NicDma.Device.{AcpiConstants, power_d0, find_mmio}
use uefi_tools_pkg.NicDma.Snapshot.{Event, read_base, snapshot}
use uefi_tools_pkg.NicDma.Snapshot.Safe.{IsSafeEvent, AreSafe}
use uefi_tools_pkg.NicDma.Snapshot.Ring.{regions, snapshot-AreSafe}
use uefi_tools_pkg.NicDma.Scan.{
  memory_map, NicIo, ScanEvent, mmio_read, observed, base_unavailable, show_ring, show_rings,
  is_allowed,
}

-- The registers of the device may be read through `bar`: it is of the known kind, its memory decoding
-- is enabled, it is in D0, and the BAR is memory.
pub record IsOpen (acpi : AcpiConstants) (io : NicIo) (bar : ℕ) : Type 0 where
  pub cfg : Bytes
  pub is_read : io.config 0 64 ≡ some cfg
  pub allowed : is_allowed cfg ≡ true
  pub enabled : (bit_and (byte_at cfg 4) 2 == 0) ≡ false
  pub in_d0 : power_d0 io.config cfg ≡ true
  pub found : find_mmio acpi io.bar_attributes cfg ≡ some bar

-- a device of the list has the property
abbrev pub Some : (NicIo → Type 0) → List NicIo → Type 0
Some P [] = ⊥
Some P (io ∷ rest) = P io ⊎ Some P rest

-- Registers are read of an open device of the list only, and memory only for such a device, where the
-- user asserts the identity mapping, and then in safe RAM.
abbrev pub IsGated : ℕ → AcpiConstants → Bool → List NicIo → ScanEvent → Type 0
IsGated max_uintn acpi identity handles (mmio_read io bar offset) =
    Some (λ io'. io' ≡ io) handles × IsOpen acpi io bar
IsGated max_uintn acpi identity handles (observed io bar offset e) =
    (identity ≡ true)
    × Some (λ io'. io' ≡ io) handles
    × IsOpen acpi io bar
    × IsSafeEvent max_uintn (regions (memory_map max_uintn io offset)) e
IsGated max_uintn acpi identity handles _ = Unit {0}

abbrev pub AreGated : ℕ → AcpiConstants → Bool → List NicIo → List ScanEvent → Type 0
AreGated max_uintn acpi identity handles [] = Unit {0}
AreGated max_uintn acpi identity handles (e ∷ rest) =
    IsGated max_uintn acpi identity handles e × AreGated max_uintn acpi identity handles rest

module _ (max_uintn : ℕ) (acpi : AcpiConstants) (identity : Bool) (handles : List NicIo) where
  pub AreGated-append :
      (l k : List ScanEvent)
      → AreGated max_uintn acpi identity handles l
      → AreGated max_uintn acpi identity handles k
      → AreGated max_uintn acpi identity handles (l ++ k)
  AreGated-append [] k h g = g
  AreGated-append (e ∷ rest) k (s, h) g = (s, AreGated-append rest k h g)

  -- a device of the list
  abbrev pub IsListed : NicIo → Type 1
  IsListed io = (P : NicIo → Type 0) → P io → Some P handles

  observed-AreGated :
      (io : NicIo) (bar offset : ℕ) (l : List Event)
      → IsListed io
      → IsOpen acpi io bar
      → identity ≡ true
      → AreSafe max_uintn (regions (memory_map max_uintn io offset)) l
      → AreGated max_uintn acpi identity handles (map (observed io bar offset) l)
  observed-AreGated io bar offset [] listed gate asserted h = tt
  observed-AreGated io bar offset (e ∷ rest) listed gate asserted (s, h) = (
    (asserted, listed (λ (io' : NicIo). io' ≡ io) refl, gate, s),
    observed-AreGated io bar offset rest listed gate asserted h,
  )

  show_ring-AreGated :
      (io : NicIo) (bar offset base : ℕ)
      → IsListed io
      → IsOpen acpi io bar
      → AreGated max_uintn acpi identity handles
          (show_ring max_uintn acpi identity io bar offset base)
  unfolding show_ring
  show_ring-AreGated io bar offset base listed gate = elim (Bool-cases (offset == 0x28)) [
    | inl e ↦ rw e (tt, (tt, tt))
    | inr k ↦ elim (Bool-cases identity) [
      | inr e ↦ rw (k, e) (tt, (tt, tt))
      | inl e ↦
          rw (k, e)
            (
              tt,
              observed-AreGated io bar offset
                  (snapshot max_uintn (memory_map max_uintn io offset) (io.memory offset)
                    (read_base (io.register offset 2) (io.register offset 3)) base (offset == 0xe4))
                  listed gate e
                  (snapshot-AreSafe max_uintn (memory_map max_uintn io offset) (io.memory offset)
                    (read_base (io.register offset 2) (io.register offset 3)) base
                    (offset == 0xe4)),
            )
    ]
  ]

  pub show_rings-AreGated :
      (io : NicIo) (bar : ℕ) (offsets : List ℕ) (failures : ℕ) (shown : List ScanEvent)
      → IsListed io
      → IsOpen acpi io bar
      → AreGated max_uintn acpi identity handles shown
      → AreGated max_uintn acpi identity handles
          (show_rings max_uintn acpi identity io bar offsets failures shown).1
  unfolding show_rings
  show_rings-AreGated io bar [] failures shown listed gate h = h
  show_rings-AreGated io bar (offset ∷ rest) failures shown listed gate h =
      let touch : Some (λ io'. io' ≡ io) handles × IsOpen acpi io bar =
        (listed (λ (io' : NicIo). io' ≡ io) refl, gate) in
      elim (Option-cases (read_base (io.register offset 0) (io.register offset 1))) [
        | inl e ↦
            rw (e, show_rings)
              (show_rings-AreGated io bar rest ((failures + 1) % suc max_uintn)
                (shown ++ (mmio_read io bar offset ∷ base_unavailable offset ∷ [])) listed gate
                (AreGated-append shown (mmio_read io bar offset ∷ base_unavailable offset ∷ []) h
                  (touch, (tt, tt))))
        | inr (base, e) ↦
            let events = show_ring max_uintn acpi identity io bar offset base in
            rw (e, show_rings)
              (show_rings-AreGated io bar rest failures
                (shown ++ (mmio_read io bar offset ∷ events)) listed gate
                (AreGated-append shown (mmio_read io bar offset ∷ events) h
                  (touch, show_ring-AreGated io bar offset base listed gate)))
      ]
