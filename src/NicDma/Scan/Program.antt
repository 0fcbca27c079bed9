-- ===== src/NicDma/Scan/Program.antt =====
-- Applications/NicDmaScan/NicDmaScan.c: the gates over `Realtek` and all of `ShellAppMain`.
use Prim.Native.Nat.{bit_and}
use uefi_tools_pkg.Base.{
  ℕ, ◌%◌, ◌^◌, ◌≡◌, Bool, true, false, some, List, [], ◌∷◌, ◌++◌, ◌==◌, Bool-cases, Option-cases,
  inl, inr, Text, length,
}
use uefi_tools_pkg.Efi.{Status, efi_error, is_not_found}
use uefi_tools_pkg.NicDma.Decode.{Bytes, byte_at}
use uefi_tools_pkg.NicDma.Device.{AcpiConstants, power_d0, find_mmio}
use uefi_tools_pkg.NicDma.Scan.{
  NicIo, ScanEvent, totals, realtek, is_allowed, inspect, scan_handles, scan, asserts_identity,
  shell_app_main,
}
use uefi_tools_pkg.NicDma.Scan.Gate.{
  IsOpen, Some, AreGated, AreGated-append, IsListed, show_rings-AreGated,
}

module _ (max_uintn : ℕ) (acpi : AcpiConstants) (identity : Bool) (handles : List NicIo) where
  realtek-AreGated :
      (io : NicIo) (cfg : Bytes) (failures : ℕ)
      → IsListed max_uintn acpi identity handles io
      → io.config 0 64 ≡ some cfg
      → is_allowed cfg ≡ true
      → AreGated max_uintn acpi identity handles (realtek max_uintn acpi identity io cfg failures).1
  unfolding realtek
  realtek-AreGated io cfg failures listed is_read allowed =
      elim (Bool-cases (bit_and (byte_at cfg 4) 2 == 0)) [
        | inl e ↦ rw e (tt, tt)
        | inr enabled ↦ elim (Bool-cases (power_d0 io.config cfg)) [
          | inr e ↦ rw (enabled, e) (tt, tt)
          | inl in_d0 ↦ elim (Option-cases (find_mmio acpi io.bar_attributes cfg)) [
            | inl e ↦ rw (enabled, in_d0, e) (tt, tt)
            | inr (bar, found) ↦
                let gate : IsOpen acpi io bar = record {
                  cfg = cfg;
                  is_read = is_read;
                  allowed = allowed;
                  enabled = enabled;
                  in_d0 = in_d0;
                  found = found;
                } in
                rw (enabled, in_d0, found)
                  (show_rings-AreGated max_uintn acpi identity handles io bar
                    (0x20 ∷ 0x28 ∷ 0xe4 ∷ []) failures [] listed gate tt)
          ]
        ]
      ]

  inspect-AreGated :
      (io : NicIo) (networks failures : ℕ)
      → IsListed max_uintn acpi identity handles io
      → AreGated max_uintn acpi identity handles
          (inspect max_uintn acpi identity io networks failures).2
  unfolding inspect
  inspect-AreGated io networks failures listed = elim (Bool-cases (efi_error io.protocol)) [
    | inl e ↦ rw e tt
    | inr opens ↦ elim (Option-cases (io.config 0 64)) [
      | inl e ↦ rw (opens, e) tt
      | inr (cfg, e) ↦ elim (Bool-cases (byte_at cfg 11 == 2)) [
        | inr k ↦ rw (opens, e, k) tt
        | inl k ↦ elim (Bool-cases (is_allowed cfg)) [
          | inl a ↦ rw (opens, e, k, a) (tt, realtek-AreGated io cfg failures listed e a)
          | inr a ↦ rw (opens, e, k, a) (tt, (tt, tt))
        ]
      ]
    ]
  ]

  scan_handles-AreGated :
      (rest : List NicIo) (networks failures : ℕ) (shown : List ScanEvent)
      → ((P : NicIo → Type 0) → Some P rest → Some P handles)
      → AreGated max_uintn acpi identity handles shown
      → AreGated max_uintn acpi identity handles
          (scan_handles max_uintn acpi identity rest networks failures shown).2
  unfolding scan_handles
  scan_handles-AreGated [] networks failures shown listed h = h
  scan_handles-AreGated (io ∷ rest) networks failures shown listed h =
      let r = inspect max_uintn acpi identity io networks failures in
      scan_handles-AreGated rest r.0 r.1 (shown ++ r.2) (λ P s. listed P (inr s))
        (AreGated-append max_uintn acpi identity handles shown r.2 h
          (inspect-AreGated io networks failures (λ P p. listed P (inl p))))

  scan-AreGated :
      (status : Status)
      → AreGated max_uintn acpi identity handles (scan max_uintn acpi identity (status, handles)).1
  unfolding scan
  scan-AreGated status = elim (Bool-cases (is_not_found status)) [
    | inl e ↦ rw e (tt, tt)
    | inr k ↦ elim (Bool-cases (efi_error status)) [
      | inl e ↦ rw (k, e) (tt, tt)
      | inr k' ↦
          let r = scan_handles max_uintn acpi identity handles 0 0 [] in
          rw (k, k')
            (AreGated-append max_uintn acpi identity handles r.2
              (totals (r.0 % 2 ^ 32) (r.1 % 2 ^ 32) ∷ [])
              (scan_handles-AreGated handles 0 0 [] (λ P s. s) tt) (tt, tt))
    ]
  ]

-- In all that the program does, registers are read only of a device of the list that was itself checked:
-- the known kind, memory decoding enabled, in D0, and a BAR of memory, the one read. Memory is read only
-- for such a device, if the arguments assert the identity mapping, and then only in safe RAM of the
-- memory map that was asked for it.
pub shell_app_main-AreGated :
    (max_uintn : ℕ) (acpi : AcpiConstants) (argv : List Text) (status : Status)
    (handles : List NicIo)
    → AreGated max_uintn acpi
        (asserts_identity argv)
        handles
        (shell_app_main max_uintn acpi argv (status, handles)).1
unfolding shell_app_main
shell_app_main-AreGated max_uintn acpi argv status handles =
    elim (Bool-cases (asserts_identity argv)) [
      | inl e ↦ rw e (scan-AreGated max_uintn acpi true handles status)
      | inr k ↦ elim (Bool-cases (length argv == 1)) [
        | inl e ↦ rw (k, e) (scan-AreGated max_uintn acpi false handles status)
        | inr e ↦ rw (k, e) (tt, tt)
      ]
    ]
