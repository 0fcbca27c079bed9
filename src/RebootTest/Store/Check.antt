-- ===== src/RebootTest/Store/Check.antt =====
-- Applications/RebootTest/RebootTest.c: what `LoadState` accepts, `OpenStateRoot`.
use uefi_tools_pkg.Base.{ℕ, ◌≡◌, ◌∙◌, Option, false, arith}
use uefi_tools_pkg.Efi.{efi_error, is_not_found, success}
use uefi_tools_pkg.Action.Ends.{Ends, Ends-pure, Ends-call, Ends-if, Ends-bind_call}
use uefi_tools_pkg.RebootTest.State.{RebootState, Bytes, state_signature, state_version, encode}
use uefi_tools_pkg.RebootTest.State.Codec.{
  InRange, is_out_of_range-InRange, InRange-is_out_of_range,
}
use uefi_tools_pkg.RebootTest.Firmware.{Firmware}
use uefi_tools_pkg.RebootTest.Firmware.Laws.{FileLaws}
use uefi_tools_pkg.RebootTest.Store.{open_state_root, calculate_state_crc32, check_state}

module _ {W H : Type 0} (fw : Firmware W H) where
  -- the state with its checksum set
  abbrev pub seal : RebootState → RebootState
  seal s = record s { crc32 = (calculate_state_crc32 fw s).1 }

  -- A state that `LoadState` hands to its caller.
  pub record IsAccepted (s : RebootState) : Type 0 where
    pub right_signature : s.signature ≡ state_signature
    pub right_version : s.version ≡ state_version
    pub sealed : s.crc32 ≡ (calculate_state_crc32 fw s).1
    pub in_range : InRange s

  pub check_state-IsAccepted :
      (s : RebootState) → efi_error (check_state fw s) ≡ false → IsAccepted s
  unfolding check_state
  check_state-IsAccepted s h = ground (arith, is_out_of_range-InRange s)

  pub IsAccepted-check_state :
      (s : RebootState)
      → efi_error (calculate_state_crc32 fw s).0 ≡ false
      → IsAccepted s
      → check_state fw s ≡ success
  unfolding check_state
  IsAccepted-check_state s no_error a = ground (arith, InRange-is_out_of_range s a.in_range)

module _ {W H : Type 0} {fw : Firmware W H} {file : W → Option Bytes} {cursor : H → W → ℕ}
    (laws : FileLaws fw file cursor) {K : ℕ → W → Type 0} where
  pub open_state_root-keeps :
      (w : W)
      → Ends K (λ r w'. (file w' ≡ file w) × (is_not_found r.0 ≡ false)) (open_state_root fw w)
  unfolding open_state_root
  open_state_root-keeps w =
      let imaging = fw.loaded_image w in
      let w1 = imaging.1 in
      let locating = fw.file_system w1 in
      let w2 = locating.1 in
      let k1 = laws.loaded_image_keeps w in
      let k2 = laws.file_system_keeps w1 ∙ k1 in
      Ends-bind_call fw.loaded_image _ w (
        Ends-if (efi_error imaging.0) _ _ w1
          (λ _. Ends-pure (imaging.0, fw.null_handle) w1 (k1, laws.loaded_image_found w))
          λ _. Ends-bind_call fw.file_system _ w1 (
            Ends-if (efi_error locating.0) _ _ w2
              (λ _. Ends-pure (locating.0, fw.null_handle) w2 (k2, laws.file_system_found w1))
              λ _.
                Ends-call fw.open_volume w2
                  (laws.open_volume_keeps w2 ∙ k2, laws.open_volume_found w2)))

module _ {W H : Type 0} {fw : Firmware W H} {file : W → Option Bytes} {cursor : H → W → ℕ}
    (laws : FileLaws fw file cursor) where
  -- `LoadState`'s tests do not return EFI_NOT_FOUND.
  pub check_state_found : (s : RebootState) → is_not_found (check_state fw s) ≡ false
  unfolding check_state calculate_state_crc32
  check_state_found s = ground (arith, laws.crc32_found (encode (record s { crc32 = 0 })))
