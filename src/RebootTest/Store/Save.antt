-- ===== src/RebootTest/Store/Save.antt =====
-- Applications/RebootTest/RebootTest.c: what a successful `DeleteState` and `SaveState` have done.
use uefi_tools_pkg.Base.{
  ℕ, zero, suc, ◌≡◌, refl, ◌∙◌, Option, none, some, true, false, not, ◌==◌, arith, length, take,
  drop, take-length, if◌then◌else◌, [],
}
use mathlib.Core.List.{append-nil}
use uefi_tools_pkg.Efi.{efi_error, is_success, is_not_found, Status, success, error, device_error}
use uefi_tools_pkg.Action.Ends.{
  Ends, Ends-pure, Ends-call, Ends-if, Ends-bind, Ends-bind_call, Ends-bind_keep,
}
use uefi_tools_pkg.RebootTest.State.{RebootState, Bytes, state_size, encode}
use uefi_tools_pkg.RebootTest.State.Codec.{length-encode}
use uefi_tools_pkg.RebootTest.Firmware.{Firmware, OpenMode}
use uefi_tools_pkg.RebootTest.Firmware.Laws.{FileLaws, overwrite}
use uefi_tools_pkg.RebootTest.Store.{
  or_close_error, verify_deleted, delete_opened, delete_state, write_state, save_opened, save_state,
  calculate_state_crc32,
}
use uefi_tools_pkg.RebootTest.Store.Check.{seal, open_state_root-keeps}

-- if the status is no error, the volume holds this
abbrev pub Leaves : {W : Type 0} → (W → Option Bytes) → Option Bytes → Status → W → Type 0
Leaves file held status w = efi_error status ≡ false → file w ≡ held

or_close_error-Leaves :
    {W : Type 0} (file : W → Option Bytes) (held : Option Bytes) (status closed : Status) (w w' : W)
    → file w' ≡ file w
    → Leaves file held status w
    → Leaves file held (or_close_error status closed) w'
or_close_error-Leaves file held status closed w w' keep h good = keep ∙ h (ground arith)

close_error-good :
    (closed : Status)
    → efi_error (if efi_error closed then closed else success) ≡ false
    → efi_error closed ≡ false
close_error-good closed good = ground arith

delete_error-bad :
    (deleted : Status)
    → efi_error (if efi_error deleted then deleted else error device_error) ≡ true
delete_error-bad deleted = ground arith

drop-nil : (n : ℕ) → drop {A = ℕ} n [] ≡ []
drop-nil zero = refl
drop-nil (suc n) = refl

-- 24 bytes that were all written at the start of an empty file are its contents
written_whole :
    (bytes : Bytes) (size at : ℕ) (held : Option Bytes)
    → held ≡ some (overwrite at (take size bytes) [])
    → at ≡ 0
    → not (size == state_size) ≡ false
    → length bytes ≡ 24
    → held ≡ some bytes
written_whole bytes size at held h start all n =
    let all' : size ≡ 24 = ground arith in
    h ∙ rw (start, all', take-length 24 bytes n, drop-nil, append-nil)

module _ {W H : Type 0} {fw : Firmware W H} {file : W → Option Bytes} {cursor : H → W → ℕ}
    (laws : FileLaws fw file cursor) {K : ℕ → W → Type 0} where
  verify_deleted-Leaves :
      (status : Status) (h : H) (w : W)
      → (is_not_found status ≡ true → file w ≡ none)
      → Ends K (Leaves file none) (verify_deleted fw status h w)
  unfolding verify_deleted
  verify_deleted-Leaves status h w gone =
      Ends-if (is_not_found status) _ _ w (λ e. Ends-pure success w (λ _. gone e))
        λ _.
          Ends-if (is_success status) _ _ w
            (λ _.
              Ends-bind_keep file (fw.close_file h) _ w (laws.close_keeps h)
                λ _ w1 _. Ends-pure (error device_error) w1 (λ good. cc))
            λ _.
              Ends-if (not (efi_error status)) _ _ w
                (λ _. Ends-pure (error device_error) w (λ good. cc))
                λ e. Ends-pure status w (λ good. ground (arith, e, good))

  delete_opened-Leaves :
      (root h : H) (w : W) → Ends K (Leaves file none) (delete_opened fw root h w)
  unfolding delete_opened
  delete_opened-Leaves root h w =
      let deleting = fw.delete_file h w in
      let w1 = deleting.1 in
      let reopening = fw.open_file root OpenMode.read w1 in
      Ends-bind_call (fw.delete_file h) _ w (
        Ends-if (not (is_success deleting.0)) _ _ w1
          (λ e. Ends-bind_keep file (fw.close_file root) _ w1 (laws.close_keeps root) λ _ w2 _.
            Ends-pure _ w2 (λ good. absurd (ground (arith, delete_error-bad deleting.0, good))))
          λ e. Ends-bind_call (fw.open_file root OpenMode.read) _ w1 (
            Ends-bind _ _ reopening.1
              (verify_deleted-Leaves reopening.0.0 reopening.0.1 reopening.1
                (λ missing. laws.open_read_keeps root w1 ∙ laws.open_read_missing root w1 missing))
              λ status w3 h3.
                Ends-bind_keep file (fw.close_file root) _ w3 (laws.close_keeps root)
                  λ closed w4 k4.
                    Ends-pure (or_close_error status closed) w4
                      (or_close_error-Leaves file none status closed w3 w4 k4 h3)))

  -- With firmware that keeps the file laws: `DeleteState` succeeds only where the file is gone.
  pub delete_state-Leaves : (w : W) → Ends K (Leaves file none) (delete_state fw w)
  unfolding delete_state
  delete_state-Leaves w = Ends-bind _ _ w (open_state_root-keeps laws w) λ (opened, root) w1 _.
      Ends-if (efi_error opened) _ _ w1 (λ e. Ends-pure opened w1 (λ good. cc))
        λ _.
          let opening = fw.open_file root OpenMode.read_write w1 in
          let keep = laws.open_write_keeps root w1 in
          Ends-bind_call (fw.open_file root OpenMode.read_write) _ w1 (
            Ends-if (is_not_found opening.0.0) _ _ opening.1
              (λ missing.
                Ends-bind_keep file (fw.close_file root) _ _ (laws.close_keeps root) λ closed w2 k2.
                  Ends-pure _ w2 (λ good. k2 ∙ keep ∙ laws.open_write_missing root w1 missing))
              λ _.
                Ends-if (efi_error opening.0.0) _ _ opening.1
                  (λ e.
                    Ends-bind_keep file (fw.close_file root) _ _ (laws.close_keeps root)
                      λ _ w2 _. Ends-pure opening.0.0 w2 (λ good. cc))
                  λ _. delete_opened-Leaves root opening.0.1 opening.1)

  write_state-Leaves :
      (h : H) (bytes : Bytes) (w : W)
      → length bytes ≡ 24
      → file w ≡ some []
      → Ends K (Leaves file (some bytes)) (write_state fw h bytes w)
  unfolding write_state
  write_state-Leaves h bytes w size empty =
      let positioning = fw.set_position h 0 w in
      let w1 = positioning.1 in
      let writing = fw.write_file h bytes w1 in
      let w2 = writing.1 in
      let empty1 = laws.set_position_keeps h 0 w ∙ empty in
      Ends-bind_call (fw.set_position h 0) _ w (
        Ends-if (efi_error positioning.0) _ _ w1 (λ e. Ends-pure positioning.0 w1 (λ good. cc))
          λ p. Ends-bind_call (fw.write_file h bytes) _ w1 (
            Ends-if (efi_error writing.0.0) _ _ w2 (λ e. Ends-pure writing.0.0 w2 (λ good. cc))
              λ e.
                Ends-if (not (writing.0.1 == state_size)) _ _ w2
                  (λ _. Ends-pure (error device_error) w2 (λ good. cc))
                  λ all. Ends-call (fw.flush_file h) w2 (λ _.
                    laws.flush_keeps h w2
                    ∙ written_whole bytes _ _ _ (laws.write_gives h bytes w1 [] empty1 e)
                        (laws.set_position_moves h 0 w p) all size)))

  save_opened-Leaves :
      (root : H) (bytes : Bytes) (w : W)
      → length bytes ≡ 24
      → file w ≡ none
      → Ends K (Leaves file (some bytes)) (save_opened fw root bytes w)
  unfolding save_opened
  save_opened-Leaves root bytes w size gone =
      let creating = fw.open_file root OpenMode.create w in
      let h = creating.0.1 in
      Ends-bind_call (fw.open_file root OpenMode.create) _ w (
        Ends-if (efi_error creating.0.0) _ _ creating.1
          (λ e.
            Ends-bind_keep file (fw.close_file root) _ _ (laws.close_keeps root)
              λ _ w2 _. Ends-pure creating.0.0 w2 (λ good. cc))
          λ e.
            let empty : file creating.1 ≡ some [] = laws.open_create root w e ∙ rw gone in
            Ends-bind _ _ creating.1 (write_state-Leaves h bytes creating.1 size empty)
              λ written w2 p2.
                Ends-bind_keep file (fw.close_file h) _ w2 (laws.close_keeps h) λ closed w3 k3.
                  Ends-bind_keep file (fw.close_file root) _ w3 (laws.close_keeps root)
                    λ closed' w4 k4.
                      Ends-pure (or_close_error (or_close_error written closed) closed') w4 (
                        or_close_error-Leaves file _ _ closed' w3 w4 k4
                          (or_close_error-Leaves file _ written closed w2 w3 k3 p2)))

  -- With firmware that keeps the file laws: `SaveState` succeeds only where the file holds the 24
  -- bytes of the sealed state.
  pub save_state-Leaves :
      (s : RebootState) (w : W)
      → Ends K (Leaves file (some (encode (seal fw s)))) (save_state fw s w)
  unfolding save_state
  save_state-Leaves s w =
      Ends-if (efi_error (calculate_state_crc32 fw s).0) _ _ w
        (λ e. Ends-pure (calculate_state_crc32 fw s).0 w (λ good. cc))
        λ _. Ends-bind _ _ w (delete_state-Leaves w) λ deleted w1 gone.
          Ends-if (efi_error deleted) _ _ w1 (λ e. Ends-pure deleted w1 (λ good. cc))
            λ e. Ends-bind _ _ w1 (open_state_root-keeps laws w1) λ (opened, root) w2 k2.
              Ends-if (efi_error opened) _ _ w2 (λ e. Ends-pure opened w2 (λ good. cc))
                λ _.
                  save_opened-Leaves root (encode (seal fw s)) w2 (length-encode (seal fw s))
                    (k2.0 ∙ gone e)
