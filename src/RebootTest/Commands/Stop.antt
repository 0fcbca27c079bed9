-- ===== src/RebootTest/Commands/Stop.antt =====
-- Applications/RebootTest/RebootTest.c: `StopTest`, `ShowStatus` and the `clear` command.
use uefi_tools_pkg.Base.{ℕ, ◌≡◌, ◌∙◌, Option, none, false}
use uefi_tools_pkg.Efi.{efi_error, is_not_found, success}
use uefi_tools_pkg.Action.Ends.{Ends, Ends-if, Ends-bind}
use uefi_tools_pkg.RebootTest.State.{Bytes}
use uefi_tools_pkg.RebootTest.Firmware.{Firmware}
use uefi_tools_pkg.RebootTest.Firmware.Laws.{FileLaws}
use uefi_tools_pkg.RebootTest.Store.Load.{load_state-Loads}
use uefi_tools_pkg.RebootTest.Store.Save.{save_state-Leaves, delete_state-Leaves}
use uefi_tools_pkg.RebootTest.Commands.{stop_test, show_status, clear_test}
use uefi_tools_pkg.RebootTest.Commands.Reset.{report-Ends}
use uefi_tools_pkg.RebootTest.Commands.Stored.{
  stopped_state, IsDisarmed, none-IsDisarmed, stopped-IsDisarmed, IsStored-IsWellFormed,
  IsWellFormed-stopped,
}

module _ {W H : Type 0} {fw : Firmware W H} {file : W → Option Bytes} {cursor : H → W → ℕ}
    (laws : FileLaws fw file cursor) where
  -- With firmware that keeps the file laws: `StopTest` never resets the machine, and where it
  -- returns success, no active state is stored.
  pub stop_test-Ends :
      (w : W)
      → Ends
          (λ _ _. ⊥)
          (λ status w'. efi_error status ≡ false → IsDisarmed fw (file w'))
          (stop_test fw w)
  unfolding stop_test
  stop_test-Ends w =
      Ends-bind _ _ w (load_state-Loads laws w) λ (status, s) w1 (keep, missing, stored).
        Ends-if (is_not_found status) _ _ w1
          (λ e.
            report-Ends laws _ success w1
              λ w2 k2 _. none-IsDisarmed laws (file w2) (k2 ∙ keep ∙ missing e))
          λ _.
            Ends-if (efi_error status) _ _ w1 (λ e. report-Ends laws _ status w1 (λ _ _ good. cc))
              λ e. Ends-bind _ _ w1 (save_state-Leaves laws (stopped_state s) w1) λ saved w2 left.
                Ends-if (efi_error saved) _ _ w2
                  (λ e'. report-Ends laws _ saved w2 (λ _ _ good. cc))
                  λ e'. report-Ends laws _ success w2 λ w3 k3 _.
                    stopped-IsDisarmed laws (file w3) s
                      (IsWellFormed-stopped s (IsStored-IsWellFormed (file w) s (stored e)))
                      (k3 ∙ left e')

  -- `ShowStatus` never resets the machine and leaves the file alone.
  pub show_status-keeps : (w : W) → Ends (λ _ _. ⊥) (λ _ w'. file w' ≡ file w) (show_status fw w)
  unfolding show_status
  show_status-keeps w = Ends-bind _ _ w (load_state-Loads laws w) λ (status, s) w1 loads.
      Ends-if (is_not_found status) _ _ w1 (λ _. report-Ends laws _ success w1 λ _ k. k ∙ loads.0)
        λ _.
          Ends-if (efi_error status) _ _ w1 (λ _. report-Ends laws _ status w1 λ _ k. k ∙ loads.0)
            λ _. report-Ends laws _ success w1 λ _ k. k ∙ loads.0

  -- With firmware that keeps the file laws: `clear` never resets the machine, and where it returns
  -- success, the file is gone.
  pub clear_test-Ends :
      (w : W)
      → Ends (λ _ _. ⊥) (λ status w'. efi_error status ≡ false → file w' ≡ none) (clear_test fw w)
  unfolding clear_test
  clear_test-Ends w = Ends-bind _ _ w (delete_state-Leaves laws w) λ status w1 gone.
      Ends-if (efi_error status) _ _ w1 (λ e. report-Ends laws _ status w1 (λ _ _ good. cc))
        λ e. report-Ends laws _ status w1 (λ _ k _. k ∙ gone e)
