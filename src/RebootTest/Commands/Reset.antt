-- ===== src/RebootTest/Commands/Reset.antt =====
-- Applications/RebootTest/RebootTest.c: `WaitForResetOrKey` and `ResetSystemForTest`.
use uefi_tools_pkg.Base.{ℕ, ◌≡◌, refl, ◌∙◌, sym, subst, Option, true, ◌==◌}
use uefi_tools_pkg.Efi.{efi_error, is_aborted, Status, success, error, aborted, device_error}
use uefi_tools_pkg.Action.Ends.{Ends, Ends-pure, Ends-if, Ends-bind, Ends-bind_keep, Ends-mono}
use uefi_tools_pkg.RebootTest.State.{RebootState, Bytes}
use uefi_tools_pkg.RebootTest.Firmware.{Firmware, Message}
use uefi_tools_pkg.RebootTest.Firmware.Laws.{FileLaws}
use uefi_tools_pkg.RebootTest.Store.Save.{save_state-Leaves}
use uefi_tools_pkg.RebootTest.Commands.{
  wait_end, wait_for_reset_or_key, reset_system_for_test, report,
}

module _ {W H : Type 0} {fw : Firmware W H} {file : W → Option Bytes} {cursor : H → W → ℕ}
    (laws : FileLaws fw file cursor) {K : ℕ → W → Type 0} where
  pub report-Ends :
      {Q : Status → W → Type 0} (message : Message) (status : Status) (w : W)
      → ((w' : W) → file w' ≡ file w → Q status w')
      → Ends K Q (report fw message status w)
  unfolding report
  report-Ends message status w q =
      Ends-bind_keep file (fw.print message) _ w (laws.print_keeps message)
        λ _ w' k. Ends-pure status w' (q w' k)

  wait_end-keeps :
      (status : Status) (index : ℕ) (w : W)
      → Ends K (λ _ w'. file w' ≡ file w) (wait_end fw status index w)
  unfolding wait_end
  wait_end-keeps status index w =
      Ends-if (efi_error status) _ _ w (λ _. Ends-pure status w refl)
        λ _.
          Ends-if (index == 0) _ _ w
            (λ _.
              Ends-bind_keep file fw.read_key_stroke _ w laws.read_key_keeps
                λ _ w1 k1. Ends-pure (error aborted) w1 k1)
            λ _. Ends-pure success w refl

  wait_for_reset_or_key-keeps :
      (delay : ℕ) (w : W) → Ends K (λ _ w'. file w' ≡ file w) (wait_for_reset_or_key fw delay w)
  unfolding wait_for_reset_or_key
  wait_for_reset_or_key-keeps delay w =
      Ends-bind_keep file (fw.print (Message.reset_in delay)) _ w (laws.print_keeps _) λ _ w1 k1.
        Ends-bind_keep file fw.create_event _ w1 laws.create_event_keeps λ (created, timer) w2 k2.
          Ends-if (efi_error created) _ _ w2 (λ _. Ends-pure created w2 (k2 ∙ k1))
            λ _.
              Ends-bind_keep file (fw.set_timer timer _) _ w2 (laws.set_timer_keeps timer _)
                λ armed w3 k3.
                  Ends-if (efi_error armed) _ _ w3
                    (λ _.
                      Ends-bind_keep file (fw.close_event timer) _ w3 (laws.close_event_keeps timer)
                        λ _ w4 k4. Ends-pure armed w4 (k4 ∙ k3 ∙ k2 ∙ k1))
                    λ _.
                      Ends-bind_keep file (fw.wait_for_event timer) _ w3 (laws.wait_keeps timer)
                        λ (status, index) w4 k4.
                          Ends-bind_keep file (fw.close_event timer) _ w4
                            (laws.close_event_keeps timer)
                            λ _ w5 k5.
                              Ends-mono (wait_end-keeps status index w5) (λ _ _ k. k)
                                λ _ _ k6. k6 ∙ (k5 ∙ k4 ∙ k3 ∙ k2 ∙ k1)

  -- The machine is asked to reset with the type of the state, and on the file as it was; if the
  -- function returns at all, it returns an error.
  pub reset_system_for_test-Ends :
      (s : RebootState) (w : W)
      → ((w' : W) → file w' ≡ file w → K s.reset_type w')
      → Ends K (λ status _. efi_error status ≡ true) (reset_system_for_test fw s w)
  unfolding reset_system_for_test
  reset_system_for_test-Ends s w k =
      Ends-bind _ _ w (wait_for_reset_or_key-keeps s.delay_seconds w) λ waited w1 k1.
        Ends-if (is_aborted waited) _ _ w1
          (λ _. Ends-bind _ _ w1 (save_state-Leaves laws (record s { active = 0 }) w1) λ saved w2 _.
            Ends-if (efi_error saved) _ _ w2
              (λ e. report-Ends (Message.stop_save_failed saved) saved w2 (λ _ _. e))
              λ _. report-Ends Message.stopped_by_user (error aborted) w2 (λ _ _. refl))
          λ _.
            Ends-if (efi_error waited) _ _ w1 (λ e. Ends-pure waited w1 e)
              λ _. Ends-bind_keep file (fw.print _) _ w1 (laws.print_keeps _) λ _ w2 k2.
                Ends-bind _ _ w2
                  (Ends-mono (laws.reset_keeps s.reset_type w2)
                    (λ t w' r. subst (λ n. K n w') (sym r.0) (k w' (r.1 ∙ k2 ∙ k1))) (λ a w' r. r))
                  λ _ w3 _.
                    Ends-bind _ _ w3 (save_state-Leaves laws (record s { active = 0 }) w3)
                      λ saved w4 _. report-Ends _ (error device_error) w4 (λ _ _. refl)
