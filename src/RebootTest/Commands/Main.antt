-- ===== src/RebootTest/Commands/Main.antt =====
-- Applications/RebootTest/RebootTest.c: `ShellAppMain`.
use uefi_tools_pkg.Base.{ℕ, ◌≡◌, Option, true, false, ◌⊎◌, inl, inr, List, [], ltb, length, get_or}
use uefi_tools_pkg.Efi.{efi_error, Status, error, invalid_parameter}
use uefi_tools_pkg.Action.Ends.{Ends, Ends-if, Ends-mono}
use uefi_tools_pkg.RebootTest.State.{Bytes}
use uefi_tools_pkg.RebootTest.Text.{Text, codes, str_equals_ignore_case}
use uefi_tools_pkg.RebootTest.Firmware.{Firmware}
use uefi_tools_pkg.RebootTest.Firmware.Laws.{FileLaws}
use uefi_tools_pkg.RebootTest.Commands.{shell_app_main}
use uefi_tools_pkg.RebootTest.Commands.Reset.{report-Ends}
use uefi_tools_pkg.RebootTest.Commands.Continue.{Continues, continue_test-Ends}
use uefi_tools_pkg.RebootTest.Commands.Start.{Starts, start_test-Ends}
use uefi_tools_pkg.RebootTest.Commands.Stop.{stop_test-Ends, show_status-keeps, clear_test-Ends}
use uefi_tools_pkg.RebootTest.Commands.Stored.{IsDisarmed, none-IsDisarmed}

abbrev pub IsCommand : List Text → Text → Type 0
IsCommand argv name = str_equals_ignore_case (get_or argv 1 []) name ≡ true

-- why the machine was reset: the command, and what it had established
abbrev pub MayReset :
    {W H : Type 0} → Firmware W H → List Text → Option Bytes → ℕ → Option Bytes → Type 0
MayReset fw argv held t kept =
    (IsCommand argv (codes "start") × Starts fw argv t kept)
    ⊎ (IsCommand argv (codes "continue") × Continues fw held t kept)

-- what success means: the file is as it was, as after `status`, or no active state is stored
abbrev pub Succeeds :
    {W H : Type 0} → Firmware W H → List Text → Option Bytes → Status → Option Bytes → Type 0
Succeeds fw argv held status kept =
    efi_error status ≡ false
    → (IsCommand argv (codes "status") × (kept ≡ held)) ⊎ IsDisarmed fw kept

module _ {W H : Type 0} {fw : Firmware W H} {file : W → Option Bytes} {cursor : H → W → ℕ}
    (laws : FileLaws fw file cursor) where
  -- With firmware that keeps the file laws: whatever the arguments, the program resets the machine
  -- only by `start` or `continue`, with the state saved as these promise; where it returns success,
  -- the command was `status` and the file is as it was, or no active state is stored.
  pub shell_app_main-Ends :
      (argv : List Text) (w : W)
      → Ends
          (λ t w'. MayReset fw argv (file w) t (file w'))
          (λ status w'. Succeeds fw argv (file w) status (file w'))
          (shell_app_main fw argv w)
  unfolding shell_app_main
  shell_app_main-Ends argv w =
      Ends-if (ltb (length argv) 2) _ _ w
        (λ _. report-Ends laws _ (error invalid_parameter) w (λ _ _ good. cc))
        λ _.
          Ends-if (str_equals_ignore_case (get_or argv 1 []) (codes "start")) _ _ w
            (λ c.
              Ends-mono (start_test-Ends laws argv w) (λ _ _ k. inl (c, k)) (λ _ _ bad good. cc))
            λ _.
              Ends-if (str_equals_ignore_case (get_or argv 1 []) (codes "continue")) _ _ w
                (λ c.
                  Ends-mono (continue_test-Ends laws w) (λ _ _ k. inr (c, k))
                    (λ _ _ h good. inr (h good)))
                λ _.
                  Ends-if (str_equals_ignore_case (get_or argv 1 []) (codes "status")) _ _ w
                    (λ c.
                      Ends-mono (show_status-keeps laws w) (λ _ _ k. absurd k)
                        (λ _ _ same _. inl (c, same)))
                    λ _.
                      Ends-if (str_equals_ignore_case (get_or argv 1 []) (codes "stop")) _ _ w
                        (λ _.
                          Ends-mono (stop_test-Ends laws w) (λ _ _ k. absurd k)
                            (λ _ _ h good. inr (h good)))
                        λ _.
                          Ends-if (str_equals_ignore_case (get_or argv 1 []) (codes "clear")) _ _ w
                            (λ _.
                              Ends-mono (clear_test-Ends laws w) (λ _ _ k. absurd k)
                                (λ _ w' h good. inr (none-IsDisarmed laws (file w') (h good))))
                            λ _. report-Ends laws _ (error invalid_parameter) w (λ _ _ good. cc)
