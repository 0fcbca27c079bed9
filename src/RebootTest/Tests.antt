-- ===== src/RebootTest/Tests.antt =====
-- Runs of Applications/RebootTest/RebootTest.c on the sample machine, and each theorem at a concrete input.
use uefi_tools_pkg.Base.{
  ℕ, ◌+◌, ◌≤◌, ◌≡◌, refl, ◌↔◌, none, some, true, false, List, [], ◌∷◌, ◌-◌, leb, not, ◌&&◌,
  if◌then◌else◌,
}
use uefi_tools_pkg.Efi.{efi_error, Status, success, error, compromised_data}
use uefi_tools_pkg.Action.{Run, done, restarted, ◌>>=◌}
use uefi_tools_pkg.Action.Ends.{Ends}
use uefi_tools_pkg.RebootTest.State.{RebootState, encode, decode, is_other_format, is_out_of_range}
use uefi_tools_pkg.RebootTest.Text.{max_uint32, Text, codes, str_equals_ignore_case, parse_uint32}
use uefi_tools_pkg.RebootTest.Text.Parse.{parse_uint32-decimal, is_empty, all_digits, decimal}
use uefi_tools_pkg.RebootTest.Text.Match.{Matches, str_equals_ignore_case_iff}
use uefi_tools_pkg.RebootTest.Store.{
  load_state, save_state, delete_state, calculate_state_crc32, open_state_root, read_state,
  check_state, accept, load_opened, verify_deleted, delete_opened, write_state, save_opened,
}
use uefi_tools_pkg.RebootTest.Store.Check.{seal}
use uefi_tools_pkg.RebootTest.Store.Load.{Loads, load_state-Loads}
use uefi_tools_pkg.RebootTest.Store.Save.{Leaves, save_state-Leaves, delete_state-Leaves}
use uefi_tools_pkg.RebootTest.Commands.{
  continue_test, stop_test, clear_test, start_test, show_status, shell_app_main, report, wait_end,
  wait_for_reset_or_key, reset_system_for_test, arm, start_with, start_count, start_type,
  start_delay, advance,
}
use uefi_tools_pkg.RebootTest.Commands.Continue.{Continues, continue_test-Ends}
use uefi_tools_pkg.RebootTest.Commands.Campaign.{
  last, boot, remaining, Boots-bounded, IsDisarmed-Boots,
}
use uefi_tools_pkg.RebootTest.Commands.Start.{
  start_state, Starts, start_test-Ends, start-Boots-bounded,
}
use uefi_tools_pkg.RebootTest.Commands.Stop.{stop_test-Ends, clear_test-Ends}
use uefi_tools_pkg.RebootTest.Commands.Main.{MayReset, Succeeds, shell_app_main-Ends}
use uefi_tools_pkg.RebootTest.Commands.Stored.{IsDisarmed, none-IsDisarmed}
use uefi_tools_pkg.RebootTest.Sample.{Machine, machine, machine-laws, volume_of}

abbrev blank : Machine
blank = record { volume = none; position = 0; key_pressed = false; console = [] }

abbrev arguments : List Text
arguments = codes "startup.nsh.efi" ∷ codes "start" ∷ codes "3" ∷ codes "COLD" ∷ codes "5" ∷ []

abbrev holding : RebootState → Machine
holding s = record blank { volume = some (encode (seal machine s)) }

abbrev machine_after : {A : Type 0} → Run Machine A → Machine
machine_after (done a m) = m
machine_after (restarted t m) = m

abbrev first_state : RebootState
first_state = start_state 3 0 5

program : List Text → Machine → Run Machine Status
unfolding shell_app_main start_test start_with start_count start_type start_delay arm report
    parse_uint32 str_equals_ignore_case save_state delete_state open_state_root delete_opened
    verify_deleted save_opened write_state calculate_state_crc32 encode reset_system_for_test
    wait_for_reset_or_key wait_end continue_test advance load_state load_opened read_state accept
    check_state decode is_other_format is_out_of_range stop_test clear_test show_status ◌>>=◌
    remaining
program = shell_app_main machine

abbrev run_continue : Machine → Run Machine Status
run_continue = continue_test machine

abbrev started : Machine
started = machine_after (start_test machine arguments blank)

abbrev boot_1 : Machine
boot_1 = machine_after (run_continue started)

abbrev boot_2 : Machine
boot_2 = machine_after (run_continue boot_1)

abbrev boot_3 : Machine
boot_3 = machine_after (run_continue boot_2)

run_start : program arguments blank ≡ restarted 0 (record started { position = 24 })
unfolding program
run_start = refl

start_saves : started.volume ≡ some (encode (seal machine first_state))
unfolding program
start_saves = refl

-- three resets in all, then success and an inactive state
run_campaign :
    (run_continue started ≡ restarted 0 boot_1)
    × (run_continue boot_1 ≡ restarted 0 boot_2)
    × (run_continue boot_2 ≡ done success boot_3)
    × (run_continue boot_3 ≡ done success (machine_after (run_continue boot_3)))
unfolding program
run_campaign = (refl, refl, refl, refl)

-- a key during the delay stops the test
run_key :
    (machine_after (run_continue (record started { key_pressed = true }))).volume
    ≡ some (encode (seal machine (record first_state { active = 0; completed_resets = 1 })))
unfolding program
run_key = refl

-- a file with one byte changed is refused
run_damaged :
    run_continue (record blank { volume = some (1 ∷ encode first_state) })
    ≡ done
        (error compromised_data)
        (machine_after (run_continue (record blank { volume = some (1 ∷ encode first_state) })))
unfolding program
run_damaged = refl

shell_app_main-Ends_example :
    Ends
      (λ t m. MayReset machine arguments none t m.volume)
      (λ status m. Succeeds machine arguments none status m.volume)
      (shell_app_main machine arguments blank)
shell_app_main-Ends_example = shell_app_main-Ends machine-laws arguments blank

continue_test-Ends_example :
    Ends
      (λ t m. Continues machine started.volume t m.volume)
      (λ status m. efi_error status ≡ false → IsDisarmed machine m.volume)
      (run_continue started)
continue_test-Ends_example = continue_test-Ends machine-laws started

start_test-Ends_example :
    Ends
      (λ t m. Starts machine arguments t m.volume)
      (λ status m. efi_error status ≡ true)
      (start_test machine arguments blank)
start_test-Ends_example = start_test-Ends machine-laws arguments blank

start-Boots-bounded_example : 2 + 1 ≤ 3
unfolding program
start-Boots-bounded_example =
    start-Boots-bounded machine-laws arguments blank {t = 0} {w1 = started} {w2 = started} refl refl
      refl
      (boot {t = 0} {w1 = boot_1} {w2 = boot_1} refl refl
        (boot {t = 0} {w1 = boot_2} {w2 = boot_2} refl refl last))

Boots-bounded_example : 1 ≤ remaining started.volume - 1
unfolding program
Boots-bounded_example =
    Boots-bounded machine-laws {w = started}
      (boot {t = 0} {w1 = boot_1} {w2 = boot_1} refl refl last)

IsDisarmed-Boots_example : ◌≡◌ {A = ℕ} 0 0
IsDisarmed-Boots_example =
    IsDisarmed-Boots machine-laws {w = blank} (none-IsDisarmed machine-laws none refl) last

stop_test-Ends_example :
    Ends
      (λ _ _. ⊥)
      (λ status m. efi_error status ≡ false → IsDisarmed machine m.volume)
      (stop_test machine started)
stop_test-Ends_example = stop_test-Ends machine-laws started

clear_test-Ends_example :
    Ends
      (λ _ _. ⊥)
      (λ status m. efi_error status ≡ false → m.volume ≡ none)
      (clear_test machine started)
clear_test-Ends_example = clear_test-Ends machine-laws started

load_state-Loads_example :
    Ends (λ _ _. ⊥) (Loads machine volume_of started) (load_state machine started)
load_state-Loads_example = load_state-Loads machine-laws started

save_state-Leaves_example :
    Ends
      (λ _ _. ⊥)
      (Leaves volume_of (some (encode (seal machine first_state))))
      (save_state machine first_state started)
save_state-Leaves_example = save_state-Leaves machine-laws first_state started

delete_state-Leaves_example : Ends (λ _ _. ⊥) (Leaves volume_of none) (delete_state machine started)
delete_state-Leaves_example = delete_state-Leaves machine-laws started

str_equals_ignore_case_iff_example :
    (str_equals_ignore_case (codes "COLD") (codes "cold") ≡ true)
    ↔ Matches (codes "COLD") (codes "cold")
str_equals_ignore_case_iff_example = str_equals_ignore_case_iff (codes "COLD") (codes "cold")

parse_uint32-decimal_example : parse_uint32 (codes "4294967296") ≡ (
    if not (is_empty (codes "4294967296"))
      && (all_digits (codes "4294967296") && leb (decimal 0 (codes "4294967296")) max_uint32)
    then some (decimal 0 (codes "4294967296"))
    else none)
parse_uint32-decimal_example = parse_uint32-decimal (codes "4294967296")
