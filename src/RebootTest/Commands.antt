-- ===== src/RebootTest/Commands.antt =====
-- Applications/RebootTest/RebootTest.c: the commands. `Argv` is the list of arguments, `Argc` its length.
pub mod Reset
pub mod Stored
pub mod Continue
pub mod Campaign
pub mod Start
pub mod Stop
pub mod Main
use uefi_tools_pkg.Base.{
  ℕ, ◌+◌, ◌*◌, ◌%◌, ◌^◌, ◌||◌, not, Option, none, some, List, [], ltb, leb, ◌==◌, if◌then◌else◌,
  length, get_or,
}
use uefi_tools_pkg.Efi.{
  Status, success, error, invalid_parameter, device_error, aborted, efi_error, is_not_found,
  is_aborted,
}
use uefi_tools_pkg.Action.{Action, pure, call, ◌>>=◌, ◌>>◌}
use uefi_tools_pkg.RebootTest.State.{
  RebootState, zero_state, state_signature, state_version, default_delay, max_delay, max_count,
  reset_cold, reset_warm,
}
use uefi_tools_pkg.RebootTest.Text.{Text, codes, str_equals_ignore_case, parse_uint32}
use uefi_tools_pkg.RebootTest.Firmware.{Firmware, Message}
use uefi_tools_pkg.RebootTest.Store.{load_state, save_state, delete_state}

-- what `StartTest` stores, before the options
abbrev pub fresh_state : ℕ → RebootState
fresh_state count = record zero_state {
  signature = state_signature;
  version = state_version;
  active = 1;
  reset_type = reset_warm;
  target_resets = count;
  delay_seconds = default_delay;
}

-- `Argv[2]`: the count, where the test on it passes
unfoldable pub start_count : List Text → Option ℕ
start_count argv =
    if ltb (length argv) 3 || ltb 5 (length argv)
    then none
    else elim (parse_uint32 (get_or argv 2 [])) [
      | none ↦ none
      | some count ↦ if count == 0 || ltb max_count count then none else some count
    ]

-- `Argv[3]`: the reset type, which is warm if it is left out
unfoldable pub start_type : List Text → Option ℕ
start_type argv =
    if not (leb 4 (length argv))
    then some reset_warm
    else if str_equals_ignore_case (get_or argv 3 []) (codes "warm")
    then some reset_warm
    else if str_equals_ignore_case (get_or argv 3 []) (codes "cold")
    then some reset_cold
    else none

-- `Argv[4]`: the delay, which is 3 if it is left out
unfoldable pub start_delay : List Text → Option ℕ
start_delay argv =
    if not (length argv == 5) then some default_delay else elim (parse_uint32 (get_or argv 4 [])) [
      | none ↦ none
      | some delay ↦ if delay == 0 || ltb max_delay delay then none else some delay
    ]

module _ {W H : Type 0} (fw : Firmware W H) where
  -- `Print` and return
  unfoldable pub report : Message → Status → Action W Status
  report message status = do call (fw.print message); pure status

  -- what `WaitForResetOrKey` makes of the event
  unfoldable pub wait_end : Status → ℕ → Action W Status
  wait_end status index =
      if efi_error status
      then pure status
      else if index == 0
      then (do call fw.read_key_stroke; pure (error aborted))
      else pure success

  unfoldable pub wait_for_reset_or_key : ℕ → Action W Status
  wait_for_reset_or_key delay = do
    call (fw.print (Message.reset_in delay))
    (created, timer) ← call fw.create_event
    if efi_error created then pure created else do
      armed ← call (fw.set_timer timer (10000000 * delay % 2 ^ 64))
      if efi_error armed then (do call (fw.close_event timer); pure armed) else do
        (status, index) ← call (fw.wait_for_event timer)
        call (fw.close_event timer)
        wait_end status index

  unfoldable pub reset_system_for_test : RebootState → Action W Status
  reset_system_for_test s = do
    waited ← wait_for_reset_or_key s.delay_seconds
    if is_aborted waited
        then (do
          saved ← save_state fw (record s { active = 0 })
          if efi_error saved
              then report (Message.stop_save_failed saved) saved
              else report Message.stopped_by_user (error aborted))
        else if efi_error waited
        then pure waited
        else do
          call (fw.print (Message.requesting_reset s.reset_type))
          fw.reset_system s.reset_type
          saved ← save_state fw (record s { active = 0 })
          report (if efi_error saved then Message.cleanup_failed saved else Message.reset_returned)
              (error device_error)

  -- behind the checks of the arguments
  unfoldable pub arm : RebootState → Action W Status
  arm s = do
    saved ← save_state fw s
    if efi_error saved
        then report (Message.create_failed saved) saved
        else do call (fw.print (Message.armed s)); reset_system_for_test s

  -- The arguments are checked in this order; the checks have no effects.
  unfoldable pub start_with : Option ℕ → Option ℕ → Option ℕ → Action W Status
  start_with none kind delay = report Message.count_range (error invalid_parameter)
  start_with (some count) none delay = report Message.bad_reset_type (error invalid_parameter)
  start_with (some count) (some kind) none = report Message.delay_range (error invalid_parameter)
  start_with (some count) (some kind) (some delay) =
      arm (record (fresh_state count) { reset_type = kind; delay_seconds = delay })

  unfoldable pub start_test : List Text → Action W Status
  start_test argv = start_with (start_count argv) (start_type argv) (start_delay argv)

  -- `ContinueTest` on an active state, after `CompletedResets++`
  unfoldable pub advance : RebootState → Action W Status
  advance s =
      if leb s.target_resets s.completed_resets
      then (do
        saved ← save_state fw (record s { active = 0 })
        if efi_error saved
            then report (Message.pass_save_failed saved) saved
            else report (Message.passed (record s { active = 0 })) success)
      else do
        saved ← save_state fw s
        if efi_error saved
            then report (Message.progress_save_failed saved) saved
            else do call (fw.print (Message.progress s)); reset_system_for_test s

  unfoldable pub continue_test : Action W Status
  continue_test = do
    (status, s) ← load_state fw
    if is_not_found status
        then report Message.idle success
        else if efi_error status
        then report (Message.refusing status) status
        else if s.active == 0
        then report (Message.inactive s) success
        else advance (record s { completed_resets = (s.completed_resets + 1) % 2 ^ 32 })

  unfoldable pub show_status : Action W Status
  show_status = do
    (status, s) ← load_state fw
    if is_not_found status
        then report Message.no_file success
        else if efi_error status
        then report (Message.invalid status) status
        else report (Message.status_of s) success

  unfoldable pub stop_test : Action W Status
  stop_test = do
    (status, s) ← load_state fw
    if is_not_found status
        then report Message.no_file success
        else if efi_error status
        then report (Message.invalid_use_clear status) status
        else do
          saved ← save_state fw (record s { active = 0 })
          if efi_error saved
              then report (Message.stop_save_failed saved) saved
              else report (Message.stopped (record s { active = 0 })) success

  -- the `clear` branch of `ShellAppMain`
  unfoldable pub clear_test : Action W Status
  clear_test = do
    status ← delete_state fw
    if efi_error status
        then report (Message.delete_failed status) status
        else report Message.removed status

  unfoldable pub shell_app_main : List Text → Action W Status
  shell_app_main argv =
      let action = get_or argv 1 [] in
      if ltb (length argv) 2
      then report Message.usage (error invalid_parameter)
      else if str_equals_ignore_case action (codes "start")
      then start_test argv
      else if str_equals_ignore_case action (codes "continue")
      then continue_test
      else if str_equals_ignore_case action (codes "status")
      then show_status
      else if str_equals_ignore_case action (codes "stop")
      then stop_test
      else if str_equals_ignore_case action (codes "clear")
      then clear_test
      else report Message.usage (error invalid_parameter)
