-- ===== src/RebootTest/Firmware.antt =====
-- The UEFI services that Applications/RebootTest/RebootTest.c calls, as parameters: the world and the
-- handles are abstract. The console messages of the program are values that `print` takes.
pub mod Laws
use uefi_tools_pkg.Base.{ℕ}
use uefi_tools_pkg.Efi.{Status}
use uefi_tools_pkg.Action.{Op, Run}
use uefi_tools_pkg.RebootTest.State.{RebootState, Bytes}
use uefi_tools_pkg.RebootTest.Text.{Text}

-- one constructor for each `Print` of the program, with the values it shows
pub data Message : Type 0 where
  usage count_range bad_reset_type delay_range : Message
  reset_in : ℕ → Message
  stop_save_failed create_failed : Status → Message
  stopped_by_user reset_returned : Message
  requesting_reset : ℕ → Message
  cleanup_failed : Status → Message
  armed : RebootState → Message
  idle no_file : Message
  refusing invalid invalid_use_clear : Status → Message
  inactive passed progress status_of stopped : RebootState → Message
  pass_save_failed progress_save_failed delete_failed : Status → Message
  removed : Message

-- the modes that the program opens its state file with
pub data OpenMode : Type 0 where
  read read_write create : OpenMode

-- `W` is the machine, `H` the handles of files and events. `HandleProtocol` is there once for each
-- protocol that the program asks for. The path is the constant `REBOOT_TEST_STATE_PATH`.
pub record Firmware (W H : Type 0) : Type 0 where
  -- NULL, which a handle holds before it is set
  pub null_handle : H
  pub loaded_image : Op W Status
  pub file_system : Op W Status
  pub open_volume : Op W (Status × H)
  pub open_file : H → OpenMode → Op W (Status × H)
  -- the bytes read; their number is what `Size` is set to
  pub read_file : H → ℕ → Op W (Status × Bytes)
  -- the number of bytes written
  pub write_file : H → Bytes → Op W (Status × ℕ)
  pub set_position : H → ℕ → Op W Status
  pub flush_file : H → Op W Status
  pub close_file : H → Op W Status
  -- `Delete` closes the file too
  pub delete_file : H → Op W Status
  pub calculate_crc32 : Bytes → Status × ℕ
  pub create_event : Op W (Status × H)
  pub set_timer : H → ℕ → Op W Status
  -- the index of the event that came: 0 for a key, 1 for the timer
  pub wait_for_event : H → Op W (Status × ℕ)
  pub close_event : H → Op W Status
  pub read_key_stroke : Op W Status
  -- the given reset type; where it returns, the machine was not restarted
  pub reset_system : ℕ → W → Run W (Unit {0})
  pub print : Message → Op W (Unit {0})
