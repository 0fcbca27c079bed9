-- ===== src/RebootTest/Sample.antt =====
-- A machine for the tests of Applications/RebootTest/RebootTest.c: one state file on a volume that
-- never fails, a timer, and a user who may press a key during the delay.
use uefi_tools_pkg.Base.{
  ℕ, ◌+◌, ◌%◌, ◌^◌, ◌≡◌, refl, Option, none, some, Bool, false, List, [], ◌∷◌, ◌++◌, arith, length,
  take, drop, if◌then◌else◌,
}
use uefi_tools_pkg.Efi.{efi_error, Status, success, error, not_found}
use uefi_tools_pkg.Action.{Op, restarted}
use uefi_tools_pkg.Action.Ends.{reset}
use uefi_tools_pkg.RebootTest.State.{Bytes}
use uefi_tools_pkg.RebootTest.Firmware.{Firmware, Message, OpenMode}
use uefi_tools_pkg.RebootTest.Firmware.Laws.{FileLaws, contents, overwrite}

pub record Machine : Type 0 where
  pub volume : Option Bytes
  pub position : ℕ
  pub key_pressed : Bool
  pub console : List Message

abbrev pub fine : Op Machine Status
fine m = (success, m)

abbrev pub open_on : OpenMode → Option Bytes → Machine → (Status × ℕ) × Machine
open_on OpenMode.create held m =
    ((success, 2), record m { volume = some (contents held); position = 0 })
open_on mode none m = ((error not_found, 0), m)
open_on mode (some bytes) m = ((success, 2), record m { position = 0 })

abbrev pub read_on : ℕ → Machine → (Status × Bytes) × Machine
read_on n m =
    let got = take n (drop m.position (contents m.volume)) in
    ((success, got), record m { position = m.position + length got })

abbrev pub write_on : Bytes → Machine → (Status × ℕ) × Machine
write_on new m = (
  (success, length new),
  record m {
    volume = some (overwrite m.position (take (length new) new) (contents m.volume));
    position = m.position + length new;
  },
)

abbrev pub byte_sum : Bytes → ℕ
byte_sum [] = 7
byte_sum (b ∷ bs) = b + byte_sum bs

abbrev pub machine : Firmware Machine ℕ
machine = record {
  null_handle = 0;
  loaded_image = fine;
  file_system = fine;
  open_volume = λ m. ((success, 1), m);
  open_file = λ h mode m. open_on mode m.volume m;
  read_file = λ h n m. read_on n m;
  write_file = λ h new m. write_on new m;
  set_position = λ h n m. (success, record m { position = n });
  flush_file = λ h. fine;
  close_file = λ h. fine;
  delete_file = λ h m. (success, record m { volume = none });
  calculate_crc32 = λ bytes. (success, byte_sum bytes % 2 ^ 32);
  create_event = λ m. ((success, 3), m);
  set_timer = λ h n. fine;
  wait_for_event = λ h m. ((success, if m.key_pressed then 0 else 1), m);
  close_event = λ h. fine;
  read_key_stroke = λ m. (success, record m { key_pressed = false });
  reset_system = λ t m. restarted t m;
  print = λ message m. (tt, record m { console = m.console ++ (message ∷ []) });
}

abbrev pub volume_of : Machine → Option Bytes
volume_of m = m.volume

abbrev pub position_of : ℕ → Machine → ℕ
position_of h m = m.position

open_on_found :
    (held : Option Bytes) (m : Machine)
    → efi_error (open_on OpenMode.read held m).0.0 ≡ false
    → (bytes : Bytes) × (held ≡ some bytes) × ((open_on OpenMode.read held m).1.position ≡ 0)
open_on_found none m e = absurd (cc)
open_on_found (some bytes) m e = (bytes, refl, refl)

pub machine-laws : FileLaws machine volume_of position_of
machine-laws = record {
  loaded_image_keeps = λ w. refl;
  file_system_keeps = λ w. refl;
  open_volume_keeps = λ w. refl;
  loaded_image_found = λ w. refl;
  file_system_found = λ w. refl;
  open_volume_found = λ w. refl;
  read_found = λ h n w. refl;
  crc32_found = λ bytes. refl;
  open_read_keeps = λ h w. ground arith;
  open_write_keeps = λ h w. ground arith;
  open_found = λ h w e. open_on_found w.volume w e;
  open_read_missing = λ h w e. ground arith;
  open_write_missing = λ h w e. ground arith;
  open_create = λ h w e. refl;
  read_keeps = λ h n w. refl;
  read_gives = λ h n w bytes held e. rw held (refl, refl);
  write_gives = λ h new w old held e. rw held refl;
  set_position_keeps = λ h n w. refl;
  set_position_moves = λ h n w e. refl;
  flush_keeps = λ h w. refl;
  close_keeps = λ h w. refl;
  crc32-lt = λ bytes. omega arith;
  create_event_keeps = λ w. refl;
  set_timer_keeps = λ h n w. refl;
  wait_keeps = λ h w. refl;
  close_event_keeps = λ h w. refl;
  read_key_keeps = λ w. refl;
  print_keeps = λ m w. refl;
  reset_keeps = λ t w. reset (refl, refl);
}
