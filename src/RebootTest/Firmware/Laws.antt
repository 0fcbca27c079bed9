-- ===== src/RebootTest/Firmware/Laws.antt =====
-- What Applications/RebootTest/RebootTest.c relies on in the UEFI services: the documented
-- behaviour of the file protocol on the one file that the program names, and that no other service
-- touches that file.
use uefi_tools_pkg.Base.{
  ℕ, ◌+◌, ◌<◌, ◌^◌, ◌≡◌, Option, none, some, [], ◌++◌, true, false, length, take, drop,
}
use uefi_tools_pkg.Efi.{efi_error, is_not_found}
use uefi_tools_pkg.Action.Ends.{Ends}
use uefi_tools_pkg.RebootTest.State.{Bytes}
use uefi_tools_pkg.RebootTest.Firmware.{Firmware, Message, OpenMode}

-- a file that is opened with EFI_FILE_MODE_CREATE is made if it is not there, and is not truncated
abbrev pub contents : Option Bytes → Bytes
contents none = []
contents (some bytes) = bytes

abbrev pub overwrite : ℕ → Bytes → Bytes → Bytes
overwrite at new old = take at old ++ (new ++ drop (at + length new) old)

-- `file` is what the volume holds under the program's path, and `cursor` the position of a handle.
pub record FileLaws {W H : Type 0} (fw : Firmware W H) (file : W → Option Bytes)
    (cursor : H → W → ℕ) : Type 0 where
  pub loaded_image_keeps : (w : W) → file (fw.loaded_image w).1 ≡ file w
  pub file_system_keeps : (w : W) → file (fw.file_system w).1 ≡ file w
  pub open_volume_keeps : (w : W) → file (fw.open_volume w).1 ≡ file w
  -- these services do not return EFI_NOT_FOUND
  pub loaded_image_found : (w : W) → is_not_found (fw.loaded_image w).0 ≡ false
  pub file_system_found : (w : W) → is_not_found (fw.file_system w).0 ≡ false
  pub open_volume_found : (w : W) → is_not_found (fw.open_volume w).0.0 ≡ false
  pub read_found : (h : H) (n : ℕ) (w : W) → is_not_found (fw.read_file h n w).0.0 ≡ false
  pub crc32_found : (bytes : Bytes) → is_not_found (fw.calculate_crc32 bytes).0 ≡ false
  pub open_read_keeps : (h : H) (w : W) → file (fw.open_file h OpenMode.read w).1 ≡ file w
  pub open_write_keeps : (h : H) (w : W) → file (fw.open_file h OpenMode.read_write w).1 ≡ file w
  pub open_found :
      (h : H) (w : W)
      → efi_error (fw.open_file h OpenMode.read w).0.0 ≡ false
      → let ((status, opened), w') = fw.open_file h OpenMode.read w in
        (bytes : Bytes) × (file w ≡ some bytes) × (cursor opened w' ≡ 0)
  pub open_read_missing :
      (h : H) (w : W) → is_not_found (fw.open_file h OpenMode.read w).0.0 ≡ true → file w ≡ none
  pub open_write_missing :
      (h : H) (w : W)
      → is_not_found (fw.open_file h OpenMode.read_write w).0.0 ≡ true
      → file w ≡ none
  pub open_create :
      (h : H) (w : W)
      → efi_error (fw.open_file h OpenMode.create w).0.0 ≡ false
      → file (fw.open_file h OpenMode.create w).1 ≡ some (contents (file w))
  pub read_keeps : (h : H) (n : ℕ) (w : W) → file (fw.read_file h n w).1 ≡ file w
  pub read_gives :
      (h : H) (n : ℕ) (w : W) (bytes : Bytes)
      → file w ≡ some bytes
      → efi_error (fw.read_file h n w).0.0 ≡ false
      → let ((status, got), w') = fw.read_file h n w in
        (got ≡ take n (drop (cursor h w) bytes)) × (cursor h w' ≡ cursor h w + length got)
  pub write_gives :
      (h : H) (new : Bytes) (w : W) (old : Bytes)
      → file w ≡ some old
      → efi_error (fw.write_file h new w).0.0 ≡ false
      → let ((status, size), w') = fw.write_file h new w in
        file w' ≡ some (overwrite (cursor h w) (take size new) old)
  pub set_position_keeps : (h : H) (n : ℕ) (w : W) → file (fw.set_position h n w).1 ≡ file w
  pub set_position_moves :
      (h : H) (n : ℕ) (w : W)
      → efi_error (fw.set_position h n w).0 ≡ false
      → cursor h (fw.set_position h n w).1 ≡ n
  pub flush_keeps : (h : H) (w : W) → file (fw.flush_file h w).1 ≡ file w
  pub close_keeps : (h : H) (w : W) → file (fw.close_file h w).1 ≡ file w
  pub crc32-lt : (bytes : Bytes) → (fw.calculate_crc32 bytes).1 < 2 ^ 32
  pub create_event_keeps : (w : W) → file (fw.create_event w).1 ≡ file w
  pub set_timer_keeps : (h : H) (n : ℕ) (w : W) → file (fw.set_timer h n w).1 ≡ file w
  pub wait_keeps : (h : H) (w : W) → file (fw.wait_for_event h w).1 ≡ file w
  pub close_event_keeps : (h : H) (w : W) → file (fw.close_event h w).1 ≡ file w
  pub read_key_keeps : (w : W) → file (fw.read_key_stroke w).1 ≡ file w
  pub print_keeps : (m : Message) (w : W) → file (fw.print m w).1 ≡ file w
  pub reset_keeps :
      (t : ℕ) (w : W)
      → Ends
          (λ t' w'. (t' ≡ t) × (file w' ≡ file w))
          (λ _ w'. file w' ≡ file w)
          (fw.reset_system t w)
