-- ===== src/RebootTest/Store.antt =====
-- Applications/RebootTest/RebootTest.c: the state file. Each function is in the order of the source, with its
-- early returns as branches.
pub mod Check
pub mod Load
pub mod Save
use uefi_tools_pkg.Base.{ℕ, ◌&&◌, not, ◌==◌, if◌then◌else◌, length}
use uefi_tools_pkg.Efi.{
  Status, success, error, device_error, compromised_data, crc_error, efi_error, is_success,
  is_not_found,
}
use uefi_tools_pkg.Action.{Action, pure, call, ◌>>=◌, ◌>>◌}
use uefi_tools_pkg.RebootTest.State.{
  RebootState, Bytes, zero_state, state_size, encode, decode, is_other_format, is_out_of_range,
}
use uefi_tools_pkg.RebootTest.Firmware.{Firmware, OpenMode}

-- `if (!EFI_ERROR (Status) && EFI_ERROR (CloseStatus)) Status = CloseStatus;`
abbrev pub or_close_error : Status → Status → Status
or_close_error status close_status =
    if not (efi_error status) && efi_error close_status then close_status else status

-- a byte behind the state is an error
abbrev pub reject_extra : Status → Bytes → Status
reject_extra status extra =
    if not (efi_error status) && not (length extra == 0) then error compromised_data else status

module _ {W H : Type 0} (fw : Firmware W H) where
  unfoldable pub open_state_root : Action W (Status × H)
  open_state_root = do
    image ← call fw.loaded_image
    if efi_error image then pure (image, fw.null_handle) else do
      system ← call fw.file_system
      if efi_error system then pure (system, fw.null_handle) else call fw.open_volume

  unfoldable pub calculate_state_crc32 : RebootState → Status × ℕ
  calculate_state_crc32 s = fw.calculate_crc32 (encode (record s { crc32 = 0 }))

  -- the tests of `LoadState` on a file that was read whole
  unfoldable pub check_state : RebootState → Status
  unfolding is_other_format
  check_state s =
      if is_other_format s
      then error compromised_data
      else let (status, crc) = calculate_state_crc32 s in
        if efi_error status
        then status
        else if not (crc == s.crc32)
        then error crc_error
        else if is_out_of_range s
        then error compromised_data
        else success

  -- the two reads of `LoadState`: the status, and the bytes that the first one gave
  unfoldable pub read_state : H → Action W (Status × Bytes)
  read_state file = do
    (status, bytes) ← call (fw.read_file file state_size)
    if not (efi_error status) && (length bytes == state_size)
        then (do
          (again, extra) ← call (fw.read_file file 1)
          pure (reject_extra again extra, bytes))
        else pure (status, bytes)

  -- the tests of `LoadState` behind the two `Close` calls
  unfoldable pub accept : Status → Bytes → Status
  accept status bytes =
      if efi_error status
      then status
      else if not (length bytes == state_size)
      then error compromised_data
      else check_state (decode bytes)

  -- `LoadState` with the file open
  unfoldable pub load_opened : H → H → Action W (Status × RebootState)
  load_opened root file = do
    (status, bytes) ← read_state file
    call (fw.close_file file)
    call (fw.close_file root)
    pure (accept status bytes, decode bytes)

  unfoldable pub load_state : Action W (Status × RebootState)
  load_state = do
    (opened, root) ← open_state_root
    if efi_error opened then pure (opened, zero_state) else do
      (found, file) ← call (fw.open_file root OpenMode.read)
      if efi_error found
          then (do call (fw.close_file root); pure (found, zero_state))
          else load_opened root file

  -- what `DeleteState` makes of its second `Open`
  unfoldable pub verify_deleted : Status → H → Action W Status
  verify_deleted status file =
      if is_not_found status
      then pure success
      else if is_success status
      then (do call (fw.close_file file); pure (error device_error))
      else if not (efi_error status)
      then pure (error device_error)
      else pure status

  -- `DeleteState` with the file open
  unfoldable pub delete_opened : H → H → Action W Status
  delete_opened root file = do
    deleted ← call (fw.delete_file file)
    if not (is_success deleted)
        then (do
          call (fw.close_file root)
          pure (if efi_error deleted then deleted else error device_error))
        else do
          (reopened, again) ← call (fw.open_file root OpenMode.read)
          status ← verify_deleted reopened again
          closed ← call (fw.close_file root)
          pure (or_close_error status closed)

  unfoldable pub delete_state : Action W Status
  delete_state = do
    (opened, root) ← open_state_root
    if efi_error opened then pure opened else do
      (found, file) ← call (fw.open_file root OpenMode.read_write)
      if is_not_found found
          then (do
            closed ← call (fw.close_file root)
            pure (if efi_error closed then closed else success))
          else if efi_error found
          then (do call (fw.close_file root); pure found)
          else delete_opened root file

  -- `SetPosition`, `Write` and `Flush` of `SaveState`, each only if all before it went well
  unfoldable pub write_state : H → Bytes → Action W Status
  write_state file bytes = do
    positioned ← call (fw.set_position file 0)
    if efi_error positioned then pure positioned else do
      (written, size) ← call (fw.write_file file bytes)
      if efi_error written
          then pure written
          else if not (size == state_size)
          then pure (error device_error)
          else call (fw.flush_file file)

  -- `SaveState` behind the deletion, with the volume open
  unfoldable pub save_opened : H → Bytes → Action W Status
  save_opened root bytes = do
    (created, file) ← call (fw.open_file root OpenMode.create)
    if efi_error created then (do call (fw.close_file root); pure created) else do
      written ← write_state file bytes
      file_closed ← call (fw.close_file file)
      root_closed ← call (fw.close_file root)
      pure (or_close_error (or_close_error written file_closed) root_closed)

  unfoldable pub save_state : RebootState → Action W Status
  save_state s =
      let (status, crc) = calculate_state_crc32 s in
      if efi_error status then pure status else do
        deleted ← delete_state
        if efi_error deleted then pure deleted else do
          (opened, root) ← open_state_root
          if efi_error opened
              then pure opened
              else save_opened root (encode (record s { crc32 = crc }))
