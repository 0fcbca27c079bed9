-- ===== src/VarEditor/Load.antt =====
-- Applications/RuntimeVarEditor/RuntimeVarEditor.c: `RveReadVariableInfo`, `RveLoadVariables` and
-- `RveLoadVariableData`; no caller passes NULL.
pub mod Lists
pub mod Store
pub mod Read
use uefi_tools_pkg.Base.{
  ℕ, zero, suc, ◌+◌, ◌*◌, ◌%◌, Bool, true, false, ◌&&◌, ◌||◌, not, Option, none, some, List, [],
  ◌∷◌, ◌++◌, ltb, leb, ◌==◌, if◌then◌else◌, Text, length,
}
use uefi_tools_pkg.Efi.{
  Status, success, error, out_of_resources, bad_buffer_size, volume_full, efi_error, is_success,
  is_not_found, is_too_small,
}
use uefi_tools_pkg.VarEditor.Variable.{
  Variable, has, runtime_access, max_variables, initial_name_bytes, max_name_chars, max_edit_data,
  sort_variables,
}
use uefi_tools_pkg.VarEditor.Services.{
  Bytes, Got, NextName, Request, name_buffer, name_copy, variable_list, data_buffer, Services,
}

-- the messages that the tool writes into `Message`
pub data Note : Type 0 where
  invalid_name_request : Note
  tool_limit : ℕ → Note
  load_failed refresh_failed read_failed : Status → Note
  byte_written attributes_written deleted : Status → Note
  refreshed empty_variable read_only invalid_offset invalid_byte : Note
  byte_cancelled attributes_cancelled delete_cancelled : Note

-- the state of the loop, but for the variables found
pub record Cursor : Type 0 where
  pub name : Text
  pub guid : ℕ
  pub name_capacity : ℕ
  pub capacity : ℕ

-- how a round ends: the loop, with its status, or with the variables found so far
pub data Round : Type 0 where
  ended : Status → Option Note → Round
  continued : Cursor → List Variable → Round

-- the result of the loop; `unfinished` stands for a loop that did not end
pub data Loop : Type 0 where
  unfinished : Loop
  finished : Status → Option Note → List Variable → Loop

-- a variable of the zeroed array, with its name and GUID
abbrev pub new_variable : Text → ℕ → Variable
new_variable name guid = record {
  name = name;
  vendor_guid = guid;
  attributes = 0;
  data_size = 0;
  status = success;
}

abbrev pub first_cursor : Cursor
first_cursor = record { name = []; guid = 0; name_capacity = initial_name_bytes; capacity = 128 }

-- the variables are dropped on an error
abbrev pub loaded_variables : Loop → Option (Status × Option Note × List Variable)
loaded_variables unfinished = none
loaded_variables (finished status note found) =
    if efi_error status
    then some (status, note, [])
    else some (success, note, if ltb 1 (length found) then sort_variables found else found)

module _ {W : Type 0} (svc : Services W) where
  -- `GetVariable` sets the attributes and the size only where it succeeds or the buffer is too small.
  unfoldable pub read_variable_info : Variable → W → Status × Variable
  read_variable_info v w =
      let got = svc.get_variable v.name v.vendor_guid 0 w in
      if is_too_small got.status || is_success got.status
      then (
        success,
        record v { attributes = got.attributes; data_size = got.size; status = success },
      )
      else (got.status, record v { attributes = 0; data_size = 0; status = got.status })

  -- the end of a round, from the copy of the name on
  unfoldable pub add_variable : ℕ → Cursor → List Variable → W → Round
  add_variable round at found w =
      let grows = length found == at.capacity in
      let info = read_variable_info (new_variable at.name at.guid) w in
      if not (svc.allocates round (name_copy (length at.name + 1)) w)
      then ended (error out_of_resources) none
      else if grows && not (svc.allocates round (variable_list (at.capacity * 2)) w)
      then ended (error out_of_resources) none
      else continued (if grows then record at { capacity = at.capacity * 2 } else at) (
          if not (efi_error info.0) && has info.1.attributes runtime_access
          then found ++ (info.1 ∷ [])
          else found)

  -- the round on what the last call of `GetNextVariableName` returned
  unfoldable pub take_name : ℕ → Cursor → List Variable → NextName → W → Round
  take_name round at found next w =
      if is_not_found next.status
      then ended success none
      else if efi_error next.status
      then ended next.status none
      else if leb max_variables (length found)
      then ended next.status (some (tool_limit (length found)))
      else let at' = record at { name = next.name; guid = next.guid } in
        if ltb max_name_chars (length next.name)
        then continued at' found
        else add_variable round at' found w

  -- A name buffer that is too small is enlarged once, and the call repeated.
  unfoldable pub load_round : ℕ → Cursor → List Variable → W → Round
  load_round round at found w =
      let next = svc.next_variable_name at.name_capacity at.name at.guid w in
      if not (is_too_small next.status)
      then take_name round at found next w
      else if ltb ((max_name_chars + 1) * 2) next.size || not (next.size % 2 == 0)
      then ended (error bad_buffer_size) (some invalid_name_request)
      else if not (svc.allocates round (name_buffer next.size) w)
      then ended (error out_of_resources) none
      else take_name round (record at { name_capacity = next.size }) found
          (svc.next_variable_name next.size at.name at.guid w) w

  unfoldable pub load_loop : ℕ → ℕ → Cursor → List Variable → W → Loop
  load_loop zero round at found w = unfinished
  load_loop (suc fuel) round at found w = elim (load_round round at found w) [
    | ended status note ↦ finished status note found
    | continued at' found' ↦ load_loop fuel (round + 1) at' found' w
  ]

  -- `fuel` bounds the rounds; none is a loop that takes more.
  unfoldable pub load_variables : ℕ → W → Option (Status × Option Note × List Variable)
  load_variables fuel w =
      if not (svc.allocates 0 (variable_list 128) w)
      then some (error out_of_resources, none, [])
      else if not (svc.allocates 0 (name_buffer initial_name_bytes) w)
      then some (error out_of_resources, none, [])
      else loaded_variables (load_loop fuel 0 first_cursor [] w)

-- the data and its attributes
pub data Loaded : Type 0 where
  failed : Status → Loaded
  loaded : Bytes → ℕ → Loaded

module _ {W : Type 0} (svc : Services W) where
  unfoldable pub load_variable_data : Variable → W → Loaded
  load_variable_data v w =
      let got = svc.get_variable v.name v.vendor_guid 0 w in
      let again = svc.get_variable v.name v.vendor_guid got.size w in
      if not (is_too_small got.status) && not (is_success got.status && got.size == 0)
      then failed got.status
      else if ltb max_edit_data got.size
      then failed (error volume_full)
      else if not (svc.allocates 0 (data_buffer (if got.size == 0 then 1 else got.size)) w)
      then failed (error out_of_resources)
      else if got.size == 0
      then loaded [] got.attributes
      else if efi_error again.status
      then failed again.status
      else loaded again.bytes again.attributes
