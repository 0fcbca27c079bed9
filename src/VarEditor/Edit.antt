-- ===== src/VarEditor/Edit.antt =====
-- Applications/RuntimeVarEditor/RuntimeVarEditor.c: `RveEditByte`, `RveEditAttributes` and
-- `RveDeleteVariable`. What they draw is not modelled, and neither is the message
-- `Invalid attrs: RT requires BS.`, which is drawn and overwritten before the caller sees it.
pub mod Writes
pub mod Guards
use Prim.Native.Nat.{bit_xor}
use uefi_tools_pkg.Base.{
  ℕ, zero, suc, ◌+◌, ◌%◌, ◌^◌, Bool, true, false, ◌&&◌, ◌||◌, not, Option, none, some, List, [],
  ◌∷◌, ltb, leb, ◌==◌, if◌then◌else◌, Text, length, set,
}
use uefi_tools_pkg.Efi.{
  Status, success, error, invalid_parameter, aborted, security_violation, efi_error,
}
use uefi_tools_pkg.VarEditor.Variable.{
  Variable, has, non_volatile, bootservice_access, runtime_access, is_authenticated_variable,
  normal_write_attributes,
}
use uefi_tools_pkg.VarEditor.Parse.{parse_hex_uintn}
use uefi_tools_pkg.VarEditor.Services.{Bytes, Services, Key, Keys}
use uefi_tools_pkg.VarEditor.Load.{
  Note, read_failed, byte_written, attributes_written, deleted, empty_variable, read_only,
  invalid_offset, invalid_byte, byte_cancelled, attributes_cancelled, delete_cancelled, Loaded,
  failed, loaded, load_variable_data,
}
use uefi_tools_pkg.VarEditor.Input.{
  scan_esc, Typed, waiting, typed, escaped, read_line, Answer, unanswered, answered, confirm,
}

-- the size of `Input` in characters
abbrev pub input_chars : ℕ
input_chars = 32

-- The result of an edit: its status and message, the keys behind it and the world. `waits` waits for a
-- key; `unfinished` is a loop that needs more fuel.
pub data Edited (W : Type 0) : Type 0 where
  waits unfinished : Edited W
  ended : Status → Note → Keys → W → Edited W

-- A line as a number below the limit. It is refused where the edit is aborted.
pub data Entered : Type 0 where
  no_line : Entered
  refused : Keys → Entered
  entered : ℕ → Keys → Entered

abbrev pub below : ℕ → Option ℕ → Keys → Entered
below limit none keys = refused keys
below limit (some n) keys = if leb limit n then refused keys else entered n keys

-- the two tests of `RveEditByte` on a line that is read
abbrev pub enter_below : ℕ → ℕ → Typed → Entered
enter_below max_uintn limit waiting = no_line
enter_below max_uintn limit (escaped keys) = refused keys
enter_below max_uintn limit (typed s keys) = below limit (parse_hex_uintn max_uintn s) keys

-- what a key does in the attribute editor
pub data AttributeKey : Type 0 where
  cancels saves keeps : AttributeKey
  toggles : ℕ → AttributeKey

unfoldable pub attribute_key : ℕ → Key → AttributeKey
attribute_key new key =
    let ch = key.unicode in
    if key.scan == scan_esc
    then cancels
    else if ch == b'n' || ch == b'N'
    then toggles non_volatile
    else if ch == b'b' || ch == b'B'
    then toggles bootservice_access
    else if ch == b't' || ch == b'T'
    then toggles runtime_access
    else if ch == b's' || ch == b'S'
    then (if has new runtime_access && not (has new bootservice_access) then keeps else saves)
    else keeps

module _ {W : Type 0} (svc : Services W) (v : Variable) where
  -- `SetVariable` on the variable, and its status in a message
  abbrev pub write : (Status → Note) → ℕ → Bytes → Keys → W → Edited W
  write note attributes bytes keys w =
      let result =
        svc.set_variable v.name v.vendor_guid (normal_write_attributes attributes) bytes w in
      ended result.0 (note result.0) keys result.1

  -- from the confirmation on
  abbrev pub write_byte : Bytes → ℕ → ℕ → ℕ → Answer → W → Edited W
  write_byte bytes attributes offset value unanswered w = waits
  write_byte bytes attributes offset value (answered false keys) w =
      ended (error aborted) byte_cancelled keys w
  write_byte bytes attributes offset value (answered true keys) w =
      write byte_written attributes (set bytes offset (value % 2 ^ 8)) keys w

  abbrev pub enter_byte : Bytes → ℕ → ℕ → Entered → W → Edited W
  enter_byte bytes attributes offset no_line w = waits
  enter_byte bytes attributes offset (refused keys) w = ended (error aborted) invalid_byte keys w
  enter_byte bytes attributes offset (entered value keys) w =
      write_byte bytes attributes offset value (confirm keys) w

  abbrev pub enter_offset : ℕ → Bytes → ℕ → Entered → W → Edited W
  enter_offset max_uintn bytes attributes no_line w = waits
  enter_offset max_uintn bytes attributes (refused keys) w =
      ended (error aborted) invalid_offset keys w
  enter_offset max_uintn bytes attributes (entered offset keys) w =
      enter_byte bytes attributes offset (enter_below max_uintn 0x100 (read_line input_chars keys))
        w

  unfoldable pub edit_byte : ℕ → Keys → W → Edited W
  edit_byte max_uintn keys w = elim (load_variable_data svc v w) [
    | failed status ↦ ended status (read_failed status) keys w
    | loaded bytes attributes ↦
        if length bytes == 0
        then ended (error invalid_parameter) empty_variable keys w
        else if is_authenticated_variable attributes
        then ended (error security_violation) read_only keys w
        else enter_offset max_uintn bytes attributes
            (enter_below max_uintn (length bytes) (read_line input_chars keys)) w
  ]

  -- the loop of the attribute editor; each round takes a key
  unfoldable pub attributes_loop : ℕ → Bytes → ℕ → Keys → W → Edited W
  attributes_loop zero bytes new keys w = unfinished
  attributes_loop (suc fuel) bytes new [] w = waits
  attributes_loop (suc fuel) bytes new (none ∷ keys) w = attributes_loop fuel bytes new keys w
  attributes_loop (suc fuel) bytes new (some key ∷ keys) w = elim (attribute_key new key) [
    | cancels ↦ ended (error aborted) attributes_cancelled keys w
    | keeps ↦ attributes_loop fuel bytes new keys w
    | toggles flag ↦ attributes_loop fuel bytes (bit_xor new flag) keys w
    | saves ↦ elim (confirm keys) [
      | unanswered ↦ waits
      | answered true keys' ↦ write attributes_written new bytes keys' w
      | answered false keys' ↦ attributes_loop fuel bytes new keys' w
    ]
  ]

  unfoldable pub edit_attributes : Keys → W → Edited W
  edit_attributes keys w = elim (load_variable_data svc v w) [
    | failed status ↦ ended status (read_failed status) keys w
    | loaded bytes attributes ↦
        if is_authenticated_variable attributes
        then ended (error security_violation) read_only keys w
        else attributes_loop (length keys + 1) bytes (normal_write_attributes attributes) keys w
  ]

  unfoldable pub delete_variable : Keys → W → Edited W
  delete_variable keys w =
      if is_authenticated_variable v.attributes
      then ended (error security_violation) read_only keys w
      else elim (confirm keys) [
        | unanswered ↦ waits
        | answered false keys' ↦ ended (error aborted) delete_cancelled keys' w
        | answered true keys' ↦ write deleted v.attributes [] keys' w
      ]
