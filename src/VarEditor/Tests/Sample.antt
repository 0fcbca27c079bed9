-- ===== src/VarEditor/Tests/Sample.antt =====
-- A sample store of two variables and keys, for the tests of Applications/RuntimeVarEditor/RuntimeVarEditor.c.
use uefi_tools_pkg.Base.{
  ℕ, true, ◌&&◌, subst, Option, none, some, [], ◌∷◌, ◌++◌, map, ltb, ◌==◌, if◌then◌else◌, Text,
  codes, equal, length, ◌≢◌,
}
use uefi_tools_pkg.Efi.{
  Status, success, error, buffer_too_small, not_found, device_error, security_violation,
}
use uefi_tools_pkg.VarEditor.Variable.{Variable, sort_variables}
use uefi_tools_pkg.VarEditor.Services.{Bytes, Got, NextName, Services, Key, Keys}
use uefi_tools_pkg.VarEditor.Input.Bounds.{press}
use uefi_tools_pkg.VarEditor.Input.{carriage_return}
use uefi_tools_pkg.VarEditor.Load.Lists.{name_bytes}
use uefi_tools_pkg.VarEditor.Load.{
  load_variables, load_loop, load_round, take_name, add_variable, read_variable_info,
}

-- the variable A as it was, with another byte, with boot service access only, or removed
pub data Store : Type 0 where
  original edited hidden removed : Store

-- the attributes and the data; the variable B is authenticated
abbrev contents_a : Store → Option (ℕ × Bytes)
contents_a original = some (7, 0x11 ∷ 0x22 ∷ [])
contents_a edited = some (7, 0x11 ∷ 0x7f ∷ [])
contents_a hidden = some (3, 0x11 ∷ 0x22 ∷ [])
contents_a removed = none

abbrev pub contents : Text → Store → Option (ℕ × Bytes)
contents name store =
    if equal name (codes "A")
    then contents_a store
    else if equal name (codes "B")
    then some (0x27, 0x33 ∷ [])
    else none

abbrev got : ℕ → Option (ℕ × Bytes) → Got
got size none = record { status = error not_found; attributes = 0; size = size; bytes = [] }
got size (some (attributes, bytes)) = record {
  status = if ltb size (length bytes) then error buffer_too_small else success;
  attributes = attributes;
  size = length bytes;
  bytes = if ltb size (length bytes) then [] else bytes;
}

abbrev offer : Text → ℕ → Text → ℕ → NextName
offer next size name guid =
    if ltb size (name_bytes next)
    then record {
      status = error buffer_too_small;
      size = name_bytes next;
      name = name;
      guid = guid;
    }
    else record { status = success; size = name_bytes next; name = next; guid = 1 }

abbrev first_name : Store → Text
first_name removed = codes "B"
first_name _ = codes "A"

abbrev next_name : ℕ → Text → ℕ → Store → NextName
next_name size name guid store =
    if equal name []
    then offer (first_name store) size name guid
    else if equal name (codes "A")
    then offer (codes "B") size name guid
    else record { status = error not_found; size = size; name = name; guid = guid }

-- the writes to A that the tests make; others fail
abbrev write_a : ℕ → Bytes → Store → Status × Store
write_a attributes bytes store =
    if equal bytes []
    then (success, removed)
    else if attributes == 7 && equal bytes (0x11 ∷ 0x7f ∷ [])
    then (success, edited)
    else if attributes == 3 && equal bytes (0x11 ∷ 0x22 ∷ [])
    then (success, hidden)
    else (error device_error, store)

abbrev pub sample : Services Store
sample = record {
  get_variable = λ name guid size store. got size (contents name store);
  set_variable = λ name guid attributes bytes store.
      if equal name (codes "A")
      then write_a attributes bytes store
      else (error security_violation, store);
  next_variable_name = λ size name guid store. next_name size name guid store;
  allocates = λ round what store. true;
}

abbrev pub variable_a : Variable
variable_a = record {
  name = codes "A";
  vendor_guid = 1;
  attributes = 7;
  data_size = 2;
  status = success;
}

abbrev pub variable_b : Variable
variable_b = record {
  name = codes "B";
  vendor_guid = 1;
  attributes = 0x27;
  data_size = 1;
  status = success;
}

abbrev pub typing : Text → Keys
typing s = map press s

abbrev pub enter : Option Key
enter = press carriage_return

-- the second byte of A is set to 0x7f
abbrev pub byte_keys : Keys
byte_keys =
    press b'e' ∷ (typing (codes "1") ++ (enter ∷ typing (codes "7f")) ++ (enter ∷ press b'y' ∷ []))

abbrev IsSome : {A : Type 0} → Option A → Type 0
IsSome none = ⊥
IsSome (some _) = Unit {0}

-- every load of the sample ends
pub load-sample : (w : Store) → load_variables sample 4 w ≢ none
unfolding load_variables load_loop load_round take_name add_variable read_variable_info
    sort_variables
load-sample original = λ e. subst IsSome e tt
load-sample edited = λ e. subst IsSome e tt
load-sample hidden = λ e. subst IsSome e tt
load-sample removed = λ e. subst IsSome e tt
