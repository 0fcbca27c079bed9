-- ===== src/VarEditor/Services.antt =====
-- What Applications/RuntimeVarEditor/RuntimeVarEditor.c calls: the variable services, the pool and the keyboard.
use uefi_tools_pkg.Base.{ℕ, Bool, Option, List, Text}
use uefi_tools_pkg.Efi.{Status}

abbrev pub Bytes : Type 0
Bytes = List ℕ

-- What `GetVariable` returns: the size that is needed on BUFFER_TOO_SMALL, and else that of the data.
pub record Got : Type 0 where
  pub status : Status
  pub attributes : ℕ
  pub size : ℕ
  pub bytes : Bytes

-- what `GetNextVariableName` returns
pub record NextName : Type 0 where
  pub status : Status
  pub size : ℕ
  pub name : Text
  pub guid : ℕ

-- what the pool is asked for: bytes for the name, characters for a copy of it, a number of variables,
-- bytes of data
pub data Request : Type 0 where
  name_buffer name_copy variable_list data_buffer : ℕ → Request

-- `get_variable` and `next_variable_name` take the size of the buffer and leave the world alone. The
-- pool can answer differently in each round of a loop.
pub record Services (W : Type 0) : Type 0 where
  pub get_variable : Text → ℕ → ℕ → W → Got
  pub set_variable : Text → ℕ → ℕ → Bytes → W → Status × W
  pub next_variable_name : ℕ → Text → ℕ → W → NextName
  pub allocates : ℕ → Request → W → Bool

pub record Key : Type 0 where
  pub unicode : ℕ
  pub scan : ℕ

-- the key strokes to come; `none` is a wake-up without a key
abbrev pub Keys : Type 0
Keys = List (Option Key)
