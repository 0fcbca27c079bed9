-- ===== src/FillNv/Fill.antt =====
-- Applications/FillNvVars/FillNvVars.c: `UefiMain`. `SetVariable` is a parameter; the name of a variable is the pair
-- of its size and index, which the source prints as FillNv%04x%04x.
use uefi_tools_pkg.Base.{
  ℕ, zero, suc, ◌+◌, Bool, true, false, not, List, [], ◌∷◌, ◌++◌, if◌then◌else◌,
}
use uefi_tools_pkg.Efi.{Status, error, out_of_resources, efi_error}

-- mFillNvVarDataSizes
abbrev pub data_sizes : List ℕ
data_sizes = 1024 ∷ 512 ∷ 256 ∷ 128 ∷ 64 ∷ 32 ∷ []

abbrev pub max_count : ℕ
max_count = 4096

pub data Message : Type 0 where
  allocation_failed filling resetting : Message
  stopped : ℕ → ℕ → Status → Message

-- the program returns, or resets the machine
pub data Result : Type 0 where
  returned : Status → Result
  reset_cold : Result

-- `set_variable size index w` writes `size` bytes, each 0x5A, under the name of the pair
module _ {W : Type 0} (set_variable : ℕ → ℕ → W → Status × W) where
  -- the inner loop for the `left` rounds that the limit allows
  unfoldable pub fill_size : ℕ → ℕ → ℕ → W → W × List Message
  fill_size zero size index w = (w, [])
  fill_size (suc left) size index w =
      let (status, w') = set_variable size index w in
      elim (efi_error status) [
        | true ↦ (w', stopped size index status ∷ [])
        | false ↦ fill_size left size (index + 1) w'
      ]

  -- the outer loop
  unfoldable pub fill_sizes : List ℕ → W → W × List Message
  fill_sizes [] w = (w, [])
  fill_sizes (size ∷ rest) w =
      let (w', shown) = fill_size max_count size 0 w in
      let (w'', more) = fill_sizes rest w' in (w'', shown ++ more)

  unfoldable pub uefi_main : Bool → W → Result × W × List Message
  uefi_main allocates w =
      if not allocates
      then (returned (error out_of_resources), w, allocation_failed ∷ [])
      else let (w', shown) = fill_sizes data_sizes w in
        (reset_cold, w', filling ∷ shown ++ (resetting ∷ []))
