-- ===== src/Base/Hex.antt =====
-- Hexadecimal numbers, as Applications/LoongArchMappingDump/LoongArchMappingDump.c and
-- Applications/RuntimeVarEditor/RuntimeVarEditor.c read them.
use Prim.Native.Nat.{ℕ, ◌+◌, ◌-◌, ◌*◌, ◌≤◌, ◌<◌}
use mathlib.Core.Path.{◌≡◌}
use mathlib.Core.Bool.{◌&&◌, ◌||◌}
use mathlib.Core.Option.{Option, none, some}
use mathlib.Core.List.{[], ◌∷◌}
use mathlib.Core.Logic.{inl, inr}
use native.Mathlib.Omega.{arith}
use uefi_tools_pkg.Base.Tests.{leb, ◌==◌, if◌then◌else◌, Option-cases}
use uefi_tools_pkg.Base.Lists.{get_or, drop}
use uefi_tools_pkg.Base.Strings.{Text}

-- the value of a character of a hexadecimal number
unfoldable pub hex_digit : ℕ → Option ℕ
hex_digit ch =
    if leb b'0' ch && leb ch b'9'
    then some (ch - b'0')
    else if leb b'a' ch && leb ch b'f'
    then some (ch - b'a' + 10)
    else if leb b'A' ch && leb ch b'F'
    then some (ch - b'A' + 10)
    else none

-- the prefix 0x or 0X is skipped
abbrev pub without_prefix : Text → Text
without_prefix s =
    if get_or s 0 0 == b'0' && (get_or s 1 0 == b'x' || get_or s 1 0 == b'X') then drop 2 s else s

-- the number that digits write behind those of `n`, of any size; none if one is no digit
abbrev pub hex_number : ℕ → Text → Option ℕ
hex_number n [] = some n
hex_number n (ch ∷ rest) = elim (hex_digit ch) [
  | none ↦ none
  | some d ↦ hex_number (n * 16 + d) rest
]

pub hex_digit-lt : (ch d : ℕ) → hex_digit ch ≡ some d → d < 16
unfolding hex_digit
hex_digit-lt ch d h = ground arith

-- more digits make no smaller number
pub hex_number-le : (n m : ℕ) (s : Text) → hex_number n s ≡ some m → n ≤ m
hex_number-le n m [] h = ground arith
hex_number-le n m (ch ∷ rest) h = elim (Option-cases (hex_digit ch)) [
  | inl e ↦ ground (arith, h, e)
  | inr (d, e) ↦
      let k = hex_number-le (n * 16 + d) m rest (ground (arith, h, e)) in omega (arith, k)
]
