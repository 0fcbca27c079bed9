-- ===== src/Base/Strings.antt =====
-- CHAR16 strings and byte buffers as lists of numbers.
use Prim.Native.Nat.{ℕ}
use Prim.Native.Char.{code}
use Prim.Native.String.{String}
use mathlib.Core.Bool.{Bool, true, false, ◌&&◌}
use mathlib.Core.List.{List, [], ◌∷◌}
use uefi_tools_pkg.Base.Tests.{◌==◌}

-- the characters before the terminator
abbrev pub Text : Type 0
Text = List ℕ

abbrev pub codes : String → Text
codes String.[] = []
codes (String.◌∷◌ c s) = code c ∷ codes s

-- `StrCmp` and `CompareMem`, as a test for equality
abbrev pub equal : List ℕ → List ℕ → Bool
equal [] [] = true
equal (a ∷ rest) (b ∷ others) = a == b && equal rest others
equal _ _ = false
