-- ===== src/VarEditor/Input.antt =====
-- Applications/RuntimeVarEditor/RuntimeVarEditor.c: `RveReadLine` and `RveConfirm`. The prompt is drawn
-- with each key and not modelled. No caller passes NULL or an empty buffer.
pub mod Bounds
use mathlib.Core.List.{append_assoc, append-nil}
use uefi_tools_pkg.Base.{
  ℕ, zero, suc, ◌+◌, ◌≤◌, ◌<◌, ◌≡◌, refl, sym, ◌∙◌, ap, Bool, true, false, ◌&&◌, ◌||◌, Option, none,
  some, List, [], ◌∷◌, ◌++◌, map, ltb, leb, ◌==◌, if◌then◌else◌, Text, length, length-append,
  Bool-cases, inl, inr, arith,
}
use uefi_tools_pkg.VarEditor.Services.{Key, Keys}

abbrev pub scan_esc : ℕ
scan_esc = 0x17

abbrev pub carriage_return : ℕ
carriage_return = 0xd

abbrev pub backspace : ℕ
backspace = 0x8

-- the line without its last character
abbrev pub without_last : Text → Text
without_last [] = []
without_last (ch ∷ []) = []
without_last (ch ∷ next ∷ rest) = ch ∷ without_last (next ∷ rest)

-- what a key does to the line
pub data LineKey : Type 0 where
  enters escapes : LineKey
  leaves : Text → LineKey

-- how the line ends, with the keys behind it; `waiting` waits for a key
pub data Typed : Type 0 where
  waiting : Typed
  typed : Text → Keys → Typed
  escaped : Keys → Typed

module _ (buffer_chars : ℕ) where
  unfoldable pub line_key : Text → Key → LineKey
  line_key buffer key =
      if key.unicode == carriage_return
      then enters
      else if key.unicode == backspace
      then leaves (without_last buffer)
      else if key.scan == scan_esc
      then escapes
      else if leb b' ' key.unicode && ltb (length buffer + 1) buffer_chars
      then leaves (buffer ++ (key.unicode ∷ []))
      else leaves buffer

  unfoldable pub read_line_on : Text → Keys → Typed
  read_line_on buffer [] = waiting
  read_line_on buffer (none ∷ keys) = read_line_on buffer keys
  read_line_on buffer (some key ∷ keys) = elim (line_key buffer key) [
    | enters ↦ typed buffer keys
    | escapes ↦ escaped keys
    | leaves buffer' ↦ read_line_on buffer' keys
  ]

  abbrev pub read_line : Keys → Typed
  read_line keys = read_line_on [] keys

-- the answer, with the keys behind it
pub data Answer : Type 0 where
  unanswered : Answer
  answered : Bool → Keys → Answer

abbrev pub is_yes : Key → Bool
is_yes key = key.unicode == b'y' || key.unicode == b'Y'

abbrev pub is_no : Key → Bool
is_no key = key.unicode == b'n' || key.unicode == b'N' || key.scan == scan_esc

unfoldable pub confirm : Keys → Answer
confirm [] = unanswered
confirm (none ∷ keys) = confirm keys
confirm (some key ∷ keys) =
    let rest = confirm keys in
    if is_yes key then answered true keys else if is_no key then answered false keys else rest
