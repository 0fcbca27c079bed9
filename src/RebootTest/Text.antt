-- ===== src/RebootTest/Text.antt =====
-- Applications/RebootTest/RebootTest.c: `StrEqualsIgnoreCase` and `ParseUint32`. A CHAR16 string is
-- the list of its characters before the terminator, so no element is zero; no caller passes NULL.
pub mod Parse
pub mod Match
use uefi_tools_pkg.Base.{
  ℕ, ◌+◌, ◌-◌, ◌*◌, ◌/◌, ◌%◌, ◌^◌, Bool, true, false, ◌&&◌, ◌||◌, not, Option, none, some, List, [],
  ◌∷◌, ltb, leb, ◌==◌, if◌then◌else◌,
}
pub use uefi_tools_pkg.Base.{Text, codes}

unfoldable pub fold_case : ℕ → ℕ
fold_case c = if leb b'A' c && leb c b'Z' then c - b'A' + b'a' else c

-- one round compares the heads; behind the loop both strings must have ended
unfoldable pub str_equals_ignore_case : Text → Text → Bool
unfolding fold_case
str_equals_ignore_case [] [] = true
str_equals_ignore_case [] (d ∷ ds) = false
str_equals_ignore_case (c ∷ cs) [] = false
str_equals_ignore_case (c ∷ cs) (d ∷ ds) =
    if not (fold_case c == fold_case d) then false else str_equals_ignore_case cs ds

abbrev pub max_uint32 : ℕ
max_uint32 = 4294967295

abbrev pub is_digit : ℕ → Bool
is_digit c = not (ltb c b'0' || ltb b'9' c)

-- the loop, on `Value`; UINT32 arithmetic wraps
unfoldable pub parse_digits : ℕ → Text → Option ℕ
parse_digits value [] = some value
parse_digits value (c ∷ cs) =
    let digit = c - b'0' in
    let rest = parse_digits ((value * 10 % 2 ^ 32 + digit) % 2 ^ 32) cs in
    if not (is_digit c) then none else if ltb ((max_uint32 - digit) / 10) value then none else rest

unfoldable pub parse_uint32 : Text → Option ℕ
unfolding parse_digits
parse_uint32 [] = none
parse_uint32 (c ∷ cs) = parse_digits 0 (c ∷ cs)
