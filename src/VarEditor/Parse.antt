-- ===== src/VarEditor/Parse.antt =====
-- Applications/RuntimeVarEditor/RuntimeVarEditor.c: `RveParseHexUintn`; no caller passes NULL.
use uefi_tools_pkg.Base.{
  ℕ, ◌+◌, ◌*◌, ◌/◌, ◌%◌, ◌≤◌, ◌<◌, ◌≡◌, refl, sym, Option, none, some, [], ◌∷◌, ltb, leb,
  if◌then◌else◌, Text, Bool-cases, Option-cases, inl, inr, arith,
}
use uefi_tools_pkg.Base.Hex.{hex_digit, without_prefix, hex_number, hex_digit-lt, hex_number-le}

module _ (max_uintn : ℕ) where
  -- the loop on `Result`; the shift leaves the bits free that the digit sets
  unfoldable pub parse_hex_digits : ℕ → Text → Option ℕ
  parse_hex_digits result [] = some result
  parse_hex_digits result (ch ∷ rest) =
      if ltb (max_uintn / 16) result
      then none
      else elim (hex_digit ch) [ none ↦ none | some d ↦ parse_hex_digits (result * 16 + d) rest ]

  unfoldable pub parse_hex_uintn : Text → Option ℕ
  parse_hex_uintn [] = none
  parse_hex_uintn (ch ∷ rest) = parse_hex_digits 0 (without_prefix (ch ∷ rest))

  abbrev pub up_to_max : Option ℕ → Option ℕ
  up_to_max none = none
  up_to_max (some n) = if leb n max_uintn then some n else none

  -- the number that the text writes behind an optional prefix, if there is text and it fits
  abbrev pub fitting_number : Text → Option ℕ
  fitting_number [] = none
  fitting_number (ch ∷ rest) = up_to_max (hex_number 0 (without_prefix (ch ∷ rest)))

  too_large : (n : ℕ) (s : Text) → max_uintn < n → up_to_max (hex_number n s) ≡ none
  too_large n s h = elim (Option-cases (hex_number n s)) [
    | inl e ↦ rw e refl
    | inr (m, e) ↦ let k = hex_number-le n m s e in rw e (ground (arith, h, k))
  ]

  parse_hex_digits-number :
      (n : ℕ) (s : Text)
      → max_uintn % 16 ≡ 15
      → n ≤ max_uintn
      → parse_hex_digits n s ≡ up_to_max (hex_number n s)
  unfolding parse_hex_digits
  parse_hex_digits-number n [] whole h = ground (arith, h)
  parse_hex_digits-number n (ch ∷ rest) whole h = elim (Option-cases (hex_digit ch)) [
    | inl e ↦ ground (arith, e)
    | inr (d, e) ↦
        let small = hex_digit-lt ch d e in
        elim (Bool-cases (ltb (max_uintn / 16) n)) [
          | inl big ↦
              rw (big, e, parse_hex_digits, hex_number)
                (sym (too_large (n * 16 + d) rest (ground (arith, big))))
          | inr fits ↦
              rw (fits, e, parse_hex_digits, hex_number)
                (parse_hex_digits-number (n * 16 + d) rest whole
                  (ground (arith, fits, whole, small)))
        ]
  ]

  -- Where UINTN has whole hexadecimal digits: `RveParseHexUintn` gives the hexadecimal number behind an
  -- optional prefix 0x or 0X where it fits in UINTN, zero if only the prefix is there, and fails on a
  -- larger number, on any other character and on the empty text.
  pub parse_hex_uintn-number :
      (s : Text) → max_uintn % 16 ≡ 15 → parse_hex_uintn s ≡ fitting_number s
  unfolding parse_hex_uintn
  parse_hex_uintn-number [] whole = refl
  parse_hex_uintn-number (ch ∷ rest) whole =
      parse_hex_digits-number 0 (without_prefix (ch ∷ rest)) whole (omega arith)
