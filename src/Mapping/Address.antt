-- ===== src/Mapping/Address.antt =====
-- Applications/LoongArchMappingDump/LoongArchMappingDump.c: `ParseHexAddress`; no caller passes NULL.
use uefi_tools_pkg.Base.Hex.{hex_digit, without_prefix, hex_number, hex_digit-lt}
use uefi_tools_pkg.Base.{
  ℕ, ◌+◌, ◌*◌, ◌%◌, ◌^◌, ◌≡◌, refl, Option, none, some, [], ◌∷◌, Text, Option-cases, inl, inr,
  arith, ◌∙◌, ap,
}

-- the loop on `Result`, a UINT64; the shift leaves the bits free that the digit sets
unfoldable pub parse_hex_digits : ℕ → Text → Option ℕ
parse_hex_digits result [] = some result
parse_hex_digits result (ch ∷ rest) = elim (hex_digit ch) [
  | none ↦ none
  | some d ↦ parse_hex_digits (result * 16 % 2 ^ 64 + d) rest
]

unfoldable pub parse_hex_address : Text → Option ℕ
parse_hex_address s = parse_hex_digits 0 (without_prefix s)

abbrev pub low_bits : Option ℕ → Option ℕ
low_bits none = none
low_bits (some n) = some (n % 2 ^ 64)

parse_hex_digits-number :
    (n : ℕ) (s : Text) → parse_hex_digits (n % 2 ^ 64) s ≡ low_bits (hex_number n s)
unfolding parse_hex_digits
parse_hex_digits-number n [] = refl
parse_hex_digits-number n (ch ∷ rest) = elim (Option-cases (hex_digit ch)) [
  | inl e ↦ rw (e, parse_hex_digits, hex_number) refl
  | inr (d, e) ↦
      let small = hex_digit-lt ch d e in
      let next : n % 2 ^ 64 * 16 % 2 ^ 64 + d ≡ (n * 16 + d) % 2 ^ 64 = omega (arith, small) in
      rw (e, parse_hex_digits, hex_number)
        (ap (λ (r : ℕ). parse_hex_digits r rest) next ∙ parse_hex_digits-number (n * 16 + d) rest)
]

-- `ParseHexAddress` gives the low 64 bits of the hexadecimal number behind an optional prefix 0x or
-- 0X, zero if no digit follows, and fails on any other character.
pub parse_hex_address-number :
    (s : Text) → parse_hex_address s ≡ low_bits (hex_number 0 (without_prefix s))
unfolding parse_hex_address
parse_hex_address-number s = parse_hex_digits-number 0 (without_prefix s)
