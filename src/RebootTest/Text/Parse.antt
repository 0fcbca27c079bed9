-- ===== src/RebootTest/Text/Parse.antt =====
-- Applications/RebootTest/RebootTest.c: `ParseUint32` against the number that a decimal string denotes.
use uefi_tools_pkg.Base.{
  ℕ, ◌+◌, ◌-◌, ◌*◌, ◌%◌, ◌/◌, ◌^◌, ◌≤◌, ◌<◌, Bool, true, false, ◌&&◌, not, Option, none, some, ◌≡◌,
  refl, [], ◌∷◌, arith, sym, ltb→lt, ltb-eq_false, ltb, leb, if◌then◌else◌, Bool-cases, inl, inr,
}
use uefi_tools_pkg.RebootTest.Text.{Text, is_digit, max_uint32, parse_digits, parse_uint32}

-- the unbounded value of a digit string, behind digits of value `v`
abbrev pub decimal : ℕ → Text → ℕ
decimal v [] = v
decimal v (c ∷ cs) = decimal (v * 10 + (c - b'0')) cs

abbrev pub all_digits : Text → Bool
all_digits [] = true
all_digits (c ∷ cs) = is_digit c && all_digits cs

abbrev pub is_empty : Text → Bool
is_empty [] = true
is_empty (c ∷ cs) = false

decimal-le : (v : ℕ) (s : Text) → v ≤ decimal v s
decimal-le v [] = omega arith
decimal-le v (c ∷ cs) = omega (arith, decimal-le (v * 10 + (c - b'0')) cs)

abbrev denotes : ℕ → Text → Option ℕ
denotes v s = if all_digits s && leb (decimal v s) max_uint32 then some (decimal v s) else none

is_digit-le : (c : ℕ) → is_digit c ≡ true → c - b'0' ≤ 9
is_digit-le c h = ground arith

too_large :
    (c v : ℕ)
    → c - b'0' ≤ 9
    → ltb ((max_uint32 - (c - b'0')) / 10) v ≡ true
    → max_uint32 < v * 10 + (c - b'0')
too_large c v d h = omega (arith, ltb→lt _ _ h)

no_wrap :
    (c v : ℕ)
    → c - b'0' ≤ 9
    → ltb ((max_uint32 - (c - b'0')) / 10) v ≡ false
    → (v * 10 + (c - b'0') ≤ max_uint32)
      × ((v * 10 % 2 ^ 32 + (c - b'0')) % 2 ^ 32 ≡ v * 10 + (c - b'0'))
no_wrap c v d h = omega (arith, ltb-eq_false _ _ h)

denotes_large : (v : ℕ) (s : Text) → max_uint32 < v → denotes v s ≡ none
denotes_large v s h = ground (arith, decimal-le v s)

parse_digits-denotes : (s : Text) (v : ℕ) → v ≤ max_uint32 → parse_digits v s ≡ denotes v s
unfolding parse_digits
parse_digits-denotes [] v h = ground arith
parse_digits-denotes (c ∷ cs) v h =
    let next = v * 10 + (c - b'0') in
    elim (Bool-cases (is_digit c)) [
      | inr other ↦ ground (arith, other)
      | inl digit ↦ elim (Bool-cases (ltb ((max_uint32 - (c - b'0')) / 10) v)) [
        | inl large ↦
            let above = too_large c v (is_digit-le c digit) large in
            rw (digit, large) (sym (denotes_large next cs above))
        | inr fits ↦
            let small = no_wrap c v (is_digit-le c digit) fits in
            rw (digit, fits, small.1) (parse_digits-denotes cs next small.0)
      ]
    ]

-- `ParseUint32` gives the value of a string of one or more decimal digits if it is at most
-- 2^32 - 1, and fails on any other string.
pub parse_uint32-decimal :
    (s : Text)
    → parse_uint32 s ≡ (
        if not (is_empty s) && (all_digits s && leb (decimal 0 s) max_uint32)
        then some (decimal 0 s)
        else none)
unfolding parse_uint32
parse_uint32-decimal [] = refl
parse_uint32-decimal (c ∷ cs) = parse_digits-denotes (c ∷ cs) 0 (omega arith)
