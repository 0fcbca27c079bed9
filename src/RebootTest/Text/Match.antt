-- ===== src/RebootTest/Text/Match.antt =====
-- Applications/RebootTest/RebootTest.c: `StrEqualsIgnoreCase` against strings that differ in case only.
use uefi_tools_pkg.Base.{
  ℕ, ◌+◌, ◌≤◌, ◌≡◌, ◌⊎◌, refl, ◌↔◌, true, [], ◌∷◌, ◌==◌, arith, Bool-cases, inl, inr,
}
use uefi_tools_pkg.RebootTest.Text.{Text, fold_case, str_equals_ignore_case}

-- the second is the small letter of the first, one of A to Z
abbrev pub IsSmallOf : ℕ → ℕ → Type 0
IsSmallOf c d = (65 ≤ c) × (c ≤ 90) × (d ≡ c + 32)

-- the same character, or the two cases of a letter
abbrev pub IsSame : ℕ → ℕ → Type 0
IsSame c d = (c ≡ d) ⊎ IsSmallOf c d ⊎ IsSmallOf d c

-- of the same length, with the same characters but for their case
abbrev pub Matches : Text → Text → Type 0
Matches [] [] = Unit {0}
Matches (c ∷ cs) (d ∷ ds) = IsSame c d × Matches cs ds
Matches _ _ = ⊥

fold_case-IsSame : (c d : ℕ) → (fold_case c == fold_case d) ≡ true → IsSame c d
unfolding fold_case
fold_case-IsSame c d h = ground (arith, h)

IsSame-fold_case : (c d : ℕ) → IsSame c d → (fold_case c == fold_case d) ≡ true
unfolding fold_case
IsSame-fold_case c d h = ground (arith, h)

equal→Matches : (a b : Text) → str_equals_ignore_case a b ≡ true → Matches a b
unfolding str_equals_ignore_case
equal→Matches [] [] h = tt
equal→Matches [] (d ∷ ds) h = cc
equal→Matches (c ∷ cs) [] h = cc
equal→Matches (c ∷ cs) (d ∷ ds) h = elim (Bool-cases (fold_case c == fold_case d)) [
  | inl e ↦ (fold_case-IsSame c d e, equal→Matches cs ds (ground (arith, e, h)))
  | inr e ↦ absurd (ground (arith, e, h))
]

Matches→equal : (a b : Text) → Matches a b → str_equals_ignore_case a b ≡ true
unfolding str_equals_ignore_case
Matches→equal [] [] h = refl
Matches→equal [] (d ∷ ds) h = absurd h
Matches→equal (c ∷ cs) [] h = absurd h
Matches→equal (c ∷ cs) (d ∷ ds) (same, h) = rw (IsSame-fold_case c d same) (Matches→equal cs ds h)

-- `StrEqualsIgnoreCase` is true exactly of strings of the same length whose characters are the same in
-- turn, or the capital and the small form of one of the letters A to Z.
pub str_equals_ignore_case_iff : (a b : Text) → (str_equals_ignore_case a b ≡ true) ↔ Matches a b
str_equals_ignore_case_iff a b = (equal→Matches a b, Matches→equal a b)
