-- ===== src/VarEditor/Variable.antt =====
-- Applications/RuntimeVarEditor/RuntimeVarEditor.c: `RVE_VARIABLE`, the tests on attributes and
-- `RveSortVariables`. A vendor GUID is one number, since the program only passes it on.
use Prim.Native.Nat.{bit_and, bit_or}
use mathlib.Core.List.{Perm, Pairwise}
use mathlib.Core.List.Pairwise
use uefi_tools_pkg.Base.{
  ℕ, ◌-◌, ◌<◌, ◌⊎◌, inl, inr, Bool-cases, ◌≡◌, ◌≢◌, refl, Bool, true, false, not, List, [], ◌∷◌,
  ltb, ◌==◌, if◌then◌else◌, Text, arith,
}
use uefi_tools_pkg.Base.Insertion.{
  Orders, insertion_sort, insertion_sort-perm, insertion_sort-Pairwise,
}
use uefi_tools_pkg.Efi.{Status}

abbrev pub max_variables : ℕ
max_variables = 2048

abbrev pub initial_name_bytes : ℕ
initial_name_bytes = 256

abbrev pub max_name_chars : ℕ
max_name_chars = 512

abbrev pub max_edit_data : ℕ
max_edit_data = 65536

-- the EFI_VARIABLE_ attributes of UefiSpec.h
abbrev pub non_volatile : ℕ
non_volatile = 0x1

abbrev pub bootservice_access : ℕ
bootservice_access = 0x2

abbrev pub runtime_access : ℕ
runtime_access = 0x4

abbrev pub authenticated_write : ℕ
authenticated_write = 0x10

abbrev pub time_based_authenticated_write : ℕ
time_based_authenticated_write = 0x20

abbrev pub append_write : ℕ
append_write = 0x40

pub record Variable : Type 0 where
  pub name : Text
  pub vendor_guid : ℕ
  pub attributes : ℕ
  pub data_size : ℕ
  pub status : Status

abbrev pub has : ℕ → ℕ → Bool
has attributes flag = not (bit_and attributes flag == 0)

abbrev pub is_authenticated_variable : ℕ → Bool
is_authenticated_variable attributes =
    has attributes (bit_or authenticated_write time_based_authenticated_write)

-- the complement of EFI_VARIABLE_APPEND_WRITE in UINT32
abbrev pub normal_write_attributes : ℕ → ℕ
normal_write_attributes attributes = bit_and attributes (0xffff_ffff - append_write)

-- whether `StrCmp` of the strings is positive
unfoldable pub text_greater : Text → Text → Bool
text_greater [] right = false
text_greater (a ∷ rest) [] = true
text_greater (a ∷ rest) (b ∷ others) = if a == b then text_greater rest others else ltb b a

-- the test of the inner loop: the variable before the key is larger
abbrev pub is_before_key : Variable → Variable → Bool
is_before_key key before = text_greater before.name key.name

unfoldable pub sort_variables : List Variable → List Variable
sort_variables variables = insertion_sort is_before_key variables

text_greater_trans :
    (a b c : Text) → text_greater a b ≢ true → text_greater b c ≢ true → text_greater a c ≢ true
unfolding text_greater
text_greater_trans [] b c h k = λ e. cc
text_greater_trans (x ∷ a) [] c h k = absurd (h refl)
text_greater_trans (x ∷ a) (y ∷ b) [] h k = absurd (k refl)
text_greater_trans (x ∷ a) (y ∷ b) (z ∷ c) h k =
    λ e. ground (arith, text_greater_trans a b c, h, k, e)

text_greater_flip : (a b : Text) → text_greater b a ≡ true → text_greater a b ≢ true
unfolding text_greater
text_greater_flip [] b h = λ e. cc
text_greater_flip (x ∷ a) [] h = λ e. cc
text_greater_flip (x ∷ a) (y ∷ b) h = λ e. ground (arith, text_greater_flip a b, h, e)

abbrev IsGreater : Variable → Variable → Type 0
IsGreater a b = text_greater a.name b.name ≡ true

variable_order : Orders is_before_key IsGreater
variable_order = record {
  trans = λ a b c h k. text_greater_trans a.name b.name c.name h k;
  passed = λ a b h. text_greater_flip a.name b.name h;
  stayed = λ a b h e. cc (h, e);
}

-- the first character that differs is smaller, or the text ends first, or nothing differs
abbrev pub IsUpTo : Text → Text → Type 0
IsUpTo [] b = Unit {0}
IsUpTo (x ∷ a) [] = ⊥
IsUpTo (x ∷ a) (y ∷ b) = (x < y) ⊎ ((x ≡ y) × IsUpTo a b)

not_greater : (a b : Text) → text_greater a b ≢ true → IsUpTo a b
unfolding text_greater
not_greater [] b h = tt
not_greater (x ∷ a) [] h = h refl
not_greater (x ∷ a) (y ∷ b) h = elim (Bool-cases (x == y)) [
  | inl e ↦ let same : x ≡ y = ground (arith, e) in inr (same, not_greater a b (λ g. h (rw e g)))
  | inr e ↦ inl (ground (arith, e, h))
]

-- `RveSortVariables` orders the variables by the characters of their names and keeps each of them.
pub sort_variables-sorts :
    (l : List Variable)
    → Pairwise (λ a b. IsUpTo a.name b.name) (sort_variables l) × Perm (sort_variables l) l
unfolding sort_variables
sort_variables-sorts l = (
  Pairwise.imp (λ a b. not_greater a.name b.name) (insertion_sort-Pairwise variable_order l),
  insertion_sort-perm is_before_key l,
)
