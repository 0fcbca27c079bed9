-- ===== src/VarEditor/Texts.antt =====
-- Applications/RuntimeVarEditor/RuntimeVarEditor.c: `RveAttrsToString`. The buffers of its callers
-- have room for 96 or 128 characters.
use Prim.Native.Nat.{ℕ, ◌+◌, ◌-◌, ◌*◌, ◌/◌, ◌%◌, ◌^◌, ◌<◌, ◌≤◌}
use mathlib.Core.List.{append_assoc, append-nil}
use uefi_tools_pkg.Base.{
  zero, suc, ◌≡◌, refl, sym, true, ◌∙◌, ap, some, [], ◌∷◌, ◌++◌, ltb, if◌then◌else◌, Text, length,
  arith, take, codes, by_test, leb, length-append,
}
use uefi_tools_pkg.Base.Hex.{hex_digit, hex_number}
use uefi_tools_pkg.VarEditor.Parse.{parse_hex_uintn, parse_hex_uintn-number}
use uefi_tools_pkg.VarEditor.Variable.{
  has, non_volatile, bootservice_access, runtime_access, authenticated_write,
  time_based_authenticated_write, append_write,
}

abbrev hardware_error_record : ℕ
hardware_error_record = 0x8

-- a digit of `%x`
abbrev pub hex_char : ℕ → ℕ
hex_char d = if ltb d 10 then b'0' + d else b'a' + (d - 10)

-- `%0<k>x` of a number of at most k digits
unfoldable pub hex_text : ℕ → ℕ → Text
hex_text zero n = []
hex_text (suc k) n = hex_text k (n / 16) ++ (hex_char (n % 16) ∷ [])

abbrev pub flag : ℕ → ℕ → Text → Text
flag attributes bit name = if has attributes bit then name else []

abbrev pub flags : ℕ → Text
flags attributes =
    flag attributes non_volatile (codes "NV ")
    ++ flag attributes bootservice_access (codes "BS ")
    ++ flag attributes runtime_access (codes "RT ")
    ++ flag attributes hardware_error_record (codes "HW ")
    ++ flag attributes authenticated_write (codes "AUTH ")
    ++ flag attributes time_based_authenticated_write (codes "TIMEAUTH ")
    ++ flag attributes append_write (codes "APPEND ")

-- the format before the buffer's size cuts it
abbrev pub attrs_text : ℕ → Text
attrs_text attributes = flags attributes ++ codes "0x" ++ hex_text 8 attributes

-- `UnicodeSPrint` writes at most one character less than the buffer has
unfoldable pub attrs_to_string : ℕ → ℕ → Text
attrs_to_string attributes buffer_chars = take (buffer_chars - 1) (attrs_text attributes)

hex_digit-hex_char : (d : ℕ) → d < 16 → hex_digit (hex_char d) ≡ some d
unfolding hex_digit
hex_digit-hex_char d h = ground (arith, h)

-- the number that the digits of `hex_text` make behind those of `a`
abbrev joined : ℕ → ℕ → ℕ → ℕ
joined a zero n = a
joined a (suc k) n = joined a k (n / 16) * 16 + n % 16

hex_number-hex_text :
    (k n a : ℕ) (rest : Text) → hex_number a (hex_text k n ++ rest) ≡ hex_number (joined a k n) rest
unfolding hex_text
hex_number-hex_text zero n a rest = refl
hex_number-hex_text (suc k) n a rest =
    ap (hex_number a) (append_assoc (hex_text k (n / 16)) (hex_char (n % 16) ∷ []) rest)
    ∙ hex_number-hex_text k (n / 16) a (hex_char (n % 16) ∷ rest)
    ∙ rw (hex_digit-hex_char (n % 16) (omega arith), hex_number) refl

joined_number : (k n : ℕ) → n < 16 ^ k → joined 0 k n ≡ n
joined_number zero n h = ground (arith, h)
joined_number (suc k) n h = let e = joined_number k (n / 16) (below h) in omega (arith, e)
  where
    below : n < 16 ^ suc k → n / 16 < 16 ^ k
    below h = omega (arith, h)

length-hex_text : (k n : ℕ) → length (hex_text k n) ≡ k
unfolding hex_text
length-hex_text zero n = refl
length-hex_text (suc k) n =
    let e = length-append (hex_text k (n / 16)) (hex_char (n % 16) ∷ []) in
    let l = length-hex_text k (n / 16) in omega (arith, e, l)

take_short : (n : ℕ) (s : Text) → length s ≤ n → take n s ≡ s
take_short zero [] h = refl
take_short (suc n) [] h = refl
take_short zero (c ∷ s) h = absurd (omega (arith, h))
take_short (suc n) (c ∷ s) h = ap (◌∷◌ c) (take_short n s (omega (arith, h)))

flag_le : (attributes bit : ℕ) (name : Text) → length (flag attributes bit name) ≤ length name
flag_le attributes bit name =
    by_test (λ (s : Text). length s ≤ length name) (has attributes bit) (λ _. omega arith)
      (λ _. omega arith)

-- a flag behind a text
more :
    (s : Text) (n attributes bit : ℕ) (name : Text)
    → length s ≤ n
    → length (s ++ flag attributes bit name) ≤ n + length name
more s n attributes bit name h =
    let e = length-append s (flag attributes bit name) in
    let l = flag_le attributes bit name in omega (arith, e, l, h)

length-flags : (attributes : ℕ) → length (flags attributes) ≤ 33
length-flags a = more _ 26 a append_write (codes "APPEND ") (
    more _ 17 a time_based_authenticated_write (codes "TIMEAUTH ") (
      more _ 12 a authenticated_write (codes "AUTH ") (
        more _ 9 a hardware_error_record (codes "HW ") (
          more _ 6 a runtime_access (codes "RT ")
            (more _ 3 a bootservice_access (codes "BS ") (flag_le a non_volatile (codes "NV ")))))))

-- A buffer for 96 characters, or a larger one, does not cut the text.
pub attrs_to_string-whole :
    (attributes buffer_chars : ℕ)
    → 96 ≤ buffer_chars
    → attrs_to_string attributes buffer_chars ≡ attrs_text attributes
unfolding attrs_to_string
attrs_to_string-whole a buffer_chars h =
    let f = length-flags a in
    let e = length-append (flags a ++ codes "0x") (hex_text 8 a) in
    let p = length-append (flags a) (codes "0x") in
    let l = length-hex_text 8 a in
    take_short (buffer_chars - 1) (attrs_text a) (omega (arith, f, e, p, l, h))

-- The number at the end of the text of attributes, typed again, is read as those attributes, where UINTN
-- has whole hexadecimal digits and holds them.
pub parse_hex_uintn-hex_text :
    (max_uintn attributes : ℕ)
    → max_uintn % 16 ≡ 15
    → attributes < 2 ^ 32
    → attributes ≤ max_uintn
    → parse_hex_uintn max_uintn (codes "0x" ++ hex_text 8 attributes) ≡ some attributes
parse_hex_uintn-hex_text max_uintn a whole h fits =
    parse_hex_uintn-number max_uintn (codes "0x" ++ hex_text 8 a) whole
    ∙ rw (number, fits_test) refl
  where
    number : hex_number 0 (hex_text 8 a) ≡ some a
    number =
        ap (hex_number 0) (sym (append-nil (hex_text 8 a)))
        ∙ hex_number-hex_text 8 a 0 []
        ∙ ap some (joined_number 8 a (omega (arith, h)))

    fits_test : leb a max_uintn ≡ true
    fits_test = ground (arith, fits)
