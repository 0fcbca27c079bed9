-- ===== src/VarEditor/Input/Bounds.antt =====
-- Applications/RuntimeVarEditor/RuntimeVarEditor.c: the sizes of the lines that `RveReadLine` reads, and
-- the keys that it and `RveConfirm` leave.
use mathlib.Core.List.{append_assoc, append-nil}
use uefi_tools_pkg.Base.{
  ℕ, ◌+◌, ◌≤◌, ◌<◌, ◌≡◌, ◌⊎◌, refl, sym, ◌∙◌, ap, true, false, Option, none, some, [], ◌∷◌, ◌++◌,
  map, Text, length, length-append, Bool-cases, inl, inr, arith,
}
use uefi_tools_pkg.VarEditor.Services.{Key, Keys}
use uefi_tools_pkg.VarEditor.Input.{
  carriage_return, without_last, LineKey, enters, escapes, leaves, Typed, waiting, typed, escaped,
  line_key, read_line_on, read_line, Answer, unanswered, answered, is_yes, is_no, confirm,
}

length-without_last : (s : Text) → length (without_last s) ≤ length s
length-without_last [] = omega arith
length-without_last (ch ∷ []) = omega arith
length-without_last (ch ∷ next ∷ rest) = omega (arith, length-without_last (next ∷ rest))

-- the keys that are left when at least one is used up
abbrev pub IsBehind : Keys → Keys → Type 0
IsBehind rest keys = (key : Option Key) × (used : Keys) × (keys ≡ key ∷ (used ++ rest))

pub IsBehind-skip :
    (key : Option Key) (rest keys : Keys) → IsBehind rest keys → IsBehind rest (key ∷ keys)
IsBehind-skip key rest keys (first, used, e) = (key, first ∷ used, ap (◌∷◌ key) e)

pub IsBehind-next : (key : Option Key) (keys : Keys) → IsBehind keys (key ∷ keys)
IsBehind-next key keys = (key, [], refl)

pub IsBehind-trans : (a b c : Keys) → IsBehind a b → IsBehind b c → IsBehind a c
IsBehind-trans a b c (k, used, e) (k', used', e') = (
  k',
  used' ++ (k ∷ used),
  e' ∙ (λ i. k' ∷ (used' ++ e i)) ∙ (λ i. k' ∷ sym (append_assoc used' (k ∷ used) a) i),
)

pub length-IsBehind : (rest keys : Keys) → IsBehind rest keys → length rest < length keys
length-IsBehind rest keys (key, used, e) =
    let sum = length-append used rest in let same = ap length e in omega (arith, sum, same)

-- one of the keys has the property
abbrev pub HasKey : (Key → Type 0) → Keys → Type 0
HasKey P keys =
    (before : Keys) × (key : Key) × (after : Keys) × (keys ≡ before ++ (some key ∷ after)) × P key

-- one of the keys agrees
abbrev pub HasYes : Keys → Type 0
HasYes = HasKey (λ key. is_yes key ≡ true)

pub HasYes-skip : (key : Option Key) (keys : Keys) → HasYes keys → HasYes (key ∷ keys)
HasYes-skip key keys (before, agreeing, after, e, h) =
    (key ∷ before, agreeing, after, ap (◌∷◌ key) e, h)

pub HasKey-IsBehind :
    (P : Key → Type 0) (rest keys : Keys) → IsBehind rest keys → HasKey P rest → HasKey P keys
HasKey-IsBehind P rest keys (k, used, e) (before, found, after, e', h) = (
  k ∷ (used ++ before),
  found,
  after,
  e ∙ (λ i. k ∷ (used ++ e' i)) ∙ (λ i. k ∷ sym (append_assoc used before (some found ∷ after)) i),
  h,
)

pub HasYes-IsBehind : (rest keys : Keys) → IsBehind rest keys → HasYes rest → HasYes keys
HasYes-IsBehind = HasKey-IsBehind (λ key. is_yes key ≡ true)

-- the line fits in the buffer with its terminator, and some keys are used up
abbrev pub IsTyped : ℕ → Keys → Typed → Type 0
IsTyped buffer_chars keys waiting = Unit {0}
IsTyped buffer_chars keys (typed s rest) = (length s < buffer_chars) × IsBehind rest keys
IsTyped buffer_chars keys (escaped rest) = IsBehind rest keys

-- some keys are used up, and one of them agrees where the answer is yes
abbrev pub IsAnswered : Keys → Answer → Type 0
IsAnswered keys unanswered = Unit {0}
IsAnswered keys (answered false rest) = IsBehind rest keys
IsAnswered keys (answered true rest) = IsBehind rest keys × HasYes keys

LineKey-cases : (k : LineKey) → (k ≡ enters) ⊎ (k ≡ escapes) ⊎ ((s : Text) × (k ≡ leaves s))
LineKey-cases enters = inl refl
LineKey-cases escapes = inr (inl refl)
LineKey-cases (leaves s) = inr (inr (s, refl))

IsTyped-skip :
    (n : ℕ) (key : Option Key) (keys : Keys) (t : Typed)
    → IsTyped n keys t
    → IsTyped n (key ∷ keys) t
IsTyped-skip n key keys waiting h = h
IsTyped-skip n key keys (typed s rest) h = (h.0, IsBehind-skip key rest keys h.1)
IsTyped-skip n key keys (escaped rest) h = IsBehind-skip key rest keys h

IsAnswered-skip :
    (key : Option Key) (keys : Keys) (a : Answer) → IsAnswered keys a → IsAnswered (key ∷ keys) a
IsAnswered-skip key keys unanswered h = h
IsAnswered-skip key keys (answered false rest) h = IsBehind-skip key rest keys h
IsAnswered-skip key keys (answered true rest) h =
    (IsBehind-skip key rest keys h.0, HasYes-skip key keys h.1)

line_key-fits :
    (n : ℕ) (buffer s : Text) (key : Key)
    → length buffer < n
    → line_key n buffer key ≡ leaves s
    → length s < n
unfolding line_key
line_key-fits n buffer s key h e =
    let shorter = length-without_last buffer in
    let longer = length-append buffer (key.unicode ∷ []) in ground (arith, h, e, shorter, longer)

read_line_on-IsTyped :
    (n : ℕ) (buffer : Text) (keys : Keys)
    → length buffer < n
    → IsTyped n keys (read_line_on n buffer keys)
unfolding read_line_on
read_line_on-IsTyped n buffer [] h = tt
read_line_on-IsTyped n buffer (none ∷ keys) h =
    IsTyped-skip n none keys (read_line_on n buffer keys) (read_line_on-IsTyped n buffer keys h)
read_line_on-IsTyped n buffer (some key ∷ keys) h = elim (LineKey-cases (line_key n buffer key)) [
  | inl e ↦ rw (e, read_line_on) (h, IsBehind-next (some key) keys)
  | inr (inl e) ↦ rw (e, read_line_on) (IsBehind-next (some key) keys)
  | inr (inr (s, e)) ↦
      rw (e, read_line_on)
        (IsTyped-skip n (some key) keys (read_line_on n s keys)
          (read_line_on-IsTyped n s keys (line_key-fits n buffer s key h e)))
]

pub confirm-IsAnswered : (keys : Keys) → IsAnswered keys (confirm keys)
unfolding confirm
confirm-IsAnswered [] = tt
confirm-IsAnswered (none ∷ keys) =
    IsAnswered-skip none keys (confirm keys) (confirm-IsAnswered keys)
confirm-IsAnswered (some key ∷ keys) =
    let rest = IsAnswered-skip (some key) keys (confirm keys) (confirm-IsAnswered keys) in
    elim (Bool-cases (is_yes key)) [
      | inl e ↦ rw (e, confirm) (IsBehind-next (some key) keys, ([], key, keys, refl, e))
      | inr e ↦ elim (Bool-cases (is_no key)) [
        | inl f ↦ rw (e, f, confirm) (IsBehind-next (some key) keys)
        | inr f ↦ rw (e, f, confirm) rest
      ]
    ]

abbrev pub press : ℕ → Option Key
press ch = some (record { unicode = ch; scan = 0 })

abbrev pub AllPrintable : Text → Type 0
AllPrintable [] = Unit {0}
AllPrintable (ch ∷ rest) = (32 ≤ ch) × AllPrintable rest

line_key-adds :
    (n : ℕ) (buffer : Text) (ch : ℕ)
    → 32 ≤ ch
    → length buffer + 1 < n
    → line_key n buffer (record { unicode = ch; scan = 0 }) ≡ leaves (buffer ++ (ch ∷ []))
unfolding line_key
line_key-adds n buffer ch h k = ground (arith, h, k)

read_line_on-typed :
    (n : ℕ) (buffer s : Text) (keys : Keys)
    → AllPrintable s
    → length buffer + length s < n
    → read_line_on n buffer (map press s ++ (press carriage_return ∷ keys))
      ≡ typed (buffer ++ s) keys
unfolding read_line_on line_key
read_line_on-typed n buffer [] keys p h = λ i. typed (sym (append-nil buffer) i) keys
read_line_on-typed n buffer (ch ∷ s) keys p h =
    let longer = length-append buffer (ch ∷ []) in
    rw (line_key-adds n buffer ch p.0 (omega (arith, h)), read_line_on)
      (read_line_on-typed n (buffer ++ (ch ∷ [])) s keys p.1 (omega (arith, longer, h))
        ∙ (λ i. typed (append_assoc buffer (ch ∷ []) s i) keys))

-- Where printable characters and then the return key are pressed and the text fits in the buffer
-- with its terminator: `RveReadLine` returns that text and leaves the keys behind the return key.
pub read_line-typed :
    (n : ℕ) (s : Text) (keys : Keys)
    → AllPrintable s
    → length s < n
    → read_line n (map press s ++ (press carriage_return ∷ keys)) ≡ typed s keys
read_line-typed n s keys p h = read_line_on-typed n [] s keys p (omega (arith, h))

-- With a buffer that is not empty: whatever keys are pressed, a line that `RveReadLine` returns fits
-- in the buffer with its terminator, and a line that is entered or escaped uses up at least one key.
pub read_line-IsTyped : (n : ℕ) (keys : Keys) → 0 < n → IsTyped n keys (read_line n keys)
read_line-IsTyped n keys h = read_line_on-IsTyped n [] keys h
