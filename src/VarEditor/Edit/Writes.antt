-- ===== src/VarEditor/Edit/Writes.antt =====
-- Applications/RuntimeVarEditor/RuntimeVarEditor.c: what an edit may change, and when.
use mathlib.Core.List.{append_assoc}
use Prim.Native.Nat.{bit_xor}
use uefi_tools_pkg.Base.{
  ℕ, ◌<◌, ◌≡◌, ◌⊎◌, inl, inr, refl, sym, ◌∙◌, true, false, ◌&&◌, not, Option, none, some, [], ◌∷◌,
  ◌++◌, ◌%◌, ◌^◌, leb, length, set, arith, Bool-cases, Text,
}
use uefi_tools_pkg.Efi.{Status}
use uefi_tools_pkg.VarEditor.Variable.{
  Variable, has, non_volatile, bootservice_access, runtime_access, is_authenticated_variable,
  normal_write_attributes,
}
use uefi_tools_pkg.VarEditor.Parse.{parse_hex_uintn}
use uefi_tools_pkg.VarEditor.Services.{Bytes, Services, Keys}
use uefi_tools_pkg.VarEditor.Load.{loaded, load_variable_data}
use uefi_tools_pkg.VarEditor.Input.{
  Typed, waiting, typed, escaped, read_line, Answer, unanswered, answered, confirm,
}
use uefi_tools_pkg.VarEditor.Input.Bounds.{
  IsBehind, HasYes, HasYes-IsBehind, IsTyped, IsAnswered, confirm-IsAnswered, read_line-IsTyped,
}
use uefi_tools_pkg.VarEditor.Edit.{
  Edited, waits, unfinished, ended, Entered, no_line, refused, entered, below, enter_below,
  write_byte, enter_byte, enter_offset, input_chars,
}

-- attributes reached by toggling the non-volatile, boot service and runtime attributes
pub data IsToggled (old : ℕ) : ℕ → Type 0 where
  as_before : IsToggled old old
  toggled :
      {new flag : ℕ}
      → IsToggled old new
      → (flag ≡ non_volatile) ⊎ (flag ≡ bootservice_access) ⊎ (flag ≡ runtime_access)
      → IsToggled old (bit_xor new flag)

-- runtime access with boot service access, or no runtime access
abbrev pub IsConsistent : ℕ → Type 0
IsConsistent attributes =
    (has attributes runtime_access && not (has attributes bootservice_access)) ≡ false

-- the line that is typed next is a number below the limit
abbrev pub IsNumber : ℕ → ℕ → Keys → Text → ℕ → Keys → Type 0
IsNumber max_uintn limit keys line n rest =
    (read_line input_chars keys ≡ typed line rest)
    × (parse_hex_uintn max_uintn line ≡ some n)
    × (n < limit)

module _ {W : Type 0} (svc : Services W) (v : Variable) (w : W) where
  abbrev pub set_to : ℕ → Bytes → Status × W
  set_to attributes bytes =
      svc.set_variable v.name v.vendor_guid (normal_write_attributes attributes) bytes w

  -- `keys` hold two lines, the offset and the value, and a key that agrees; the byte there is set in the
  -- data that were read, and nothing else. The variable is not authenticated.
  pub data IsByteWrite (max_uintn : ℕ) (keys : Keys) : Status × W → Type 0 where
    byte_write :
        {bytes : Bytes} {attributes offset value : ℕ} {first second : Text}
        {behind rest left : Keys}
        → load_variable_data svc v w ≡ loaded bytes attributes
        → is_authenticated_variable attributes ≡ false
        → IsNumber max_uintn (length bytes) keys first offset behind
        → IsNumber max_uintn 256 behind second value rest
        → confirm rest ≡ answered true left
        → IsByteWrite max_uintn keys (set_to attributes (set bytes offset value))

  -- The data that were read are written with other attributes, where these are consistent. The variable
  -- is not authenticated.
  pub data IsAttributeWrite : Status × W → Type 0 where
    attribute_write :
        {bytes : Bytes} {attributes new : ℕ}
        → load_variable_data svc v w ≡ loaded bytes attributes
        → is_authenticated_variable attributes ≡ false
        → IsToggled (normal_write_attributes attributes) new
        → IsConsistent new
        → IsAttributeWrite (set_to new bytes)

  -- the variable is written without data, where it is not listed as authenticated
  pub data IsRemoval : Status × W → Type 0 where
    removal : is_authenticated_variable v.attributes ≡ false → IsRemoval (set_to v.attributes [])

  -- the writes that the tool may make to a variable
  pub data IsWrite (max_uintn : ℕ) (result : Status × W) : Type 0 where
    of_byte : {keys : Keys} → IsByteWrite max_uintn keys result → IsWrite max_uintn result
    of_attributes : IsAttributeWrite result → IsWrite max_uintn result
    of_removal : IsRemoval result → IsWrite max_uintn result

module _ {W : Type 0} (w : W) (Writes : Status × W → Type 0) where
  -- nothing is changed, or one of the keys agrees to one write, whose status is returned
  abbrev pub IsGuarded : Keys → Status → W → Type 0
  IsGuarded keys status after = (after ≡ w) ⊎ (HasYes keys × Writes (status, after))

  -- the edit takes its keys from the front of what is typed
  abbrev pub IsEdit : Keys → Edited W → Type 0
  IsEdit keys waits = Unit {0}
  IsEdit keys unfinished = ⊥
  IsEdit keys (ended status note rest after) =
      ((used : Keys) × (keys ≡ used ++ rest)) × IsGuarded keys status after

  pub IsEdit-later :
      (keys rest : Keys) (e : Edited W) → IsBehind rest keys → IsEdit rest e → IsEdit keys e
  IsEdit-later keys rest waits b h = tt
  IsEdit-later keys rest unfinished b h = h
  IsEdit-later keys rest (ended status note left after) (key, used, e) ((used', e'), g) = (
    (
      key ∷ (used ++ used'),
      e ∙ (λ i. key ∷ (used ++ e' i)) ∙ (λ i. key ∷ sym (append_assoc used used' left) i),
    ),
    elim g [
      | inl same ↦ inl same
      | inr (yes_key, write) ↦ inr (HasYes-IsBehind rest keys (key, used, e) yes_key, write)
    ],
  )

-- an edit that makes no write
pub IsEdit-none : (keys rest : Keys) → IsBehind rest keys → ((used : Keys) × (keys ≡ used ++ rest))
IsEdit-none keys rest (key, used, e) = (key ∷ used, e)

-- some keys are used up, by the line of a number below the limit
abbrev pub IsEntered : ℕ → ℕ → Keys → Entered → Type 0
IsEntered max_uintn limit keys no_line = Unit {0}
IsEntered max_uintn limit keys (refused rest) = IsBehind rest keys
IsEntered max_uintn limit keys (entered n rest) =
    IsBehind rest keys × ((line : Text) × IsNumber max_uintn limit keys line n rest)

pub enter_below-IsEntered :
    (max_uintn limit : ℕ) (keys : Keys)
    → IsEntered max_uintn limit keys (enter_below max_uintn limit (read_line input_chars keys))
enter_below-IsEntered max_uintn limit keys =
    by_line (read_line input_chars keys) refl (read_line-IsTyped input_chars keys (omega arith))
  where
    by_number :
        (s : Text) (rest : Keys) (o : Option ℕ)
        → IsBehind rest keys
        → read_line input_chars keys ≡ typed s rest
        → parse_hex_uintn max_uintn s ≡ o
        → IsEntered max_uintn limit keys (below limit o rest)
    by_number s rest none behind e f = behind
    by_number s rest (some n) behind e f = elim (Bool-cases (leb limit n)) [
      | inl large ↦ rw large behind
      | inr small ↦ rw small (behind, (s, (e, f, ground (arith, small))))
    ]

    by_line :
        (t : Typed)
        → read_line input_chars keys ≡ t
        → IsTyped input_chars keys t
        → IsEntered max_uintn limit keys (enter_below max_uintn limit t)
    by_line waiting e h = tt
    by_line (escaped rest) e h = h
    by_line (typed s rest) e h = by_number s rest (parse_hex_uintn max_uintn s) h.1 e refl

module _ {W : Type 0} (svc : Services W) (v : Variable) (w : W) {bytes : Bytes} {attributes : ℕ}
    (read : load_variable_data svc v w ≡ loaded bytes attributes)
    (plain : is_authenticated_variable attributes ≡ false) (max_uintn : ℕ) (keys : Keys) where
  write_byte-IsEdit :
      (offset value : ℕ) (first second : Text) (behind rest : Keys) (a : Answer)
      → IsNumber max_uintn (length bytes) keys first offset behind
      → IsNumber max_uintn 256 behind second value rest
      → confirm rest ≡ a
      → IsAnswered rest a
      → IsEdit w
          (IsByteWrite svc v w max_uintn keys)
          rest
          (write_byte svc v bytes attributes offset value a w)
  write_byte-IsEdit offset value first second behind rest unanswered h k e answer = tt
  write_byte-IsEdit offset value first second behind rest (answered false left) h k e answer =
      (IsEdit-none rest left answer, inl refl)
  write_byte-IsEdit offset value first second behind rest (answered true left) h k e answer =
      let whole : value % 2 ^ 8 ≡ value = let small = k.2 in omega (arith, small) in
      rw whole (IsEdit-none rest left answer.0, inr (answer.1, byte_write read plain h k e))

  enter_byte-IsEdit :
      (offset : ℕ) (first : Text) (behind : Keys) (value : Entered)
      → IsNumber max_uintn (length bytes) keys first offset behind
      → IsEntered max_uintn 256 behind value
      → IsEdit w
          (IsByteWrite svc v w max_uintn keys)
          behind
          (enter_byte svc v bytes attributes offset value w)
  enter_byte-IsEdit offset first behind no_line h e = tt
  enter_byte-IsEdit offset first behind (refused rest) h e = (IsEdit-none behind rest e, inl refl)
  enter_byte-IsEdit offset first behind (entered value rest) h (used, (second, number)) =
      IsEdit-later w (IsByteWrite svc v w max_uintn keys) behind rest
        (write_byte svc v bytes attributes offset value (confirm rest) w) used
        (write_byte-IsEdit offset value first second behind rest (confirm rest) h number refl
          (confirm-IsAnswered rest))

  pub enter_offset-IsEdit :
      (offset : Entered)
      → IsEntered max_uintn (length bytes) keys offset
      → IsEdit w
          (IsByteWrite svc v w max_uintn keys)
          keys
          (enter_offset svc v max_uintn bytes attributes offset w)
  enter_offset-IsEdit no_line e = tt
  enter_offset-IsEdit (refused rest) e = (IsEdit-none keys rest e, inl refl)
  enter_offset-IsEdit (entered offset rest) (used, (first, number)) =
      let value = enter_below max_uintn 256 (read_line input_chars rest) in
      IsEdit-later w (IsByteWrite svc v w max_uintn keys) keys rest
        (enter_byte svc v bytes attributes offset value w) used
        (enter_byte-IsEdit offset first rest value number
          (enter_below-IsEntered max_uintn 256 rest))
