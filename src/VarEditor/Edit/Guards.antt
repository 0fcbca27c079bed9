-- ===== src/VarEditor/Edit/Guards.antt =====
-- Applications/RuntimeVarEditor/RuntimeVarEditor.c: the three edits and the keys that agree to them.
use Prim.Native.Nat.{bit_xor}
use uefi_tools_pkg.Base.{
  ℕ, zero, suc, ◌+◌, ◌<◌, ◌≡◌, ◌⊎◌, inl, inr, refl, true, false, none, some, [], ◌∷◌, ◌==◌, length,
  arith, subst, Bool-cases,
}
use uefi_tools_pkg.Efi.{Status, error, invalid_parameter, security_violation}
use uefi_tools_pkg.VarEditor.Variable.{
  Variable, non_volatile, bootservice_access, runtime_access, is_authenticated_variable,
  normal_write_attributes,
}
use uefi_tools_pkg.VarEditor.Services.{Bytes, Services, Key, Keys}
use uefi_tools_pkg.VarEditor.Load.{
  Note, read_failed, empty_variable, read_only, attributes_written, Loaded, failed, loaded,
  load_variable_data,
}
use uefi_tools_pkg.VarEditor.Input.{read_line, Answer, unanswered, answered, confirm}
use uefi_tools_pkg.VarEditor.Input.Bounds.{
  IsBehind-skip, IsBehind-next, length-IsBehind, IsAnswered, confirm-IsAnswered,
}
use uefi_tools_pkg.VarEditor.Edit.{
  ended, enter_below, AttributeKey, cancels, saves, keeps, toggles, attribute_key, write, edit_byte,
  attributes_loop, edit_attributes, delete_variable, input_chars,
}
use uefi_tools_pkg.VarEditor.Edit.Writes.{
  IsToggled, as_before, toggled, IsConsistent, IsByteWrite, IsAttributeWrite, attribute_write,
  IsRemoval, removal, IsEdit, IsEdit-later, IsEdit-none, enter_below-IsEntered, enter_offset-IsEdit,
}

attribute_key-toggles :
    (new flag : ℕ) (key : Key)
    → attribute_key new key ≡ toggles flag
    → (flag ≡ non_volatile) ⊎ (flag ≡ bootservice_access) ⊎ (flag ≡ runtime_access)
unfolding attribute_key
attribute_key-toggles new flag key h = ground (arith, h)

attribute_key-saves : (new : ℕ) (key : Key) → attribute_key new key ≡ saves → IsConsistent new
unfolding attribute_key
attribute_key-saves new key h = ground (arith, h)

AttributeKey-cases :
    (k : AttributeKey)
    → (k ≡ cancels) ⊎ (k ≡ saves) ⊎ (k ≡ keeps) ⊎ ((flag : ℕ) × (k ≡ toggles flag))
AttributeKey-cases cancels = inl refl
AttributeKey-cases saves = inr (inl refl)
AttributeKey-cases keeps = inr (inr (inl refl))
AttributeKey-cases (toggles flag) = inr (inr (inr (flag, refl)))

Answer-cases :
    (a : Answer)
    → (a ≡ unanswered)
      ⊎ ((rest : Keys) × (a ≡ answered true rest))
      ⊎ ((rest : Keys) × (a ≡ answered false rest))
Answer-cases unanswered = inl refl
Answer-cases (answered true rest) = inr (inl (rest, refl))
Answer-cases (answered false rest) = inr (inr (rest, refl))

answer-IsAnswered : (keys : Keys) (a : Answer) → confirm keys ≡ a → IsAnswered keys a
answer-IsAnswered keys a e = subst (IsAnswered keys) e (confirm-IsAnswered keys)

Loaded-cases :
    (l : Loaded)
    → ((s : Status) × (l ≡ failed s))
      ⊎ ((bytes : Bytes) × (attributes : ℕ) × (l ≡ loaded bytes attributes))
Loaded-cases (failed s) = inl (s, refl)
Loaded-cases (loaded bytes attributes) = inr (bytes, attributes, refl)

module _ {W : Type 0} (svc : Services W) (v : Variable) (w : W) where
  module _ {bytes : Bytes} {attributes : ℕ}
      (read : load_variable_data svc v w ≡ loaded bytes attributes)
      (plain : is_authenticated_variable attributes ≡ false) where
    attributes_loop-IsEdit :
        (fuel new : ℕ) (keys : Keys)
        → length keys < fuel
        → IsToggled (normal_write_attributes attributes) new
        → IsEdit w (IsAttributeWrite svc v w) keys (attributes_loop svc v fuel bytes new keys w)
    unfolding attributes_loop
    attributes_loop-IsEdit zero new keys enough t = absurd (omega (arith, enough))
    attributes_loop-IsEdit (suc fuel) new [] enough t = tt
    attributes_loop-IsEdit (suc fuel) new (none ∷ keys) enough t =
        IsEdit-later w (IsAttributeWrite svc v w) (none ∷ keys) keys
          (attributes_loop svc v fuel bytes new keys w) (IsBehind-next none keys)
          (attributes_loop-IsEdit fuel new keys (omega (arith, enough)) t)
    attributes_loop-IsEdit (suc fuel) new (some key ∷ keys) enough t =
        let next = IsBehind-next (some key) keys in
        let again = λ (new' : ℕ) (t' : IsToggled (normal_write_attributes attributes) new').
          IsEdit-later w (IsAttributeWrite svc v w) (some key ∷ keys) keys
            (attributes_loop svc v fuel bytes new' keys w) next
            (attributes_loop-IsEdit fuel new' keys (omega (arith, enough)) t') in
        elim (AttributeKey-cases (attribute_key new key)) [
          | inl e ↦ rw (e, attributes_loop) (IsEdit-none (some key ∷ keys) keys next, inl refl)
          | inr (inl e) ↦
              rw (e, attributes_loop)
                (elim (Answer-cases (confirm keys)) [
                  | inl f ↦ rw f tt
                  | inr (inl (rest, f)) ↦
                      let (behind, agreed) = answer-IsAnswered keys (answered true rest) f in
                      rw f (
                        IsEdit-later w (IsAttributeWrite svc v w) (some key ∷ keys) keys
                          (write svc v attributes_written new bytes rest w) next
                          (
                            IsEdit-none keys rest behind,
                            inr (
                              agreed,
                              attribute_write read plain t (attribute_key-saves new key e),
                            ),
                          ))
                  | inr (inr (rest, f)) ↦
                      let behind =
                        IsBehind-skip (some key) rest keys
                          (answer-IsAnswered keys (answered false rest) f) in
                      let shorter = length-IsBehind rest (some key ∷ keys) behind in
                      rw f (
                        IsEdit-later w (IsAttributeWrite svc v w) (some key ∷ keys) rest
                          (attributes_loop svc v fuel bytes new rest w) behind
                          (attributes_loop-IsEdit fuel new rest (omega (arith, enough, shorter)) t))
                ])
          | inr (inr (inl e)) ↦ rw (e, attributes_loop) (again new t)
          | inr (inr (inr (flag, e))) ↦
              rw (e, attributes_loop)
                (again (bit_xor new flag) (toggled t (attribute_key-toggles new flag key e)))
        ]

  ended-IsEdit :
      (Writes : Status × W → Type 0) (keys : Keys) (status : Status) (note : Note)
      → IsEdit w Writes keys (ended status note keys w)
  ended-IsEdit Writes keys status note = (([], refl), inl refl)

  -- Whatever is typed: `RveEditByte` changes the variables only by one call of `SetVariable` on a variable
  -- that can be read and is not authenticated, after two lines with the numbers of an offset in its data
  -- and of a byte, and a key that agrees. The call has the data that were read, but for that byte at that
  -- offset, and the status of the call is returned. Else the variables stay as they were. The keys are
  -- taken from the front of what is typed.
  pub edit_byte-IsEdit :
      (max_uintn : ℕ) (keys : Keys)
      → IsEdit w (IsByteWrite svc v w max_uintn keys) keys (edit_byte svc v max_uintn keys w)
  unfolding edit_byte
  edit_byte-IsEdit max_uintn keys = elim (Loaded-cases (load_variable_data svc v w)) [
    | inl (s, e) ↦
        rw (e, edit_byte) (ended-IsEdit (IsByteWrite svc v w max_uintn keys) keys s (read_failed s))
    | inr (bytes, attributes, e) ↦ elim (Bool-cases (length bytes == 0)) [
      | inl none_left ↦
          rw (e, none_left, edit_byte)
            (ended-IsEdit (IsByteWrite svc v w max_uintn keys) keys (error invalid_parameter)
              empty_variable)
      | inr some_left ↦ elim (Bool-cases (is_authenticated_variable attributes)) [
        | inl auth ↦
            rw (e, some_left, auth, edit_byte)
              (ended-IsEdit (IsByteWrite svc v w max_uintn keys) keys (error security_violation)
                read_only)
        | inr plain ↦
            rw (e, some_left, plain, edit_byte)
              (enter_offset-IsEdit svc v w e plain max_uintn keys
                (enter_below max_uintn (length bytes) (read_line input_chars keys))
                (enter_below-IsEntered max_uintn (length bytes) keys))
      ]
    ]
  ]

  -- Whatever is typed: `RveEditAttributes` returns or waits for a key. It changes the variables only by
  -- one call of `SetVariable`, after a key that agrees, on a variable that can be read and is not
  -- authenticated, with the data that was read and with the attributes toggled in NV, BS and RT only, where
  -- RT requires BS, and returns its status; else they stay as they were.
  pub edit_attributes-IsEdit :
      (keys : Keys) → IsEdit w (IsAttributeWrite svc v w) keys (edit_attributes svc v keys w)
  unfolding edit_attributes
  edit_attributes-IsEdit keys = elim (Loaded-cases (load_variable_data svc v w)) [
    | inl (s, e) ↦
        rw (e, edit_attributes) (ended-IsEdit (IsAttributeWrite svc v w) keys s (read_failed s))
    | inr (bytes, attributes, e) ↦ elim (Bool-cases (is_authenticated_variable attributes)) [
      | inl auth ↦
          rw (e, auth, edit_attributes)
            (ended-IsEdit (IsAttributeWrite svc v w) keys (error security_violation) read_only)
      | inr plain ↦
          rw (e, plain, edit_attributes)
            (attributes_loop-IsEdit e plain (length keys + 1) (normal_write_attributes attributes)
              keys (omega arith) as_before)
    ]
  ]

  -- Whatever is typed: `RveDeleteVariable` changes the variables only by one call of `SetVariable` with
  -- no data, after a key that agrees, on a variable that is not listed as authenticated, and returns its
  -- status; else they stay as they were.
  pub delete_variable-IsEdit :
      (keys : Keys) → IsEdit w (IsRemoval svc v w) keys (delete_variable svc v keys w)
  unfolding delete_variable
  delete_variable-IsEdit keys = elim (Bool-cases (is_authenticated_variable v.attributes)) [
    | inl auth ↦
        rw (auth, delete_variable)
          (ended-IsEdit (IsRemoval svc v w) keys (error security_violation) read_only)
    | inr plain ↦ elim (Answer-cases (confirm keys)) [
      | inl f ↦ rw (plain, f, delete_variable) tt
      | inr (inl (rest, f)) ↦
          let (behind, agreed) = answer-IsAnswered keys (answered true rest) f in
          rw (plain, f, delete_variable) (IsEdit-none keys rest behind, inr (agreed, removal plain))
      | inr (inr (rest, f)) ↦
          rw (plain, f, delete_variable)
            (IsEdit-none keys rest (answer-IsAnswered keys (answered false rest) f), inl refl)
    ]
  ]
