-- ===== src/VarEditor/Load/Lists.antt =====
-- Applications/RuntimeVarEditor/RuntimeVarEditor.c: what `RveLoadVariables` finds in a store of variables.
use uefi_tools_pkg.Base.{
  ℕ, ◌+◌, ◌*◌, ◌%◌, ◌≤◌, ◌<◌, ◌≡◌, refl, Bool, true, false, ◌&&◌, not, List, [], ◌∷◌, ◌++◌, ltb,
  leb, ◌==◌, if◌then◌else◌, Text, length, Bool-cases, inl, inr, arith,
}
use uefi_tools_pkg.Efi.{Status, success, error, buffer_too_small, not_found, efi_error}
use uefi_tools_pkg.VarEditor.Variable.{Variable, has, runtime_access}
use uefi_tools_pkg.VarEditor.Services.{Request, name_copy, variable_list, name_buffer, Services}
use uefi_tools_pkg.VarEditor.Load.{
  Cursor, Round, continued, read_variable_info, new_variable, add_variable, take_name, load_round,
}

-- the name and the GUID of a variable
abbrev pub Entry : Type 0
Entry = Text × ℕ

-- the bytes of a name with its terminator
abbrev pub name_bytes : Text → ℕ
name_bytes name = (length name + 1) * 2

abbrev pub AllShort : List Entry → Type 0
AllShort [] = Unit {0}
AllShort ((name, guid) ∷ rest) = (length name ≤ 512) × AllShort rest

module _ {W : Type 0} (svc : Services W) (w : W) where
  -- `GetNextVariableName` as it is specified: behind this name come these variables
  abbrev pub Follows : Text → ℕ → List Entry → Type 0
  Follows name guid [] =
      (size : ℕ) → (svc.next_variable_name size name guid w).status ≡ error not_found
  Follows name guid ((next, next_guid) ∷ rest) =
      ((size : ℕ)
        → svc.next_variable_name size name guid w ≡ (
            if ltb size (name_bytes next)
            then record {
              status = error buffer_too_small;
              size = name_bytes next;
              name = name;
              guid = guid;
            }
            else record {
              status = success;
              size = name_bytes next;
              name = next;
              guid = next_guid;
            }))
      × Follows next next_guid rest

  abbrev pub HasMemory : Type 0
  HasMemory = (round : ℕ) (what : Request) → svc.allocates round what w ≡ true

  abbrev pub info_of : Text → ℕ → Status × Variable
  info_of name guid = read_variable_info svc (new_variable name guid) w

  abbrev pub is_listed : Text → ℕ → Bool
  is_listed name guid =
      not (efi_error (info_of name guid).0) && has (info_of name guid).1.attributes runtime_access

  -- the variables that have runtime access and can be read
  abbrev pub runtime_variables : List Entry → List Variable
  runtime_variables [] = []
  runtime_variables ((name, guid) ∷ rest) =
      if is_listed name guid
      then (info_of name guid).1 ∷ runtime_variables rest
      else runtime_variables rest

  abbrev pub with_next : Text → ℕ → List Variable → List Variable
  with_next name guid found =
      if is_listed name guid then found ++ ((info_of name guid).1 ∷ []) else found

  -- the round goes on behind this name
  abbrev pub Continues : Text → ℕ → List Variable → Round → Type 0
  Continues name guid found r =
      (at : Cursor) × (r ≡ continued at found) × (at.name ≡ name) × (at.guid ≡ guid)

  module _ (memory : HasMemory) where
    add_variable-Continues :
        (round : ℕ) (at : Cursor) (found : List Variable)
        → Continues at.name at.guid
            (with_next at.name at.guid found)
            (add_variable svc round at found w)
    unfolding add_variable
    add_variable-Continues round at found = elim (Bool-cases (length found == at.capacity)) [
      | inl e ↦ (
        record at { capacity = at.capacity * 2 },
        rw
            (
              e,
              memory round (name_copy (length at.name + 1)),
              memory round (variable_list (at.capacity * 2)),
            )
            refl,
        refl,
        refl,
      )
      | inr e ↦ (at, rw (e, memory round (name_copy (length at.name + 1))) refl, refl, refl)
    ]

    take_name-Continues :
        (round : ℕ) (at : Cursor) (found : List Variable) (next : Text) (next_guid size : ℕ)
        → length found < 2048
        → length next ≤ 512
        → Continues next next_guid (with_next next next_guid found) (
            take_name svc round at found
              (record { status = success; size = size; name = next; guid = next_guid })
              w)
    unfolding take_name
    take_name-Continues round at found next next_guid size few short =
        let room : leb 2048 (length found) ≡ false = ground (arith, few) in
        let fits : ltb 512 (length next) ≡ false = ground (arith, short) in
        rw (room, fits)
          (add_variable-Continues round (record at { name = next; guid = next_guid }) found)

    pub load_round-Continues :
        (round : ℕ) (at : Cursor) (found : List Variable) (next : Text) (next_guid : ℕ)
        (rest : List Entry)
        → Follows at.name at.guid ((next, next_guid) ∷ rest)
        → length found < 2048
        → length next ≤ 512
        → Continues next next_guid
            (with_next next next_guid found)
            (load_round svc round at found w)
    unfolding load_round
    load_round-Continues round at found next next_guid rest (call, follow) few short =
        elim (Bool-cases (ltb at.name_capacity (name_bytes next))) [
          | inr roomy ↦
              rw (call at.name_capacity, roomy)
                (take_name-Continues round at found next next_guid (name_bytes next) few short)
          | inl small ↦
              let bounded : ltb 1026 (name_bytes next) ≡ false = ground (arith, short) in
              let even : (name_bytes next % 2 == 0) ≡ true = ground arith in
              let enough : ltb (name_bytes next) (name_bytes next) ≡ false = ground arith in
              rw
                (
                  call at.name_capacity,
                  small,
                  bounded,
                  even,
                  memory round (name_buffer (name_bytes next)),
                  call (name_bytes next),
                  enough,
                )
                (take_name-Continues round (record at { name_capacity = name_bytes next }) found
                  next next_guid (name_bytes next) few short)
        ]
