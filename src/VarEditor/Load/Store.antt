-- ===== src/VarEditor/Load/Store.antt =====
-- Applications/RuntimeVarEditor/RuntimeVarEditor.c: `RveLoadVariables` on all of a store of variables.
use mathlib.Core.List.{append-nil, append_assoc}
use uefi_tools_pkg.Base.{
  ℕ, zero, suc, ◌+◌, ◌<◌, ◌≡◌, refl, sym, ◌∙◌, ap, false, none, some, List, [], ◌∷◌, ◌++◌, ltb,
  Text, length, Bool-cases, inl, inr, arith, subst,
}
use uefi_tools_pkg.Base.Insertion.{insertion_sort, sort_onto}
use uefi_tools_pkg.Efi.{success}
use uefi_tools_pkg.VarEditor.Variable.{Variable, sort_variables}
use uefi_tools_pkg.VarEditor.Services.{variable_list, name_buffer, Services}
use uefi_tools_pkg.VarEditor.Load.{
  Cursor, ended, finished, take_name, load_round, load_loop, first_cursor, load_variables,
}
use uefi_tools_pkg.VarEditor.Load.Lists.{
  Entry, AllShort, Follows, HasMemory, is_listed, info_of, runtime_variables, with_next,
  load_round-Continues,
}
use uefi_tools_pkg.Base.{length-append}

module _ {W : Type 0} (svc : Services W) (w : W) where
  runtime_variables-with_next :
      (name : Text) (guid : ℕ) (rest : List Entry) (found : List Variable)
      → with_next svc w name guid found ++ runtime_variables svc w rest
        ≡ found ++ runtime_variables svc w ((name, guid) ∷ rest)
  runtime_variables-with_next name guid rest found = elim (Bool-cases (is_listed svc w name guid)) [
    | inl e ↦
        rw e (append_assoc found ((info_of svc w name guid).1 ∷ []) (runtime_variables svc w rest))
    | inr e ↦ rw e refl
  ]

  length-with_next :
      (name : Text) (guid : ℕ) (rest : List Entry) (found : List Variable)
      → length (with_next svc w name guid found) + length (runtime_variables svc w rest)
        ≡ length found + length (runtime_variables svc w ((name, guid) ∷ rest))
  length-with_next name guid rest found =
      sym (length-append (with_next svc w name guid found) (runtime_variables svc w rest))
      ∙ ap length (runtime_variables-with_next name guid rest found)
      ∙ length-append found (runtime_variables svc w ((name, guid) ∷ rest))

  load_round_ends :
      (round : ℕ) (at : Cursor) (found : List Variable)
      → Follows svc w at.name at.guid []
      → load_round svc round at found w ≡ ended success none
  unfolding load_round take_name
  load_round_ends round at found follow = rw (follow at.name_capacity) refl

  module _ (memory : HasMemory svc w) where
    load_loop-lists :
        (entries : List Entry) (fuel round : ℕ) (at : Cursor) (found : List Variable)
        → Follows svc w at.name at.guid entries
        → AllShort entries
        → length found + length (runtime_variables svc w entries) < 2048
        → length entries < fuel
        → load_loop svc fuel round at found w
          ≡ finished success none (found ++ runtime_variables svc w entries)
    unfolding load_loop
    load_loop-lists entries zero round at found follow short few enough =
        absurd (omega (arith, enough))
    load_loop-lists [] (suc fuel) round at found follow short few enough =
        rw (load_round_ends round at found follow, load_loop)
          (λ i. finished success none (sym (append-nil found) i))
    load_loop-lists ((name, guid) ∷ rest) (suc fuel) round at found follow short few enough =
        let (at', e, same_name, same_guid) =
          load_round-Continues svc w memory round at found name guid rest follow
            (omega (arith, few)) short.0 in
        let after =
          subst (λ (g : ℕ). Follows svc w at'.name g rest) (sym same_guid)
            (subst (λ (n : Text). Follows svc w n guid rest) (sym same_name) follow.1) in
        let lengths = length-with_next name guid rest found in
        rw (e, load_loop)
          (load_loop-lists rest fuel (round + 1) at' (with_next svc w name guid found) after short.1
              (omega (arith, lengths, few)) (omega (arith, enough))
            ∙ (λ i. finished success none (runtime_variables-with_next name guid rest found i)))

    sort_short : (l : List Variable) → ltb 1 (length l) ≡ false → sort_variables l ≡ l
    unfolding sort_variables insertion_sort sort_onto
    sort_short [] h = refl
    sort_short (v ∷ []) h = refl
    sort_short (v ∷ v' ∷ l) h = absurd (ground (arith, h))

    -- With enough memory, where `GetNextVariableName` enumerates the variables of the store, whose names
    -- are at most 512 characters and fewer than 2048 of which have runtime access and can be read: the
    -- loop ends in as many rounds as there are variables and one more, and `RveLoadVariables` returns
    -- just those with runtime access that can be read, sorted by name.
    pub load_variables-lists :
        (entries : List Entry) (fuel : ℕ)
        → Follows svc w [] 0 entries
        → AllShort entries
        → length (runtime_variables svc w entries) < 2048
        → length entries < fuel
        → load_variables svc fuel w
          ≡ some (success, none, sort_variables (runtime_variables svc w entries))
    unfolding load_variables
    load_variables-lists entries fuel follow short few enough =
        let listed = runtime_variables svc w entries in
        let loop =
          load_loop-lists entries fuel 0 first_cursor [] follow short (omega (arith, few)) enough in
        rw (memory 0 (variable_list 128), memory 0 (name_buffer 256), loop)
          (elim (Bool-cases (ltb 1 (length listed))) [
            | inl e ↦ rw e refl
            | inr e ↦ rw e (λ i. some (success, none, sym (sort_short listed e) i))
          ])
