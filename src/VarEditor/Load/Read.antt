-- ===== src/VarEditor/Load/Read.antt =====
-- Applications/RuntimeVarEditor/RuntimeVarEditor.c: that the attributes of a listed variable were read.
use uefi_tools_pkg.Base.{
  ℕ, zero, suc, ◌+◌, ◌*◌, ◌%◌, ◌≡◌, ◌⊎◌, inl, inr, true, refl, ◌&&◌, ◌||◌, not, Option, none, some,
  List, [], ◌∷◌, ltb, leb, ◌==◌, length, by_test,
}
use uefi_tools_pkg.Base.All.{All, All-append, All-insertion_sort}
use uefi_tools_pkg.Efi.{Status, efi_error, is_success, is_not_found, is_too_small}
use uefi_tools_pkg.VarEditor.Variable.{
  Variable, has, runtime_access, max_variables, max_name_chars, is_before_key, sort_variables,
}
use uefi_tools_pkg.VarEditor.Services.{Services, NextName, name_copy, variable_list, name_buffer}
use uefi_tools_pkg.VarEditor.Load.{
  Note, Cursor, Round, ended, continued, Loop, unfinished, finished, new_variable, first_cursor,
  loaded_variables, read_variable_info, add_variable, take_name, load_round, load_loop,
  load_variables,
}

module _ {W : Type 0} (svc : Services W) (w : W) where
  -- the attributes are those that `GetVariable` returns for the variable, or 0 where it fails
  abbrev pub IsReadAt : Variable → Type 0
  IsReadAt v =
      let got = svc.get_variable v.name v.vendor_guid 0 w in
      ((is_too_small got.status || is_success got.status) ≡ true) × (v.attributes ≡ got.attributes)
      ⊎ (v.attributes ≡ 0)

  pub read_variable_info-IsReadAt : (v : Variable) → IsReadAt (read_variable_info svc v w).1
  unfolding read_variable_info
  read_variable_info-IsReadAt v =
      let got = svc.get_variable v.name v.vendor_guid 0 w in
      by_test (λ (r : Status × Variable). IsReadAt r.1)
        (is_too_small got.status || is_success got.status) (λ e. inl (e, refl)) (λ _. inr refl)

  abbrev IsReadRound : Round → Type 0
  IsReadRound (ended status written) = Unit {0}
  IsReadRound (continued at found) = All IsReadAt found

  abbrev IsReadLoop : Loop → Type 0
  IsReadLoop unfinished = Unit {0}
  IsReadLoop (finished status written found) = All IsReadAt found

  abbrev pub IsReadLoad : Option (Status × Option Note × List Variable) → Type 0
  IsReadLoad none = Unit {0}
  IsReadLoad (some (status, written, found)) = All IsReadAt found

  add_variable-IsReadRound :
      (round : ℕ) (at : Cursor) (found : List Variable)
      → All IsReadAt found
      → IsReadRound (add_variable svc round at found w)
  unfolding add_variable
  add_variable-IsReadRound round at found h =
      let v = new_variable at.name at.guid in
      let info = read_variable_info svc v w in
      by_test IsReadRound (not (svc.allocates round (name_copy (length at.name + 1)) w)) (λ _. tt)
        (λ _.
          by_test IsReadRound
            (length found == at.capacity
              && not (svc.allocates round (variable_list (at.capacity * 2)) w))
            (λ _. tt)
            (λ _.
              by_test (All IsReadAt)
                (not (efi_error info.0) && has info.1.attributes runtime_access)
                (λ _. All-append IsReadAt found (info.1 ∷ []) h (read_variable_info-IsReadAt v, tt))
                (λ _. h)))

  take_name-IsReadRound :
      (round : ℕ) (at : Cursor) (found : List Variable) (next : NextName)
      → All IsReadAt found
      → IsReadRound (take_name svc round at found next w)
  unfolding take_name
  take_name-IsReadRound round at found next h =
      by_test IsReadRound (is_not_found next.status) (λ _. tt)
        (λ _.
          by_test IsReadRound (efi_error next.status) (λ _. tt)
            (λ _.
              by_test IsReadRound (leb max_variables (length found)) (λ _. tt)
                (λ _.
                  by_test IsReadRound (ltb max_name_chars (length next.name)) (λ _. h)
                    (λ _.
                      add_variable-IsReadRound round
                        (record at { name = next.name; guid = next.guid }) found h))))

  load_round-IsReadRound :
      (round : ℕ) (at : Cursor) (found : List Variable)
      → All IsReadAt found
      → IsReadRound (load_round svc round at found w)
  unfolding load_round
  load_round-IsReadRound round at found h =
      let next = svc.next_variable_name at.name_capacity at.name at.guid w in
      by_test IsReadRound (not (is_too_small next.status))
        (λ _. take_name-IsReadRound round at found next h)
        (λ _.
          by_test IsReadRound (ltb ((max_name_chars + 1) * 2) next.size || not (next.size % 2 == 0))
            (λ _. tt)
            (λ _.
              by_test IsReadRound (not (svc.allocates round (name_buffer next.size) w)) (λ _. tt)
                (λ _.
                  take_name-IsReadRound round (record at { name_capacity = next.size }) found
                    (svc.next_variable_name next.size at.name at.guid w) h)))

  round-IsReadLoop :
      (r : Round) (found : List Variable) (later : Cursor → List Variable → Loop)
      → All IsReadAt found
      → ((at : Cursor) (found' : List Variable)
          → All IsReadAt found'
          → IsReadLoop (later at found'))
      → IsReadRound r
      → IsReadLoop (elim r [
        | ended status written ↦ finished status written found
        | continued at' found' ↦ later at' found'
      ])
  round-IsReadLoop (ended status written) found later h next r = h
  round-IsReadLoop (continued at found') found later h next r = next at found' r

  load_loop-IsReadLoop :
      (fuel round : ℕ) (at : Cursor) (found : List Variable)
      → All IsReadAt found
      → IsReadLoop (load_loop svc fuel round at found w)
  unfolding load_loop
  load_loop-IsReadLoop zero round at found h = tt
  load_loop-IsReadLoop (suc fuel) round at found h =
      round-IsReadLoop (load_round svc round at found w) found
        (λ at' found'. load_loop svc fuel (round + 1) at' found' w) h
        (λ at' found' h'. load_loop-IsReadLoop fuel (round + 1) at' found' h')
        (load_round-IsReadRound round at found h)

  loaded_variables-IsReadLoad : (l : Loop) → IsReadLoop l → IsReadLoad (loaded_variables l)
  unfolding sort_variables
  loaded_variables-IsReadLoad unfinished h = tt
  loaded_variables-IsReadLoad (finished status written found) h =
      by_test IsReadLoad (efi_error status) (λ _. tt)
        (λ _.
          by_test (All IsReadAt) (ltb 1 (length found))
            (λ _. All-insertion_sort IsReadAt is_before_key found h) (λ _. h))

  -- The attributes of each variable that a load lists are those that the firmware returns for it, or 0.
  pub load_variables-IsReadLoad : (fuel : ℕ) → IsReadLoad (load_variables svc fuel w)
  unfolding load_variables
  load_variables-IsReadLoad fuel =
      by_test IsReadLoad (not (svc.allocates 0 (variable_list 128) w)) (λ _. tt)
        (λ _.
          by_test IsReadLoad (not (svc.allocates 0 (name_buffer 256) w)) (λ _. tt)
            (λ _.
              loaded_variables-IsReadLoad (load_loop svc fuel 0 first_cursor [] w)
                (load_loop-IsReadLoop fuel 0 first_cursor [] tt)))

-- the attributes were read in one of the states
abbrev pub IsRead : {W : Type 0} → Services W → (W → Type 0) → Variable → Type 0
IsRead {W} svc Past v = (w : W) × Past w × IsReadAt svc w v

module _ {W : Type 0} (svc : Services W) (Past : W → Type 0) where
  pub All-IsRead :
      (w : W) (l : List Variable) → Past w → All (IsReadAt svc w) l → All (IsRead svc Past) l
  All-IsRead w [] past h = tt
  All-IsRead w (v ∷ l) past h = ((w, past, h.0), All-IsRead w l past h.1)
