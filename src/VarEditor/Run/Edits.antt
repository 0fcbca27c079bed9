-- ===== src/VarEditor/Run/Edits.antt =====
-- Applications/RuntimeVarEditor/RuntimeVarEditor.c: how a load or an edit of `RveRun` ends.
use uefi_tools_pkg.Base.{
  ℕ, ◌≡◌, ◌⊎◌, refl, ◌≢◌, inl, inr, by_test, by_option, subst, sym, none, some, List, [], ◌++◌,
  get_elem?, true, ◌||◌, ◌==◌,
}
use uefi_tools_pkg.Efi.{Status, efi_error}
use uefi_tools_pkg.VarEditor.Variable.{Variable}
use uefi_tools_pkg.VarEditor.Services.{Services, Key, Keys}
use uefi_tools_pkg.Base.All.{All, All-set}
use uefi_tools_pkg.VarEditor.Load.{Note, load_variables, read_variable_info}
use uefi_tools_pkg.VarEditor.Load.Read.{
  IsRead, IsReadLoad, load_variables-IsReadLoad, read_variable_info-IsReadAt, All-IsRead,
}
use uefi_tools_pkg.VarEditor.Input.{scan_esc}
use uefi_tools_pkg.VarEditor.Input.Bounds.{HasYes}
use uefi_tools_pkg.VarEditor.Edit.{Edited, waits, unfinished, ended}
use uefi_tools_pkg.VarEditor.Edit.Writes.{
  IsByteWrite, IsAttributeWrite, IsRemoval, IsWrite, of_byte, of_attributes, of_removal, IsEdit,
}
use uefi_tools_pkg.VarEditor.Run.{Browser, Next, goes, quit, reading}
use uefi_tools_pkg.VarEditor.Run.Invariant.{IsCurrent, due}
use uefi_tools_pkg.VarEditor.Run.Rounds.{
  refresh, reload, reread, after_byte, after_attributes, after_delete,
}

abbrev pub IsFrom : Keys → Keys → Type 0
IsFrom rest keys = (used : Keys) × (keys ≡ used ++ rest)

-- q and Esc quit
abbrev pub IsQuit : Key → Type 0
IsQuit key = (key.unicode == b'q' || key.unicode == b'Q' || key.scan == scan_esc) ≡ true

-- e, a and d edit
abbrev pub IsEditKey : Key → Type 0
IsEditKey key =
    ((key.unicode == b'e' || key.unicode == b'E')
      || (key.unicode == b'a' || key.unicode == b'A')
      || (key.unicode == b'd' || key.unicode == b'D'))
    ≡ true

module _ {W : Type 0} (svc : Services W) (max_uintn : ℕ) where
  -- nothing is changed, or one of the keys agrees to one write to a variable of the list
  abbrev pub IsChange : List Variable → Keys → W → W → Type 0
  IsChange variables keys w after =
      (after ≡ w)
      ⊎ (HasYes keys
          × ((v : Variable) × (i : ℕ) × (get_elem? variables i ≡ some v)
              × (status : Status) × IsWrite svc v w max_uintn (status, after)))

  module _ (Past : W → Type 0) where
    -- the attributes of the variables stay such as were read in one of the states
    abbrev pub Keeps : List Variable → W → Browser → Type 0
    Keeps variables after b =
        Past after → All (IsRead svc Past) variables → All (IsRead svc Past) b.variables

    -- how a key ends, with the keys behind it
    abbrev pub IsNext : ℕ → Key → List Variable → Keys → W → Next W → Type 0
    IsNext rows key variables keys w (goes b keys' after) =
        IsCurrent rows b
        × IsFrom keys' keys
        × IsChange variables keys w after
        × Keeps variables after b
    IsNext rows key variables keys w (quit after) = (after ≡ w) × IsQuit key
    IsNext rows key variables keys w (reading after) = (after ≡ w) × IsEditKey key
    IsNext rows key variables keys w _ = ⊥

module _ {W : Type 0} (svc : Services W) where
  -- every load ends within its fuel
  abbrev pub LoadsEnd : ℕ → Type 0
  LoadsEnd load_fuel = (w : W) → load_variables svc load_fuel w ≢ none

module _ {W : Type 0} (svc : Services W) (load_fuel max_uintn rows : ℕ)
    (loads : LoadsEnd svc load_fuel) (Past : W → Type 0) (key : Key) where
  pub goes_on :
      (variables : List Variable) (b : Browser) (keys : Keys) (w : W)
      → IsCurrent rows b
      → b.variables ≡ variables
      → IsNext svc max_uintn Past rows key variables keys w (goes b keys w)
  goes_on variables b keys w current same =
      (current, ([], refl), inl refl, λ _. subst (All (IsRead svc Past)) (sym same))

  pub refresh-IsNext :
      (variables : List Variable) (b : Browser) (keys : Keys) (w : W)
      → IsNext svc max_uintn Past rows key variables keys w (refresh svc load_fuel b keys w)
  unfolding refresh
  refresh-IsNext variables b keys w =
      by_option (IsNext svc max_uintn Past rows key variables keys w)
        (load_variables svc load_fuel w) (λ e. absurd (loads w e))
        (λ (status, written, found) e. (
          due refl,
          ([], refl),
          inl refl,
          λ past _.
              All-IsRead svc Past w found past
                (subst (IsReadLoad svc w) e (load_variables-IsReadLoad svc w load_fuel)),
        ))

  reload-IsNext :
      (variables : List Variable) (b : Browser) (last : Note) (keys left : Keys) (w after : W)
      → IsFrom left keys
      → IsChange svc max_uintn variables keys w after
      → IsNext svc max_uintn Past rows key variables keys w (reload svc load_fuel b last left after)
  unfolding reload
  reload-IsNext variables b last keys left w after from change =
      by_option (IsNext svc max_uintn Past rows key variables keys w)
        (load_variables svc load_fuel after) (λ e. absurd (loads after e))
        (λ (status, written, found) e. (
          due refl,
          from,
          change,
          λ past _.
              All-IsRead svc Past after found past
                (subst (IsReadLoad svc after) e (load_variables-IsReadLoad svc after load_fuel)),
        ))

  module _ (variables : List Variable) (v : Variable) (i : ℕ)
      (listed : get_elem? variables i ≡ some v) (b : Browser) (keys : Keys) (w : W)
      (same : b.variables ≡ variables) where
    reread-Keeps :
        (note : Note) (after : W)
        → Keeps svc max_uintn Past variables after (reread svc load_fuel b v note after)
    reread-Keeps note after past all =
        All-set (IsRead svc Past) b.variables b.selected (read_variable_info svc v after).1
          (after, past, read_variable_info-IsReadAt svc after v)
          (subst (All (IsRead svc Past)) (sym same) all)

    IsEdit-IsChange :
        (Writes : Status × W → Type 0) (status : Status) (note : Note) (left : Keys) (after : W)
        → ((r : Status × W) → Writes r → IsWrite svc v w max_uintn r)
        → IsEdit w Writes keys (ended status note left after)
        → IsChange svc max_uintn variables keys w after
    IsEdit-IsChange Writes status note left after allowed (from, inl still) = inl still
    IsEdit-IsChange Writes status note left after allowed (from, inr (agreed, write)) =
        inr (agreed, (v, i, listed, status, allowed (status, after) write))

    pub after_byte-IsNext :
        (e : Edited W)
        → IsEditKey key
        → IsEdit w (IsByteWrite svc v w max_uintn keys) keys e
        → IsNext svc max_uintn Past rows key variables keys w (after_byte svc load_fuel b v w e)
    after_byte-IsNext waits k h = (refl, k)
    after_byte-IsNext unfinished k h = h
    after_byte-IsNext (ended status note left after) k h = (
      due refl,
      h.0,
      IsEdit-IsChange (IsByteWrite svc v w max_uintn keys) status note left after (λ r. of_byte) h,
      reread-Keeps note after,
    )

    pub after_attributes-IsNext :
        (e : Edited W)
        → IsEditKey key
        → IsEdit w (IsAttributeWrite svc v w) keys e
        → IsNext svc max_uintn Past rows key variables keys w
            (after_attributes svc load_fuel b v w e)
    after_attributes-IsNext waits k h = (refl, k)
    after_attributes-IsNext unfinished k h = h
    after_attributes-IsNext (ended status note left after) k h =
        let change =
          IsEdit-IsChange (IsAttributeWrite svc v w) status note left after (λ r. of_attributes)
            h in
        by_test (IsNext svc max_uintn Past rows key variables keys w) (efi_error status)
          (λ _. (due refl, h.0, change, reread-Keeps note after))
          (λ _. reload-IsNext variables b note keys left w after h.0 change)

    pub after_delete-IsNext :
        (e : Edited W)
        → IsEditKey key
        → IsEdit w (IsRemoval svc v w) keys e
        → IsNext svc max_uintn Past rows key variables keys w (after_delete svc load_fuel b w e)
    after_delete-IsNext waits k h = (refl, k)
    after_delete-IsNext unfinished k h = h
    after_delete-IsNext (ended status note left after) k h =
        reload-IsNext variables b note keys left w after h.0
          (IsEdit-IsChange (IsRemoval svc v w) status note left after (λ r. of_removal) h)
