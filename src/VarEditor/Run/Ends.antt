-- ===== src/VarEditor/Run/Ends.antt =====
-- Applications/RuntimeVarEditor/RuntimeVarEditor.c: how a key of `RveRun` ends.
use uefi_tools_pkg.Base.{
  ℕ, ◌≡◌, refl, inl, arith, by_test, by_option, subst, ◌&&◌, ◌||◌, none, some, List, [], ltb, ◌==◌,
  length, get_elem?,
}
use uefi_tools_pkg.VarEditor.Variable.{Variable}
use uefi_tools_pkg.VarEditor.Services.{Services, Key, Keys}
use uefi_tools_pkg.VarEditor.Input.{scan_esc, carriage_return}
use uefi_tools_pkg.VarEditor.Edit.{edit_byte, edit_attributes, delete_variable}
use uefi_tools_pkg.VarEditor.Edit.Guards.{
  edit_byte-IsEdit, edit_attributes-IsEdit, delete_variable-IsEdit,
}
use uefi_tools_pkg.VarEditor.Run.{Browser, move, Followed, fast, slow, follow, goes, out_of_bounds}
use uefi_tools_pkg.VarEditor.Run.Bounds.{get_elem?-some, move-IsMoved}
use uefi_tools_pkg.VarEditor.Run.Invariant.{
  IsCurrent, due, IsWaiting, IsWaiting-IsCurrent, IsFollowed, at_once, slowly, follow-IsFollowed,
}
use uefi_tools_pkg.VarEditor.Run.Rounds.{edit, act, on_key}
use uefi_tools_pkg.VarEditor.Run.Edits.{
  IsNext, LoadsEnd, goes_on, refresh-IsNext, after_byte-IsNext, after_attributes-IsNext,
  after_delete-IsNext,
}

module _ {W : Type 0} (svc : Services W) (load_fuel max_uintn rows : ℕ)
    (loads : LoadsEnd svc load_fuel) (Past : W → Type 0) where
  module _ (b : Browser) (keys : Keys) (w : W) (current : IsCurrent rows b) where
    edit-IsNext :
        (variables : List Variable) (key : Key) (v : Variable) (i : ℕ)
        → get_elem? variables i ≡ some v
        → b.variables ≡ variables
        → IsNext svc max_uintn Past rows key variables keys w
            (edit svc load_fuel max_uintn rows key v b keys w)
    unfolding edit
    edit-IsNext variables key v i in_list same =
        by_test (IsNext svc max_uintn Past rows key variables keys w)
          (key.unicode == b'e' || key.unicode == b'E')
          (λ k.
            after_byte-IsNext svc load_fuel max_uintn rows loads Past key variables v i in_list b
              keys w same (edit_byte svc v max_uintn keys w) (ground (arith, k))
              (edit_byte-IsEdit svc v w max_uintn keys))
          (λ _.
            by_test (IsNext svc max_uintn Past rows key variables keys w)
              (key.unicode == b'a' || key.unicode == b'A')
              (λ k.
                after_attributes-IsNext svc load_fuel max_uintn rows loads Past key variables v i
                  in_list b keys w same (edit_attributes svc v keys w) (ground (arith, k))
                  (edit_attributes-IsEdit svc v w keys))
              (λ _.
                by_test (IsNext svc max_uintn Past rows key variables keys w)
                  (key.unicode == b'd' || key.unicode == b'D')
                  (λ k.
                    after_delete-IsNext svc load_fuel max_uintn rows loads Past key variables v i
                      in_list b keys w same (delete_variable svc v keys w) (ground (arith, k))
                      (delete_variable-IsEdit svc v w keys))
                  (λ _.
                    goes_on svc load_fuel max_uintn rows loads Past key variables b keys w current
                      same)))

  act-IsNext :
      (variables : List Variable) (key : Key) (f : Followed) (keys : Keys) (w : W)
      → IsFollowed rows variables f
      → IsNext svc max_uintn Past rows key variables keys w (elim f [
        | fast b' ↦ goes b' keys w
        | slow b' ↦ elim (get_elem? b'.variables b'.selected) [
          | none ↦ out_of_bounds
          | some v' ↦ edit svc load_fuel max_uintn rows key v' b' keys w
        ]
      ])
  act-IsNext variables key (fast b) keys w (at_once same current) =
      goes_on svc load_fuel max_uintn rows loads Past key variables b keys w current same
  act-IsNext variables key (slow b) keys w (slowly same inside current) =
      let (v, e) = get_elem?-some b.variables b.selected inside in
      by_option (IsNext svc max_uintn Past rows key variables keys w)
        (get_elem? b.variables b.selected) (λ f. absurd (cc (e, f)))
        (λ v' f.
          edit-IsNext b keys w current variables key v' b.selected
            (subst (λ (l : List Variable). get_elem? l b.selected ≡ some v') same f) same)

  pub on_key-IsNext :
      (key : Key) (b : Browser) (keys : Keys) (w : W)
      → IsWaiting rows b
      → IsNext svc max_uintn Past rows key b.variables keys w
          (on_key svc load_fuel max_uintn rows key b keys w)
  unfolding on_key act
  on_key-IsNext key b keys w ready =
      let current = IsWaiting-IsCurrent rows b ready in
      by_test (IsNext svc max_uintn Past rows key b.variables keys w)
        (key.unicode == b'q' || key.unicode == b'Q') (λ q. (refl, ground (arith, q)))
        (λ _.
          by_test (IsNext svc max_uintn Past rows key b.variables keys w) (key.scan == scan_esc)
            (λ q.
              by_test (IsNext svc max_uintn Past rows key b.variables keys w) b.detail
                (λ _. (due refl, ([], refl), inl refl, λ _ h. h)) (λ _. (refl, ground (arith, q))))
            (λ _.
              by_test (IsNext svc max_uintn Past rows key b.variables keys w)
                (key.unicode == carriage_return && ltb 0 (length b.variables))
                (λ _. (due refl, ([], refl), inl refl, λ _ h. h))
                (λ _.
                  by_test (IsNext svc max_uintn Past rows key b.variables keys w)
                    (key.unicode == b'r' || key.unicode == b'R')
                    (λ _.
                      refresh-IsNext svc load_fuel max_uintn rows loads Past key b.variables b keys
                        w)
                    (λ _.
                      by_test (IsNext svc max_uintn Past rows key b.variables keys w)
                        (length b.variables == 0)
                        (λ _.
                          goes_on svc load_fuel max_uintn rows loads Past key b.variables b keys w
                            current refl)
                        (λ e.
                          let inside = ready.0.1 (ground (arith, e)) in
                          let (v, f) = get_elem?-some b.variables b.selected inside in
                          by_option (IsNext svc max_uintn Past rows key b.variables keys w)
                            (get_elem? b.variables b.selected) (λ g. absurd (cc (f, g)))
                            (λ v' _.
                              act-IsNext b.variables key
                                (follow rows b.selected (move rows key.scan v'.data_size b)) keys w
                                (follow-IsFollowed rows b (move rows key.scan v'.data_size b) inside
                                  ready (move-IsMoved rows key.scan v'.data_size b inside))))))))
