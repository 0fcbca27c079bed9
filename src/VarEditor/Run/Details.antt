-- ===== src/VarEditor/Run/Details.antt =====
-- Applications/RuntimeVarEditor/RuntimeVarEditor.c: the arrow keys of `RveRun` with the details open.
use uefi_tools_pkg.Base.{
  ℕ, ◌+◌, ◌<◌, ◌≡◌, refl, sym, ◌∙◌, arith, by_test, subst, true, false, ◌&&◌, not, Option, none,
  some, ◌∷◌, ltb, ◌==◌, length, get_elem?,
}
use uefi_tools_pkg.VarEditor.Variable.{Variable}
use uefi_tools_pkg.VarEditor.Services.{Services, Key, Keys}
use uefi_tools_pkg.VarEditor.Run.{
  Browser, select, settle, scroll, drawn, draw, Moved, move, Followed, fast, slow, follow, Next,
  goes, out_of_bounds, scan_down,
}
use uefi_tools_pkg.VarEditor.Run.Bounds.{get_elem?-some, clamp_inside}
use uefi_tools_pkg.VarEditor.Run.Rounds.{edit, act, on_key, take_key}

module _ (rows : ℕ) (b : Browser) where
  move_down :
      (data_size : ℕ)
      → b.detail ≡ true
      → b.selected + 1 < length b.variables
      → follow rows b.selected (move rows scan_down data_size b) ≡ slow (select b (b.selected + 1))
  unfolding follow move
  move_down data_size open_now inside =
      let after = slow (select b (b.selected + 1)) in
      by_test (λ (m : Moved). follow rows b.selected m ≡ after)
        (ltb (b.selected + 1) (length b.variables))
        (λ _.
          by_test (λ (f : Followed). f ≡ after) (not b.detail && not (b.selected + 1 == b.selected))
            (λ e. absurd (ground (arith, e, open_now))) (λ _. refl))
        (λ e. absurd (ground (arith, e, inside)))

  -- a round draws nothing where no redraw is due, and keeps a selection in the array
  draw_nothing :
      b.full_redraw ≡ false
      → b.selected < length b.variables
      → (b' : Browser) × (draw rows (settle rows b) ≡ some b')
        × (b'.shown ≡ b.shown)
        × (b'.selected ≡ b.selected)
  unfolding draw settle
  draw_nothing still inside =
      let same = clamp_inside b inside in
      let settled = record b { first = scroll rows b.selected b.first } in
      let kept =
        by_test (λ (o : Option Browser). o ≡ some settled) b.full_redraw
          {x = elim (drawn rows settled) [
            | none ↦ none
            | some shown ↦ some (record settled { shown = shown; full_redraw = false })
          ]}
          {y = some settled} (λ e. absurd (cc (e, still))) (λ _. refl) in
      (
        settled,
        (λ i. draw rows (record (same i) { first = scroll rows (same i).selected (same i).first }))
            ∙ kept,
        refl,
        refl,
      )

abbrev pub arrow_down : Key
arrow_down = record { unicode = 0; scan = scan_down }

module _ {W : Type 0} (svc : Services W) (load_fuel max_uintn rows : ℕ) where
  act_down :
      (v : Variable) (b : Browser) (keys : Keys) (w : W)
      → b.detail ≡ true
      → b.selected + 1 < length b.variables
      → act svc load_fuel max_uintn rows arrow_down v b keys w
        ≡ goes (select b (b.selected + 1)) keys w
  unfolding act edit
  act_down v b keys w open_now inside =
      let after = goes (select b (b.selected + 1)) keys w in
      let (v', e') = get_elem?-some b.variables (b.selected + 1) inside in
      subst
        (λ (f : Followed).
          elim f [
            | fast b' ↦ goes b' keys w
            | slow b' ↦ elim (get_elem? b'.variables b'.selected) [
              | none ↦ out_of_bounds
              | some v' ↦ edit svc load_fuel max_uintn rows arrow_down v' b' keys w
            ]
          ]
          ≡ after)
        (sym (move_down rows b v.data_size open_now inside))
        (subst
          (λ (o : Option Variable).
            elim o [
              | none ↦ out_of_bounds
              | some v' ↦
                  edit svc load_fuel max_uintn rows arrow_down v' (select b (b.selected + 1)) keys w
            ]
            ≡ after)
          (sym e') refl)

  -- While the details of a variable are shown and no redraw is due, behind which another variable is
  -- listed: the down key selects the next variable and nothing is drawn, so that the edits act on another
  -- variable than the one that is shown.
  pub down-stale :
      (b : Browser) (keys : Keys) (w : W)
      → b.detail ≡ true
      → b.full_redraw ≡ false
      → b.selected + 1 < length b.variables
      → (b' : Browser) × (take_key svc load_fuel max_uintn rows b (some arrow_down ∷ keys) w
          ≡ goes b' keys w)
        × (b'' : Browser) × (draw rows (settle rows b') ≡ some b'')
        × (b''.shown ≡ b.shown)
        × (b''.selected ≡ b.selected + 1)
  unfolding take_key on_key
  down-stale b keys w open_now still inside =
      let b0 = record b { message = none } in
      let b' = select b0 (b.selected + 1) in
      let (v, e) = get_elem?-some b.variables b.selected (omega (arith, inside)) in
      let (b'', drawing, shown, selected) = draw_nothing rows b' still inside in
      (
        b',
        by_test (λ (n : Next W). n ≡ goes b' keys w) (length b.variables == 0)
            (λ f. absurd (ground (arith, f, inside)))
            (λ _.
              subst
                (λ (o : Option Variable).
                  elim o [
                    | none ↦ out_of_bounds
                    | some v ↦ act svc load_fuel max_uintn rows arrow_down v b0 keys w
                  ]
                  ≡ goes b' keys w)
                (sym e) (act_down v b0 keys w open_now inside)),
        b'',
        drawing,
        shown,
        selected,
      )
