-- ===== src/VarEditor/Screen/Rows.antt =====
-- Applications/RuntimeVarEditor/RuntimeVarEditor.c: the rows of the list when the selection moves.
use uefi_tools_pkg.Base.{
  ℕ, zero, suc, ◌+◌, ◌-◌, ◌<◌, ◌≡◌, ◌≢◌, inl, inr, refl, sym, ◌∙◌, arith, by_test, Bool-cases, Bool,
  true, false, ◌&&◌, Option, none, List, [], ◌∷◌, ◌++◌, ltb, ◌==◌, if◌then◌else◌,
}
use uefi_tools_pkg.VarEditor.Variable.{Variable}
use uefi_tools_pkg.VarEditor.Screen.{
  Context, Color, fill_rect, row_texts, row_color, draw_rows, select_bar, panel,
}
use uefi_tools_pkg.VarEditor.Screen.Cells.{
  Cell, or_else, text_at, or_else-none, or_else_hidden, text_at-append, row_texts-Hides,
}
use uefi_tools_pkg.VarEditor.Screen.Places.{row_texts_elsewhere, bar_elsewhere}

module _ (px py : ℕ) (context : Context) where
  -- the texts of one row, by its index, where it is shown
  abbrev pub row_in : ℕ → List Variable → ℕ → ℕ → ℕ → Color → Option Cell
  row_in zero variables i y k c = none
  row_in (suc rows) [] i y k c = none
  row_in (suc rows) (v ∷ variables) i y k c =
      if i == k
      then text_at px py (row_texts context v y c)
      else row_in rows variables (i + 1) (y + 22) k c

  row_in_above :
      (rows : ℕ) (variables : List Variable) (i y k : ℕ) (c : Color)
      → py < y
      → row_in rows variables i y k c ≡ none
  row_in_above zero variables i y k c h = refl
  row_in_above (suc rows) [] i y k c h = refl
  row_in_above (suc rows) (v ∷ variables) i y k c h =
      by_test (λ (o : Option Cell). o ≡ none) (i == k)
        (λ _. row_texts_elsewhere px py context v y c (inr (ground (arith, h))))
        (λ _. row_in_above rows variables (i + 1) (y + 22) k c (omega (arith, h)))

  row_in_before :
      (rows : ℕ) (variables : List Variable) (i y k : ℕ) (c : Color)
      → k < i
      → row_in rows variables i y k c ≡ none
  row_in_before zero variables i y k c h = refl
  row_in_before (suc rows) [] i y k c h = refl
  row_in_before (suc rows) (v ∷ variables) i y k c h =
      by_test (λ (o : Option Cell). o ≡ none) (i == k) (λ e. absurd (ground (arith, e, h)))
        (λ _. row_in_before rows variables (i + 1) (y + 22) k c (omega (arith, h)))

  abbrev pub rows_at : ℕ → List Variable → ℕ → ℕ → ℕ → Option Cell
  rows_at rows variables i y selected =
      text_at px py (draw_rows context rows variables i y selected)

  rows_at_first :
      (rows : ℕ) (v : Variable) (variables : List Variable) (i y selected : ℕ)
      → rows_at (suc rows) (v ∷ variables) i y selected
        ≡ or_else
            (rows_at rows variables (i + 1) (y + 22) selected)
            (text_at px py (row_texts context v y (row_color i selected)))
  unfolding draw_rows
  rows_at_first rows v variables i y selected =
      let bar =
        if i == selected && ltb 28 context.width
        then fill_rect context 14 (y - 2) (context.width - 28) 22 select_bar
        else [] in
      let row = row_texts context v y (row_color i selected) in
      let tail = draw_rows context rows variables (i + 1) (y + 22) selected in
      let bare =
        bar_elsewhere px py context (i == selected && ltb 28 context.width) 14 (y - 2)
          (context.width - 28) 22 select_bar in
      text_at-append px py (bar ++ row) tail
      ∙ (λ j. or_else (text_at px py tail) (text_at-append px py bar row j))
      ∙ (λ j. or_else (text_at px py tail) (or_else (text_at px py row) (bare j)))
      ∙ (λ j. or_else (text_at px py tail) (or_else-none (text_at px py row) j))

  rows_at_above :
      (rows : ℕ) (variables : List Variable) (i y selected : ℕ)
      → py < y
      → rows_at rows variables i y selected ≡ none
  unfolding draw_rows text_at
  rows_at_above zero variables i y selected h = refl
  rows_at_above (suc rows) [] i y selected h = refl
  rows_at_above (suc rows) (v ∷ variables) i y selected h =
      rows_at_first rows v variables i y selected ∙ (λ j.
        or_else (rows_at_above rows variables (i + 1) (y + 22) selected (omega (arith, h)) j) (
          row_texts_elsewhere px py context v y (row_color i selected) (inr (ground (arith, h))) j))

  pub row_in_aside :
      (rows : ℕ) (variables : List Variable) (i y k : ℕ) (c : Color)
      → px ≡ 18
      → row_in rows variables i y k c ≡ none
  row_in_aside zero variables i y k c h = refl
  row_in_aside (suc rows) [] i y k c h = refl
  row_in_aside (suc rows) (v ∷ variables) i y k c h =
      by_test (λ (o : Option Cell). o ≡ none) (i == k)
        (λ _. row_texts_elsewhere px py context v y c (inl h))
        (λ _. row_in_aside rows variables (i + 1) (y + 22) k c h)

  pub rows_at_aside :
      (rows : ℕ) (variables : List Variable) (i y selected : ℕ)
      → px ≡ 18
      → rows_at rows variables i y selected ≡ none
  unfolding draw_rows text_at
  rows_at_aside zero variables i y selected h = refl
  rows_at_aside (suc rows) [] i y selected h = refl
  rows_at_aside (suc rows) (v ∷ variables) i y selected h =
      rows_at_first rows v variables i y selected ∙ (λ j.
        or_else (rows_at_aside rows variables (i + 1) (y + 22) selected h j)
          (row_texts_elsewhere px py context v y (row_color i selected) (inl h) j))

  abbrev pub row_at : Variable → ℕ → Color → Option Cell
  row_at v y c = text_at px py (row_texts context v y c)

  -- a row that is the old one, the new one or neither
  row_redrawn :
      (v : Variable) (y : ℕ) (is_new is_old : Bool) (rest : Option Cell)
      → (is_new && is_old) ≡ false
      → or_else (if is_new then row_at v y select_bar else none) (
          or_else
            (if is_old then row_at v y panel else none)
            (or_else (row_at v y (if is_old then select_bar else panel)) rest))
        ≡ or_else (row_at v y (if is_new then select_bar else panel)) rest
  row_redrawn v y true true rest h = absurd cc
  row_redrawn v y true false rest h =
      or_else_hidden (row_at v y select_bar) (row_at v y panel) rest
        (row_texts-Hides px py context v y select_bar panel)
  row_redrawn v y false true rest h =
      or_else_hidden (row_at v y panel) (row_at v y select_bar) rest
        (row_texts-Hides px py context v y panel select_bar)
  row_redrawn v y false false rest h = refl

  abbrev redrawn : ℕ → List Variable → ℕ → ℕ → ℕ → ℕ → Option Cell → Option Cell
  redrawn rows variables i y old new rest = or_else (row_in rows variables i y new select_bar) (
      or_else (row_in rows variables i y old panel) (or_else (rows_at rows variables i y old) rest))

  -- over the rows, the new row and then the old one
  pub rows_redrawn :
      (rows : ℕ) (variables : List Variable) (i y old new : ℕ) (rest : Option Cell)
      → old ≢ new
      → redrawn rows variables i y old new rest ≡ or_else (rows_at rows variables i y new) rest
  unfolding draw_rows text_at
  rows_redrawn zero variables i y old new rest h = refl
  rows_redrawn (suc rows) [] i y old new rest h = refl
  rows_redrawn (suc rows) (v ∷ variables) i y old new rest h = elim (Bool-cases (y == py)) [
    | inl here ↦
        let above : py < y + 22 = ground (arith, here) in
        let only = λ (s : ℕ). rows_at_first rows v variables i y s ∙ (λ j.
          or_else (rows_at_above rows variables (i + 1) (y + 22) s above j)
            (row_at v y (row_color i s))) in
        let alone : (k : ℕ) (c : Color)
            → row_in (suc rows) (v ∷ variables) i y k c ≡ (if i == k then row_at v y c else none) =
          λ k c j.
            if i == k
            then row_at v y c
            else row_in_above rows variables (i + 1) (y + 22) k c above j in
        (λ j.
          or_else (alone new select_bar j)
            (or_else (alone old panel j) (or_else (only old j) rest)))
        ∙ row_redrawn v y (i == new) (i == old) rest (ground (arith, h))
        ∙ (λ j. or_else (sym (only new) j) rest)
    | inr away ↦
        let head = λ (c : Color). row_texts_elsewhere px py context v y c (inr away) in
        let tail = λ (s : ℕ).
          rows_at_first rows v variables i y s
          ∙ (λ j. or_else (rows_at rows variables (i + 1) (y + 22) s) (head (row_color i s) j))
          ∙ or_else-none (rows_at rows variables (i + 1) (y + 22) s) in
        let behind = λ (k : ℕ) (c : Color).
          by_test (λ (o : Option Cell). o ≡ row_in rows variables (i + 1) (y + 22) k c) (i == k)
            (λ e.
              head c ∙ sym (row_in_before rows variables (i + 1) (y + 22) k c (ground (arith, e))))
            (λ _. refl) in
        (λ j.
          or_else (behind new select_bar j)
            (or_else (behind old panel j) (or_else (tail old j) rest)))
        ∙ rows_redrawn rows variables (i + 1) (y + 22) old new rest h
        ∙ (λ j. or_else (sym (tail new) j) rest)
  ]
