-- ===== src/VarEditor/Screen/Places.antt =====
-- Applications/RuntimeVarEditor/RuntimeVarEditor.c: where the texts of the list stand.
use uefi_tools_pkg.Base.{
  ℕ, ◌-◌, ◌<◌, ◌≡◌, ◌≢◌, ◌⊎◌, inl, refl, ◌∙◌, arith, by_test, Bool, false, ◌&&◌, Option, none, some,
  List, [], ◌++◌, ltb, ◌==◌, if◌then◌else◌, length, get_elem?,
}
use uefi_tools_pkg.VarEditor.Variable.{Variable}
use uefi_tools_pkg.VarEditor.Load.{Note}
use uefi_tools_pkg.VarEditor.Screen.{
  Context, Color, Label, name_of, attributes_of, size_of, guid_of, Draw, fill_rect, draw_text,
  info_lines, count_line, selected_lines, headings, row_texts, panel, text, bg, name_column,
  attributes_column, size_column, guid_column, warn, muted, selected_line, guid_line,
}
use uefi_tools_pkg.VarEditor.Screen.Cells.{
  or_else, text_at, text_at-append, fill_rect-text_at, draw_text_elsewhere,
}

module _ (px py : ℕ) (context : Context) where
  append_elsewhere :
      (a b : List Draw)
      → text_at px py a ≡ none
      → text_at px py b ≡ none
      → text_at px py (a ++ b) ≡ none
  append_elsewhere a b h k = text_at-append px py a b ∙ (λ i. or_else (k i) (h i))

  off_column : (x y : ℕ) → 18 < x → (px ≡ 18) ⊎ ((y == py) ≡ false) → (x == px && y == py) ≡ false
  off_column x y far h = ground (arith, far, h)

  in_column : (x y : ℕ) → px ≢ 18 → x ≡ 18 → (x == px && y == py) ≡ false
  in_column x y h e = ground (arith, h, e)

  -- the texts of a row stand at other columns than the lines on the selected variable
  pub row_texts_elsewhere :
      (v : Variable) (y : ℕ) (c : Color)
      → (px ≡ 18) ⊎ ((y == py) ≡ false)
      → text_at px py (row_texts context v y c) ≡ none
  row_texts_elsewhere v y c h =
      let t = λ (x : ℕ) (l : Label). draw_text context x y l text c in
      let off = λ (x : ℕ) (l : Label) (far : 18 < x).
        draw_text_elsewhere px py context x y l text c (off_column x y far h) in
      append_elsewhere ((t 24 (name_of v) ++ t 320 (attributes_of v)) ++ t 600 (size_of v))
        (t 690 (guid_of v))
        (append_elsewhere (t 24 (name_of v) ++ t 320 (attributes_of v)) (t 600 (size_of v))
          (append_elsewhere (t 24 (name_of v)) (t 320 (attributes_of v))
            (off 24 (name_of v) (omega arith)) (off 320 (attributes_of v) (omega arith)))
          (off 600 (size_of v) (omega arith)))
        (off 690 (guid_of v) (omega arith))

  pub bar_elsewhere :
      (t : Bool) (x y w h : ℕ) (c : Color)
      → text_at px py (if t then fill_rect context x y w h c else []) ≡ none
  unfolding text_at
  bar_elsewhere t x y w h c =
      by_test (λ (l : List Draw). text_at px py l ≡ none) t
        (λ _. fill_rect-text_at px py context x y w h c) (λ _. refl)

  pub headings_elsewhere : px ≡ 18 → text_at px py (headings context) ≡ none
  headings_elsewhere h =
      let t = λ (x : ℕ) (l : Label). draw_text context x 140 l muted bg in
      let off = λ (x : ℕ) (l : Label) (far : 18 < x).
        draw_text_elsewhere px py context x 140 l muted bg (off_column x 140 far (inl h)) in
      let bar =
        if context.graphics && ltb 28 context.width
        then fill_rect context 14 138 (context.width - 28) 22 bg
        else [] in
      append_elsewhere (((bar ++ t 24 name_column) ++ t 320 attributes_column) ++ t 600 size_column)
        (t 690 guid_column)
        (append_elsewhere ((bar ++ t 24 name_column) ++ t 320 attributes_column) (t 600 size_column)
          (append_elsewhere (bar ++ t 24 name_column) (t 320 attributes_column)
            (append_elsewhere bar (t 24 name_column)
              (bar_elsewhere (context.graphics && ltb 28 context.width) 14 138 (context.width - 28)
                22 bg)
              (off 24 name_column (omega arith)))
            (off 320 attributes_column (omega arith)))
          (off 600 size_column (omega arith)))
        (off 690 guid_column (omega arith))

  pub info_lines_elsewhere :
      (variables : List Variable) (selected first rows : ℕ) (message : Option Note)
      → px ≢ 18
      → text_at px py (info_lines context variables selected first rows message) ≡ none
  unfolding text_at
  info_lines_elsewhere variables selected first rows message h =
      append_elsewhere (count_line context (length variables) selected first rows message)
        (selected_lines context (get_elem? variables selected))
        (draw_text_elsewhere px py context 18 64 _ _ panel (in_column 18 64 h refl))
        (of_variable (get_elem? variables selected))
    where
      of_variable : (o : Option Variable) → text_at px py (selected_lines context o) ≡ none
      of_variable none = refl
      of_variable (some v) =
          append_elsewhere (draw_text context 18 88 (selected_line v) warn panel)
            (draw_text context 18 110 (guid_line v) muted panel)
            (draw_text_elsewhere px py context 18 88 (selected_line v) warn panel
              (in_column 18 88 h refl))
            (draw_text_elsewhere px py context 18 110 (guid_line v) muted panel
              (in_column 18 110 h refl))
