-- ===== src/VarEditor/Screen/Row.antt =====
-- Applications/RuntimeVarEditor/RuntimeVarEditor.c: `RveDrawListRow` beside the rows of `RveDrawList`.
use uefi_tools_pkg.Base.{
  ℕ, zero, suc, ◌+◌, ◌-◌, ◌*◌, ◌<◌, ◌≤◌, ◌≡◌, refl, sym, ap, ◌∙◌, arith, subst, by_test, Bool, ◌&&◌,
  Option, none, some, List, [], ◌∷◌, ◌++◌, ltb, ◌==◌, if◌then◌else◌, length, get_elem?, drop,
}
use uefi_tools_pkg.VarEditor.Variable.{Variable}
use uefi_tools_pkg.VarEditor.Run.Bounds.{get_elem?-some}
use uefi_tools_pkg.VarEditor.Screen.{
  Context, Color, Draw, fill_rect, row_texts, row_color, draw_list_row,
}
use uefi_tools_pkg.VarEditor.Screen.Cells.{Cell, or_else, text_at, or_else-none, text_at-append}
use uefi_tools_pkg.VarEditor.Screen.Places.{bar_elsewhere}
use uefi_tools_pkg.VarEditor.Screen.Rows.{row_in, row_at}

get_elem?-drop : (f d : ℕ) (l : List Variable) → get_elem? (drop f l) d ≡ get_elem? l (f + d)
get_elem?-drop zero d l = λ i. get_elem? l (same i)
  where
    same : d ≡ 0 + d
    same = omega arith
get_elem?-drop (suc f) d [] = refl
get_elem?-drop (suc f) d (v ∷ l) = get_elem?-drop f d l ∙ (λ i. get_elem? (v ∷ l) (same i))
  where
    same : suc (f + d) ≡ suc f + d
    same = omega arith

module _ (px py : ℕ) (context : Context) where
  row_in-row_at :
      (rows d i y : ℕ) (l : List Variable) (v : Variable) (c : Color)
      → get_elem? l d ≡ some v
      → d < rows
      → row_in px py context rows l i y (i + d) c ≡ row_at px py context v (y + d * 22) c
  row_in-row_at zero d i y l v c h k = absurd (omega (arith, k))
  row_in-row_at (suc rows) d i y [] v c h k = absurd cc
  row_in-row_at (suc rows) zero i y (v' ∷ l) v c h k =
      by_test (λ (o : Option Cell). o ≡ row_at px py context v (y + 0 * 22) c) (i == i + 0)
        (λ _ j. row_at px py context (first_is j) (level j) c) (λ e. absurd (ground (arith, e)))
    where
      first_is : v' ≡ v
      first_is = cc (h)

      level : y ≡ y + 0 * 22
      level = omega arith
  row_in-row_at (suc rows) (suc d) i y (v' ∷ l) v c h k =
      by_test (λ (o : Option Cell). o ≡ row_at px py context v (y + suc d * 22) c) (i == i + suc d)
        (λ e. absurd (ground (arith, e)))
        (λ _.
          (λ j. row_in px py context rows l (i + 1) (y + 22) (index j) c)
          ∙ row_in-row_at rows d (i + 1) (y + 22) l v c h (omega (arith, k))
          ∙ (λ j. row_at px py context v (level j) c))
    where
      index : i + suc d ≡ i + 1 + d
      index = omega arith

      level : y + 22 + d * 22 ≡ y + suc d * 22
      level = omega arith

  abbrev pub bar : Bool → ℕ → ℕ → Color → List Draw
  bar shows y height color =
      if shows then fill_rect context 14 y (context.width - 28) height color else []

  -- a bar has no text
  pub barred :
      (shows : Bool) (y height : ℕ) (color : Color) (texts : List Draw)
      → text_at px py (bar shows y height color ++ texts) ≡ text_at px py texts
  barred shows y height color texts =
      text_at-append px py (bar shows y height color) texts
      ∙ (λ j.
          or_else (text_at px py texts)
            (bar_elsewhere px py context shows 14 y (context.width - 28) height color j))
      ∙ or_else-none (text_at px py texts)

  -- the row that is drawn alone is that of the list
  pub draw_list_row-row_in :
      (variables : List Variable) (index first selected rows : ℕ)
      → first ≤ index
      → index < first + rows
      → index < length variables
      → text_at px py (draw_list_row context variables index first selected)
        ≡ row_in px py context rows
            (drop first variables)
            first
            166
            index
            (row_color index selected)
  draw_list_row-row_in variables index first selected rows h k inside =
      let d = index - first in
      let y = 166 + d * 22 in
      let color = row_color index selected in
      let (v, e) = get_elem?-some variables index inside in
      let same : first + d ≡ index = omega (arith, h) in
      let found = get_elem?-drop first d variables ∙ ap (get_elem? variables) same ∙ e in
      let drawn =
        by_test (λ (l : List Draw). text_at px py l ≡ row_at px py context v y color)
          (ltb index first) {x = []}
          {y = elim (get_elem? variables index) [
            | none ↦ []
            | some v ↦
                bar (context.graphics && ltb 28 context.width) (y - 2) 22 color
                ++ row_texts context v y color
          ]}
          (λ f. absurd (ground (arith, f, h)))
          (λ _.
            subst
              (λ (o : Option Variable).
                text_at px py (elim o [
                  | none ↦ []
                  | some v ↦
                      bar (context.graphics && ltb 28 context.width) (y - 2) 22 color
                      ++ row_texts context v y color
                ])
                ≡ row_at px py context v y color)
              (sym e)
              (barred (context.graphics && ltb 28 context.width) (y - 2) 22 color
                (row_texts context v y color))) in
      drawn
      ∙ sym (
          row_in-row_at rows d first 166 (drop first variables) v color found (omega (arith, h, k)))
      ∙ (λ j. row_in px py context rows (drop first variables) first 166 (same j) color)
