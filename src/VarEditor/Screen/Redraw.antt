-- ===== src/VarEditor/Screen/Redraw.antt =====
-- Applications/RuntimeVarEditor/RuntimeVarEditor.c: `RveRedrawListSelection` beside `RveDrawList`.
use uefi_tools_pkg.Base.{
  ℕ, ◌+◌, ◌<◌, ◌≤◌, ◌≡◌, ◌≢◌, ◌⊎◌, inl, inr, sym, ap, ◌∙◌, arith, by_test, Bool-cases, true, false,
  ◌&&◌, not, Option, List, [], ◌++◌, ltb, leb, ◌==◌, if◌then◌else◌, length, drop,
}
use uefi_tools_pkg.VarEditor.Variable.{Variable}
use uefi_tools_pkg.VarEditor.Load.{Note}
use uefi_tools_pkg.VarEditor.Screen.{
  Context, Color, Draw, visible_rows, clear, draw_chrome, info_lines, headings, row_color,
  draw_rows, draw_list, draw_list_selection_info, draw_list_row, redraw_list_selection, select_bar,
  panel, list_title, list_help,
}
use uefi_tools_pkg.VarEditor.Screen.Cells.{
  Cell, or_else, text_at, or_else_assoc, or_else_hidden, text_at-append, info_lines-Hides,
}
use uefi_tools_pkg.VarEditor.Screen.Places.{headings_elsewhere, info_lines_elsewhere}
use uefi_tools_pkg.VarEditor.Screen.Rows.{
  row_in, rows_at, rows_redrawn, row_in_aside, rows_at_aside,
}
use uefi_tools_pkg.VarEditor.Screen.Row.{barred, draw_list_row-row_in}

module _ (px py : ℕ) (context : Context) where
  module _ (variables : List Variable) (old new first : ℕ) (older message : Option Note)
      (differ : old ≢ new) (from_old : first ≤ old) (from_new : first ≤ new)
      (to_old : old < first + visible_rows context) (to_new : new < first + visible_rows context)
      (old_inside : old < length variables) (new_inside : new < length variables) where
    abbrev info : ℕ → Option Note → Option Cell
    info selected note =
        text_at px py (info_lines context variables selected first (visible_rows context) note)

    abbrev row_of : ℕ → Color → Option Cell
    row_of k c = row_in px py context (visible_rows context) (drop first variables) first 166 k c

    redraw_list_selection-text_at :
        text_at px py (redraw_list_selection context variables old new first message)
        ≡ or_else (row_of new select_bar) (or_else (row_of old panel) (info new message))
    unfolding redraw_list_selection
    redraw_list_selection-text_at =
        let rows = visible_rows context in
        let lines = info_lines context variables new first rows message in
        let top = draw_list_selection_info context variables new first rows message in
        let left = draw_list_row context variables old first new in
        let entered = draw_list_row context variables new first new in
        let see_old : (leb first old && ltb old (first + rows)) ≡ true =
          ground (arith, from_old, to_old) in
        let see_new : (not (new == old) && leb first new && ltb new (first + rows)) ≡ true =
          ground (arith, differ, from_new, to_new) in
        let old_color : row_color old new ≡ panel = ground (arith, differ) in
        let new_color : row_color new new ≡ select_bar = ground arith in
        let all : redraw_list_selection context variables old new first message
            ≡ (top ++ left) ++ entered =
          by_test (λ (l : List Draw). l ≡ (top ++ left) ++ entered) (length variables == 0)
            (λ e. absurd (ground (arith, e, new_inside)))
            (λ _ j.
              (top ++ (if see_old j then left else [])) ++ (if see_new j then entered else [])) in
        ap (text_at px py) all
        ∙ text_at-append px py (top ++ left) entered
        ∙ (λ j. or_else (text_at px py entered) (text_at-append px py top left j))
        ∙ (λ j.
            or_else
              (draw_list_row-row_in px py context variables new first new rows from_new to_new
                new_inside j)
              (or_else
                (draw_list_row-row_in px py context variables old first new rows from_old to_old
                  old_inside j)
                (barred px py context (context.graphics && ltb 28 context.width) 62 72 panel lines
                  j)))
        ∙ (λ j.
            or_else (row_of new (new_color j))
              (or_else (row_of old (old_color j)) (info new message)))

    -- what is drawn first of the list
    abbrev base : Option Cell
    base = text_at px py (clear context ++ draw_chrome context list_title list_help)

    abbrev heads : Option Cell
    heads = text_at px py (headings context)

    abbrev rows_of : ℕ → Option Cell
    rows_of selected =
        rows_at px py context (visible_rows context) (drop first variables) first 166 selected

    draw_list-text_at :
        (selected : ℕ) (note : Option Note)
        → text_at px py (draw_list context variables selected first note)
          ≡ or_else (rows_of selected) (or_else heads (or_else (info selected note) base))
    unfolding draw_list
    draw_list-text_at selected note =
        let rows = visible_rows context in
        let first_drawn = clear context ++ draw_chrome context list_title list_help in
        let lines = info_lines context variables selected first rows note in
        let shown = draw_rows context rows (drop first variables) first 166 selected in
        text_at-append px py ((first_drawn ++ lines) ++ headings context) shown
        ∙ (λ j.
            or_else (rows_of selected)
              (text_at-append px py (first_drawn ++ lines) (headings context) j))
        ∙ (λ j.
            or_else (rows_of selected) (or_else heads (text_at-append px py first_drawn lines j)))

    in_column_or_beside :
        ((px == 18) ≡ true) ⊎ ((px == 18) ≡ false)
        → or_else (row_of new select_bar) (
            or_else (row_of old panel) (
              or_else
                (info new message)
                (or_else (rows_of old) (or_else heads (or_else (info old older) base)))))
          ≡ or_else (rows_of new) (or_else heads (or_else (info new message) base))
    in_column_or_beside (inl e) =
        let column : px ≡ 18 = ground (arith, e) in
        let rows = visible_rows context in
        let l = drop first variables in
        let row = λ (k : ℕ) (c : Color). row_in_aside px py context rows l first 166 k c column in
        let all = λ (s : ℕ). rows_at_aside px py context rows l first 166 s column in
        let no_heads = headings_elsewhere px py context column in
        (λ j. or_else (row new select_bar j) (
          or_else (row old panel j) (
            or_else (info new message)
              (or_else (all old j) (or_else (no_heads j) (or_else (info old older) base))))))
        ∙ or_else_hidden (info new message) (info old older) base
            (info_lines-Hides px py context variables new old first rows message older new_inside)
        ∙ (λ j.
            or_else (sym (all new) j) (or_else (sym no_heads j) (or_else (info new message) base)))
    in_column_or_beside (inr e) =
        let beside : px ≢ 18 = ground (arith, e) in
        let rows = visible_rows context in
        let no_info = λ (s : ℕ) (note : Option Note).
          info_lines_elsewhere px py context variables s first rows note beside in
        (λ j. or_else (row_of new select_bar) (
          or_else (row_of old panel) (
            or_else (no_info new message j)
              (or_else (rows_of old) (or_else heads (or_else (no_info old older j) base))))))
        ∙ rows_redrawn px py context rows (drop first variables) first 166 old new
            (or_else heads base) differ
        ∙ (λ j. or_else (rows_of new) (or_else heads (or_else (sym (no_info new message) j) base)))

    -- With two different variables that are in the list and in the rows shown: behind
    -- `RveDrawList` with the one selected, `RveRedrawListSelection` shows at each point the text and the
    -- colours that `RveDrawList` shows with the other selected, whatever the messages are.
    pub redraw_list_selection-draw_list :
        text_at px py (
          draw_list context variables old first older
          ++ redraw_list_selection context variables old new first message)
        ≡ text_at px py (draw_list context variables new first message)
    redraw_list_selection-draw_list =
        let n = row_of new select_bar in
        let o = row_of old panel in
        let under = or_else (rows_of old) (or_else heads (or_else (info old older) base)) in
        text_at-append px py (draw_list context variables old first older)
          (redraw_list_selection context variables old new first message)
        ∙ (λ j. or_else (redraw_list_selection-text_at j) (draw_list-text_at old older j))
        ∙ or_else_assoc n (or_else o (info new message)) under
        ∙ (λ j. or_else n (or_else_assoc o (info new message) under j))
        ∙ in_column_or_beside (Bool-cases (px == 18))
        ∙ sym (draw_list-text_at new message)
