-- ===== src/VarEditor/Screen.antt =====
-- Applications/RuntimeVarEditor/RuntimeVarEditor.c: `RveInitContext`, `RveFillRect`, `RveDrawText`, and
-- the functions that draw the list. A text is a constructor with the values that it shows. The pool has
-- the memory of an image.
pub mod Cells
pub mod Places
pub mod Rows
pub mod Row
pub mod Bounds
pub mod Hex
pub mod Redraw
use uefi_tools_pkg.Base.{
  ℕ, zero, suc, ◌+◌, ◌-◌, ◌*◌, ◌/◌, Bool, true, false, ◌&&◌, ◌||◌, not, Option, none, some, List,
  [], ◌∷◌, ◌++◌, ltb, leb, ◌==◌, if◌then◌else◌, Text, length, get_elem?, drop, min,
}
use uefi_tools_pkg.VarEditor.Variable.{Variable}
use uefi_tools_pkg.Efi.{Status}
use uefi_tools_pkg.VarEditor.Load.{Note}

pub record Context : Type 0 where
  pub gop : Bool
  pub font : Bool
  pub width : ℕ
  pub height : ℕ
  pub graphics : Bool

-- a graphics output protocol that is found, perhaps without a mode
pub data Output : Type 0 where
  without_mode : Output
  resolution : ℕ → ℕ → Output

-- what the two calls of `LocateProtocol` find
abbrev pub init_context : Option Output → Bool → Context
init_context none font = record {
  gop = false;
  font = font;
  width = 0;
  height = 0;
  graphics = false;
}
init_context (some without_mode) font = record {
  gop = true;
  font = font;
  width = 0;
  height = 0;
  graphics = false;
}
init_context (some (resolution width height)) font = record {
  gop = true;
  font = font;
  width = width;
  height = height;
  graphics = true;
}

-- the context that `UefiMain` runs with
abbrev pub main_context : Option Output → Bool → Context
main_context output font =
    let context = init_context output font in
    if context.graphics && not context.font then record context { graphics = false } else context

pub data Color : Type 0 where
  bg panel header select_bar text muted warn danger ok : Color

-- the texts of the list and the details: `counts` has the number of variables, the selected, the first and the last
-- that are shown, and the message; `hex_row` the offset, 16 bytes or blanks, and the column of characters
pub data Label : Type 0 where
  list_title list_help name_column attributes_column size_column guid_column : Label
  counts : ℕ → ℕ → ℕ → ℕ → Option Note → Label
  selected_line guid_line name_of attributes_of size_of guid_of : Variable → Label
  details_title details_help hex_heading : Label
  name_line guid_only_line attributes_line : Variable → Label
  read_failed_line : Status → Label
  page_line : ℕ → ℕ → ℕ → Option Note → Label
  hex_row : ℕ → List (Option ℕ) → Text → Label

pub data Draw : Type 0 where
  clear_screen : Draw
  blt : ℕ → ℕ → ℕ → ℕ → Color → Draw
  image : ℕ → ℕ → Label → Color → Color → Draw
  print : Label → Draw

unfoldable pub visible_rows : Context → ℕ
visible_rows context = if ltb context.height 150 then 16 else (context.height - 138) / 22

abbrev pub row_color : ℕ → ℕ → Color
row_color index selected = if index == selected then select_bar else panel

module _ (context : Context) where
  unfoldable pub fill_rect : ℕ → ℕ → ℕ → ℕ → Color → List Draw
  fill_rect x y width height color =
      if not context.gop || width == 0 || height == 0
      then []
      else if leb context.width x || leb context.height y
      then []
      else blt x y (min width (context.width - x)) (min height (context.height - y)) color ∷ []

  unfoldable pub draw_text : ℕ → ℕ → Label → Color → Color → List Draw
  draw_text x y label foreground background =
      if not context.graphics || not context.font || not context.gop
      then print label ∷ []
      else image x y label foreground background ∷ []

  abbrev pub clear : List Draw
  clear =
      if context.graphics then fill_rect 0 0 context.width context.height bg else clear_screen ∷ []

  abbrev pub draw_chrome : Label → Label → List Draw
  draw_chrome title help =
      (if context.graphics
        then fill_rect 0 0 context.width 54 header
          ++ (if ltb 20 context.width && ltb 82 context.height
              then fill_rect 10 64 (context.width - 20) (context.height - 82) panel
              else [])
          ++ (if ltb 36 context.height
              then fill_rect 0 (context.height - 36) context.width 36 header
              else [])
        else [])
      ++ draw_text 18 14 title text header
      ++ draw_text 18 (context.height - 28) help muted header

  abbrev pub count_line : ℕ → ℕ → ℕ → ℕ → Option Note → List Draw
  count_line count selected first rows message =
      draw_text 18 64
        (counts count (if count == 0 then 0 else selected + 1) (if count == 0 then 0 else first + 1)
          (min (if count == 0 then 0 else first + rows) count) message)
        (if count == 0 then warn else ok) panel

  abbrev pub selected_lines : Option Variable → List Draw
  selected_lines none = []
  selected_lines (some v) =
      draw_text 18 88 (selected_line v) warn panel ++ draw_text 18 110 (guid_line v) muted panel

  -- the lines on the selected variable, which two functions draw
  abbrev pub info_lines : List Variable → ℕ → ℕ → ℕ → Option Note → List Draw
  info_lines variables selected first rows message =
      count_line (length variables) selected first rows message
      ++ selected_lines (get_elem? variables selected)

  abbrev pub headings : List Draw
  headings =
      (if context.graphics && ltb 28 context.width
        then fill_rect 14 138 (context.width - 28) 22 bg
        else [])
      ++ draw_text 24 140 name_column muted bg
      ++ draw_text 320 140 attributes_column muted bg
      ++ draw_text 600 140 size_column muted bg
      ++ draw_text 690 140 guid_column muted bg

  abbrev pub row_texts : Variable → ℕ → Color → List Draw
  row_texts v y color =
      draw_text 24 y (name_of v) text color
      ++ draw_text 320 y (attributes_of v) text color
      ++ draw_text 600 y (size_of v) text color
      ++ draw_text 690 y (guid_of v) text color

  -- the loop over the rows, on the variables from the index on
  unfoldable pub draw_rows : ℕ → List Variable → ℕ → ℕ → ℕ → List Draw
  draw_rows zero variables index y selected = []
  draw_rows (suc rows) [] index y selected = []
  draw_rows (suc rows) (v ∷ variables) index y selected =
      (if index == selected && ltb 28 context.width
        then fill_rect 14 (y - 2) (context.width - 28) 22 select_bar
        else [])
      ++ row_texts v y (row_color index selected)
      ++ draw_rows rows variables (index + 1) (y + 22) selected

  unfoldable pub draw_list : List Variable → ℕ → ℕ → Option Note → List Draw
  draw_list variables selected first message =
      let rows = visible_rows context in
      clear
      ++ draw_chrome list_title list_help
      ++ info_lines variables selected first rows message
      ++ headings
      ++ draw_rows rows (drop first variables) first 166 selected

  abbrev pub draw_list_selection_info : List Variable → ℕ → ℕ → ℕ → Option Note → List Draw
  draw_list_selection_info variables selected first rows message =
      (if context.graphics && ltb 28 context.width
        then fill_rect 14 62 (context.width - 28) 72 panel
        else [])
      ++ info_lines variables selected first rows message

  abbrev pub draw_list_row : List Variable → ℕ → ℕ → ℕ → List Draw
  draw_list_row variables index first selected =
      let y = 166 + (index - first) * 22 in
      let color = row_color index selected in
      if ltb index first then [] else elim (get_elem? variables index) [
        | none ↦ []
        | some v ↦
            (if context.graphics && ltb 28 context.width
              then fill_rect 14 (y - 2) (context.width - 28) 22 color
              else [])
            ++ row_texts v y color
      ]

  unfoldable pub redraw_list_selection : List Variable → ℕ → ℕ → ℕ → Option Note → List Draw
  redraw_list_selection variables old new first message =
      let rows = visible_rows context in
      if length variables == 0
      then []
      else draw_list_selection_info variables new first rows message
        ++ (if leb first old && ltb old (first + rows)
            then draw_list_row variables old first new
            else [])
        ++ (if not (new == old) && leb first new && ltb new (first + rows)
            then draw_list_row variables new first new
            else [])
