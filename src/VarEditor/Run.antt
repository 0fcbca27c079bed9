-- ===== src/VarEditor/Run.antt =====
-- Applications/RuntimeVarEditor/RuntimeVarEditor.c: `RveRun`, over the rows that the screen has for
-- variables. The screen is modelled by what was drawn on it: nothing, the list, or the details of a
-- variable. `Variables[Selected]` outside the array is `out_of_bounds`.
pub mod Rounds
pub mod Bounds
pub mod Redraw
pub mod Invariant
pub mod Edits
pub mod Ends
pub mod Outcomes
pub mod Safety
pub mod Details
use uefi_tools_pkg.Base.{
  ℕ, zero, suc, ◌+◌, ◌-◌, Bool, true, false, ◌&&◌, ◌||◌, not, Option, none, some, List, [], ◌∷◌,
  ltb, leb, ◌==◌, if◌then◌else◌, length, get_elem?, set,
}
use uefi_tools_pkg.Efi.{Status, success, efi_error}
use uefi_tools_pkg.VarEditor.Variable.{Variable}
use uefi_tools_pkg.VarEditor.Services.{Services, Key, Keys}
use uefi_tools_pkg.VarEditor.Load.{
  Note, load_failed, refresh_failed, refreshed, read_variable_info, load_variables,
}
use uefi_tools_pkg.VarEditor.Input.{scan_esc, carriage_return}
use uefi_tools_pkg.VarEditor.Edit.{
  Edited, waits, unfinished, ended, edit_byte, edit_attributes, delete_variable,
}

abbrev pub scan_up : ℕ
scan_up = 0x1

abbrev pub scan_down : ℕ
scan_down = 0x2

abbrev pub scan_right : ℕ
scan_right = 0x3

abbrev pub scan_left : ℕ
scan_left = 0x4

abbrev pub scan_page_up : ℕ
scan_page_up = 0x9

abbrev pub scan_page_down : ℕ
scan_page_down = 0xa

abbrev pub hex_page_bytes : ℕ
hex_page_bytes = 256

-- a row of the list: a variable, perhaps with the colour of the selection
pub record Row : Type 0 where
  pub listed : Variable
  pub bar : Bool

-- What is on the screen: the list, with what the lines above it tell of (the variables, the selected one,
-- the first one shown and the message) and the rows by their places, or the details of a variable.
-- `mixed` is a part of the list drawn over something else.
pub data Shown : Type 0 where
  nothing mixed : Shown
  list_of : List Variable → ℕ → ℕ → Option Note → (ℕ → Option Row) → Shown
  details_of : Variable → ℕ → Option Note → Shown

-- the row of the variable with an index
abbrev pub row_of : List Variable → ℕ → Bool → Option Row
row_of variables index bar = elim (get_elem? variables index) [
  | none ↦ none
  | some v ↦ some (record { listed = v; bar = bar })
]

-- the rows that `RveDrawList` draws
abbrev pub rows_of : ℕ → List Variable → ℕ → ℕ → ℕ → Option Row
rows_of rows variables selected first place =
    if ltb place rows then row_of variables (first + place) (first + place == selected) else none

abbrev pub listing : ℕ → List Variable → ℕ → ℕ → Option Note → Shown
listing rows variables selected first message =
    list_of variables selected first message (rows_of rows variables selected first)

-- `RveDrawListRow`, at the place that the index has behind `first`, over the rows that are there
abbrev pub draw_row : List Variable → ℕ → ℕ → ℕ → (ℕ → Option Row) → ℕ → Option Row
draw_row variables index first selected shown place =
    if leb first index && place == index - first
    then row_of variables index (index == selected)
    else shown place

-- the two rows of `RveRedrawListSelection`
unfoldable pub redraw_rows : ℕ → List Variable → ℕ → ℕ → ℕ → (ℕ → Option Row) → ℕ → Option Row
redraw_rows rows variables old new first shown =
    let with_old =
      if leb first old && ltb old (first + rows)
      then draw_row variables old first new shown
      else shown in
    if not (new == old) && (leb first new && ltb new (first + rows))
    then draw_row variables new first new with_old
    else with_old

-- `RveRedrawListSelection` on what is on the screen
unfoldable pub redraw : ℕ → List Variable → ℕ → ℕ → ℕ → Option Note → Shown → Shown
redraw rows variables old new first message (list_of info at from note shown) =
    if length variables == 0
    then list_of info at from note shown
    else list_of variables new first message (redraw_rows rows variables old new first shown)
redraw rows variables old new first message _ = mixed

-- the local variables of `RveRun`, with the screen
pub record Browser : Type 0 where
  pub variables : List Variable
  pub selected : ℕ
  pub first : ℕ
  pub detail : Bool
  pub detail_offset : ℕ
  pub message : Option Note
  pub full_redraw : Bool
  pub shown : Shown

-- How a round ends, and the tool. `waiting` waits for a key, `reading` does so inside an edit, `loading`
-- is a load that takes more rounds than its fuel, `exhausted` a run that takes more than its own.
pub data Next (W : Type 0) : Type 0 where
  quit reading : W → Next W
  waiting : Browser → W → Next W
  loading out_of_bounds exhausted : Next W
  goes : Browser → Keys → W → Next W

-- the first row that shows the selected variable
unfoldable pub scroll : ℕ → ℕ → ℕ → ℕ
scroll rows selected first =
    let above = if ltb selected first then selected else first in
    if ltb 0 rows && leb (above + rows) selected then selected + 1 - rows else above

-- the start of a round, before it draws
unfoldable pub clamp : Browser → Browser
clamp b =
    let count = length b.variables in
    if count == 0
    then record b { selected = 0; first = 0; detail = false }
    else if leb count b.selected
    then record b { selected = count - 1 }
    else b

unfoldable pub settle : ℕ → Browser → Browser
settle rows b = let b' = clamp b in record b' { first = scroll rows b'.selected b'.first }

-- none reads outside the array
unfoldable pub drawn : ℕ → Browser → Option Shown
drawn rows b =
    let listed = listing rows b.variables b.selected b.first b.message in
    if length b.variables == 0 then some listed else elim (get_elem? b.variables b.selected) [
      | none ↦ none
      | some v ↦ some (if b.detail then details_of v b.detail_offset b.message else listed)
    ]

unfoldable pub draw : ℕ → Browser → Option Browser
draw rows b =
    if b.full_redraw
    then elim (drawn rows b) [
      | none ↦ none
      | some shown ↦ some (record b { shown = shown; full_redraw = false })
    ]
    else some b

-- a move of the selection, and `SelectionKey`
pub record Moved : Type 0 where
  pub to : Browser
  pub selection_key : Bool

abbrev pub select : Browser → ℕ → Browser
select b selected = record b { selected = selected; detail_offset = 0 }

abbrev pub page_to : Browser → ℕ → Browser
page_to b selected = record b { selected = selected; detail_offset = 0; full_redraw = true }

abbrev pub unmoved : Browser → Moved
unmoved b = record { to = b; selection_key = false }

-- the switch on the scan code; `data_size` is that of the selected variable
unfoldable pub move : ℕ → ℕ → ℕ → Browser → Moved
move rows scan data_size b =
    let count = length b.variables in
    if scan == scan_up
    then (if ltb 0 b.selected
        then record { to = select b (b.selected - 1); selection_key = not b.detail }
        else unmoved b)
    else if scan == scan_down
    then (if ltb (b.selected + 1) count
        then record { to = select b (b.selected + 1); selection_key = not b.detail }
        else unmoved b)
    else if scan == scan_page_up
    then unmoved (page_to b (if ltb rows b.selected then b.selected - rows else 0))
    else if scan == scan_page_down
    then unmoved
        (page_to b (if ltb (b.selected + rows) count then b.selected + rows else count - 1))
    else if scan == scan_left
    then (if b.detail && leb hex_page_bytes b.detail_offset
        then unmoved
            (record b { detail_offset = b.detail_offset - hex_page_bytes; full_redraw = true })
        else unmoved b)
    else if scan == scan_right
    then (if b.detail && ltb (b.detail_offset + hex_page_bytes) data_size
        then unmoved
            (record b { detail_offset = b.detail_offset + hex_page_bytes; full_redraw = true })
        else unmoved b)
    else unmoved b

-- The redraw of two rows that ends the round, or the browser for the rest of it.
pub data Followed : Type 0 where
  fast slow : Browser → Followed

unfoldable pub follow : ℕ → ℕ → Moved → Followed
follow rows old_selected moved =
    let b = moved.to in
    let first = scroll rows b.selected b.first in
    if moved.selection_key && not (b.selected == old_selected)
    then (if first == b.first && not b.detail
        then fast (record b {
          first = first;
          full_redraw = false;
          shown = redraw rows b.variables old_selected b.selected first b.message b.shown;
        })
        else slow (record b { first = first; full_redraw = true }))
    else slow b
