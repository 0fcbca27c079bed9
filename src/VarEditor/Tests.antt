-- ===== src/VarEditor/Tests.antt =====
-- Runs of the model of Applications/RuntimeVarEditor/RuntimeVarEditor.c on the sample store.
mod Sample
use mathlib.Core.List.{Perm, Pairwise}
use uefi_tools_pkg.Base.{
  ℕ, ◌+◌, ◌-◌, ◌^◌, ◌≡◌, refl, Bool, true, false, ◌&&◌, Option, none, some, List, [], ◌∷◌, ◌++◌,
  map, Text, codes, length, arith,
}
use uefi_tools_pkg.Base.Hex.{hex_digit, without_prefix}
use uefi_tools_pkg.Base.Insertion.{insertion_sort, sort_onto, insert_below}
use uefi_tools_pkg.Efi.{Status, success}
use uefi_tools_pkg.VarEditor.Variable.{
  Variable, IsUpTo, sort_variables, sort_variables-sorts, text_greater, is_authenticated_variable,
  normal_write_attributes,
}
use uefi_tools_pkg.VarEditor.Services.{Services, Key, Keys}
use uefi_tools_pkg.VarEditor.Parse.{
  parse_hex_uintn, parse_hex_digits, fitting_number, parse_hex_uintn-number,
}
use uefi_tools_pkg.VarEditor.Load.{
  Note, byte_written, load_variables, load_loop, load_round, take_name, add_variable,
  read_variable_info, load_variable_data,
}
use uefi_tools_pkg.VarEditor.Load.Lists.{Entry, runtime_variables}
use uefi_tools_pkg.VarEditor.Load.Store.{load_variables-lists}
use uefi_tools_pkg.VarEditor.Input.{
  typed, read_line, read_line_on, line_key, confirm, carriage_return,
}
use uefi_tools_pkg.VarEditor.Input.Bounds.{press, read_line-typed}
use uefi_tools_pkg.VarEditor.Edit.{
  ended, edit_byte, edit_attributes, attributes_loop, attribute_key, delete_variable,
}
use uefi_tools_pkg.VarEditor.Edit.Writes.{IsByteWrite, IsAttributeWrite, IsEdit}
use uefi_tools_pkg.VarEditor.Edit.Guards.{edit_byte-IsEdit, edit_attributes-IsEdit}
use uefi_tools_pkg.VarEditor.Run.{
  Shown, nothing, details_of, Browser, Next, quit, reading, waiting, goes, settle, clamp, scroll,
  drawn, draw, move, follow,
}
use uefi_tools_pkg.VarEditor.Run.Rounds.{
  first_browser, refresh, reload, edit, act, on_key, take_key, round, rounds, run,
}
use uefi_tools_pkg.VarEditor.Run.Details.{arrow_down, down-stale}
use uefi_tools_pkg.VarEditor.Screen.{
  Context, init_context, resolution, name_of, text, select_bar, header, visible_rows, fill_rect,
  draw_text, draw_rows, draw_list, redraw_list_selection,
}
use uefi_tools_pkg.VarEditor.Screen.Cells.{text_at}
use uefi_tools_pkg.VarEditor.Screen.Redraw.{redraw_list_selection-draw_list}
use uefi_tools_pkg.VarEditor.Screen.Bounds.{paints, covers, AreOnScreen, fill_rect_clipped}
use uefi_tools_pkg.VarEditor.Tests.Sample.{
  Store, original, edited, hidden, removed, sample, variable_a, variable_b, typing, enter,
  byte_keys,
}

abbrev max_uintn : ℕ
max_uintn = 2 ^ 64 - 1

abbrev world : Next Store → Option Store
world (quit w) = some w
world (reading w) = some w
world (waiting b w) = some w
world _ = none

-- what the keys make of the store, on a screen of ten rows
after : Keys → Option Store
unfolding load_variables load_loop load_round take_name add_variable read_variable_info
    load_variable_data sort_variables insertion_sort sort_onto insert_below text_greater
    parse_hex_uintn parse_hex_digits hex_digit read_line_on line_key confirm edit_byte
    edit_attributes attributes_loop attribute_key delete_variable settle clamp scroll drawn draw
    move follow refresh reload edit act on_key take_key round rounds run
after keys = world (run sample 4 max_uintn 10 keys original)

after-byte : after byte_keys ≡ some edited
unfolding after
after-byte = refl

-- the runtime attribute is taken off
after-attributes : after (typing (codes "atsy")) ≡ some hidden
unfolding after
after-attributes = refl

after-delete : after (typing (codes "dy")) ≡ some removed
unfolding after
after-delete = refl

after-cancel : after (typing (codes "dnq")) ≡ some original
unfolding after
after-cancel = refl

-- the variable behind the first is authenticated
after-authenticated : after (some arrow_down ∷ typing (codes "dy")) ≡ some original
unfolding after
after-authenticated = refl

abbrev two_variables : Browser
two_variables = record first_browser {
  variables = variable_a ∷ variable_b ∷ [];
  detail = true;
  full_redraw = false;
  shown = details_of variable_a 0 none;
}

load_variables-lists_example :
    load_variables sample 3 original
    ≡ some (
      success,
      none,
      sort_variables (runtime_variables sample original ((codes "A", 1) ∷ (codes "B", 1) ∷ [])),
    )
unfolding read_variable_info
load_variables-lists_example =
    load_variables-lists sample original (λ round what. refl) ((codes "A", 1) ∷ (codes "B", 1) ∷ [])
      3 (λ size. refl, (λ size. refl, λ size. refl)) (omega arith, (omega arith, tt)) (omega arith)
      (omega arith)

-- the keys of the edit, which ends with the new byte
abbrev typed_byte : Keys
typed_byte = typing (codes "1") ++ (enter ∷ typing (codes "7f")) ++ (enter ∷ press b'y' ∷ [])

edit_byte-writes :
    edit_byte sample variable_a max_uintn typed_byte original
    ≡ ended success (byte_written success) [] edited
unfolding load_variable_data parse_hex_uintn parse_hex_digits hex_digit read_line_on line_key
    confirm edit_byte
edit_byte-writes = refl

edit_byte-IsEdit_example :
    IsEdit original
      (IsByteWrite sample variable_a original max_uintn typed_byte)
      typed_byte
      (edit_byte sample variable_a max_uintn typed_byte original)
edit_byte-IsEdit_example = edit_byte-IsEdit sample variable_a original max_uintn typed_byte

edit_attributes-IsEdit_example :
    IsEdit original
      (IsAttributeWrite sample variable_a original)
      (typing (codes "tsy"))
      (edit_attributes sample variable_a (typing (codes "tsy")) original)
edit_attributes-IsEdit_example =
    edit_attributes-IsEdit sample variable_a original (typing (codes "tsy"))

parse_hex_uintn-number_example :
    parse_hex_uintn max_uintn (codes "0x7f") ≡ fitting_number max_uintn (codes "0x7f")
parse_hex_uintn-number_example = parse_hex_uintn-number max_uintn (codes "0x7f") (omega arith)

read_line-typed_example : read_line 32 (typing (codes "7f") ++ (enter ∷ [])) ≡ typed (codes "7f") []
read_line-typed_example =
    read_line-typed 32 (codes "7f") [] (omega arith, (omega arith, tt)) (omega arith)

sort_variables-sorts_example :
    Pairwise (λ a b. IsUpTo a.name b.name) (sort_variables (variable_b ∷ variable_a ∷ []))
    × Perm (sort_variables (variable_b ∷ variable_a ∷ [])) (variable_b ∷ variable_a ∷ [])
sort_variables-sorts_example = sort_variables-sorts (variable_b ∷ variable_a ∷ [])

down-stale_example :
    (b' : Browser) × (take_key sample 4 max_uintn 10 two_variables (some arrow_down ∷ []) original
      ≡ goes b' [] original)
    × (b'' : Browser) × (draw 10 (settle 10 b') ≡ some b'')
    × (b''.shown ≡ details_of variable_a 0 none)
    × (b''.selected ≡ 1)
down-stale_example =
    down-stale sample 4 max_uintn 10 two_variables [] original refl refl (omega arith)

abbrev screen : Context
screen = init_context (some (resolution 800 600)) true

-- the name of the second variable, on the bar of the selection
text_at-name :
    text_at 24 188 (draw_list screen (variable_a ∷ variable_b ∷ []) 1 0 none)
    ≡ some (name_of variable_b, text, select_bar)
unfolding text_at draw_list fill_rect draw_text draw_rows visible_rows
text_at-name = refl

fill_rect_clipped_example :
    (paints 790 10 (fill_rect screen 780 0 100 54 header)
      ≡ (covers 790 10 780 0 100 54 && covers 790 10 0 0 800 600))
    × AreOnScreen screen (fill_rect screen 780 0 100 54 header)
fill_rect_clipped_example = fill_rect_clipped screen 790 10 780 0 100 54 header refl
