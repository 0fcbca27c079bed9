-- ===== src/VarEditor/Screen/Hex.antt =====
-- Applications/RuntimeVarEditor/RuntimeVarEditor.c: `RveDrawDetails`.
use uefi_tools_pkg.Base.{
  ℕ, zero, suc, ◌+◌, ◌-◌, ◌*◌, ◌≡◌, refl, sym, ◌∙◌, ap, ◌&&◌, not, Option, none, some, List, [],
  ◌∷◌, ◌++◌, map, leb, ◌==◌, if◌then◌else◌, length, take, drop, take_nothing, drop_all, take-append,
  drop-drop, by_test, arith,
}
use uefi_tools_pkg.VarEditor.Variable.{Variable}
use uefi_tools_pkg.VarEditor.Services.{Bytes, Services}
use uefi_tools_pkg.VarEditor.Load.{Note, Loaded, failed, loaded, load_variable_data}
use uefi_tools_pkg.VarEditor.Screen.{
  Context, panel, text, muted, warn, danger, Label, details_title, details_help, hex_heading,
  name_line, guid_only_line, attributes_line, read_failed_line, page_line, hex_row, Draw, draw_text,
  clear, draw_chrome,
}

-- the loop over the columns: a byte, or a blank behind the data
abbrev pub cells : ℕ → Bytes → List (Option ℕ)
cells zero bytes = []
cells (suc columns) [] = none ∷ cells columns []
cells (suc columns) (value ∷ bytes) = some value ∷ cells columns bytes

abbrev pub ascii : Option ℕ → ℕ
ascii none = b' '
ascii (some value) = if leb 0x20 value && leb value 0x7e then value else b'.'

abbrev pub hex_label : ℕ → Bytes → Label
hex_label offset bytes = hex_row offset (cells 16 bytes) (map ascii (cells 16 bytes))

-- the loop over the rows, from a row of the page on
unfoldable pub hex_rows : ℕ → ℕ → ℕ → Bytes → List (ℕ × Label)
hex_rows zero row offset bytes = []
hex_rows (suc rows) row offset bytes =
    let rest = hex_rows rows (row + 1) (offset + 16) bytes in
    if leb (length bytes) offset
    then []
    else (194 + row * 22, hex_label offset (drop offset bytes)) ∷ rest

-- a page behind the data is the first one
abbrev pub page_start : ℕ → ℕ → ℕ
page_start data_size page_offset = if leb data_size page_offset then 0 else page_offset

abbrev pub page_end : ℕ → ℕ → ℕ
page_end data_size page_offset =
    let last = if data_size == 0 then 0 else page_offset + 256 - 1 in
    if not (data_size == 0) && leb data_size last then data_size - 1 else last

module _ (context : Context) where
  abbrev pub draw_hex_rows : List (ℕ × Label) → List Draw
  draw_hex_rows [] = []
  draw_hex_rows ((y, label) ∷ rest) = draw_text context 18 y label text panel ++ draw_hex_rows rest

  abbrev pub draw_data : ℕ → Option Note → Loaded → List Draw
  draw_data page_offset message (failed status) =
      draw_text context 18 150 (read_failed_line status) danger panel
  draw_data page_offset message (loaded bytes attributes) =
      let start = page_start (length bytes) page_offset in
      draw_text context 18 146
        (page_line start (page_end (length bytes) start) (length bytes) message) warn panel
      ++ draw_text context 18 170 hex_heading muted panel
      ++ draw_hex_rows (hex_rows 16 0 start bytes)

  unfoldable pub draw_details :
      {W : Type 0} → Services W → Variable → ℕ → Option Note → W → List Draw
  draw_details svc v page_offset message w =
      clear context
      ++ draw_chrome context details_title details_help
      ++ draw_text context 18 70 (name_line v) text panel
      ++ draw_text context 18 94 (guid_only_line v) text panel
      ++ draw_text context 18 118 (attributes_line v) text panel
      ++ draw_data page_offset message (load_variable_data svc v w)

-- the bytes that are shown
abbrev pub values : List (Option ℕ) → Bytes
values [] = []
values (none ∷ rest) = values rest
values (some value ∷ rest) = value ∷ values rest

abbrev pub shown_bytes : List (ℕ × Label) → Bytes
shown_bytes [] = []
shown_bytes ((y, hex_row offset row characters) ∷ rest) = values row ++ shown_bytes rest
shown_bytes (_ ∷ rest) = shown_bytes rest

values-cells : (n : ℕ) (bytes : Bytes) → values (cells n bytes) ≡ take n bytes
values-cells zero bytes = refl
values-cells (suc n) [] = values-cells n [] ∙ take_nothing n
values-cells (suc n) (value ∷ bytes) = ap (◌∷◌ value) (values-cells n bytes)

-- The rows of `RveDrawDetails` show the bytes of the page, each once and in order: those from its start
-- on, at most 16 in a row.
pub shown_bytes-hex_rows :
    (rows row start : ℕ) (bytes : Bytes)
    → shown_bytes (hex_rows rows row start bytes) ≡ take (rows * 16) (drop start bytes)
unfolding hex_rows
shown_bytes-hex_rows zero row start bytes = refl
shown_bytes-hex_rows (suc rows) row start bytes =
    by_test (λ (l : List (ℕ × Label)). shown_bytes l ≡ take (suc rows * 16) (drop start bytes))
      (leb (length bytes) start)
      (λ e. sym (
        (λ i. take (suc rows * 16) (drop_all start bytes (ground (arith, e)) i))
        ∙ take_nothing (suc rows * 16)))
      (λ _.
        (λ i.
          values-cells 16 (drop start bytes) i
          ++ shown_bytes-hex_rows rows (row + 1) (start + 16) bytes i)
        ∙ (λ i. take 16 (drop start bytes) ++ take (rows * 16) (sym (drop-drop start 16 bytes) i))
        ∙ take-append 16 (rows * 16) (drop start bytes)
        ∙ (λ i. take (same i) (drop start bytes)))
  where
    same : 16 + rows * 16 ≡ suc rows * 16
    same = omega arith
