-- ===== src/VarEditor/Run/Rounds.antt =====
-- Applications/RuntimeVarEditor/RuntimeVarEditor.c: what `RveRun` does on a key, and its loop.
use uefi_tools_pkg.Base.{
  ℕ, zero, suc, ◌+◌, ◌-◌, true, false, ◌&&◌, ◌||◌, Option, none, some, [], ◌∷◌, ltb, leb, ◌==◌,
  if◌then◌else◌, length, get_elem?, set,
}
use uefi_tools_pkg.Efi.{efi_error}
use uefi_tools_pkg.VarEditor.Variable.{Variable}
use uefi_tools_pkg.VarEditor.Services.{Services, Key, Keys}
use uefi_tools_pkg.VarEditor.Load.{
  Note, load_failed, refresh_failed, refreshed, read_variable_info, load_variables,
}
use uefi_tools_pkg.VarEditor.Input.{scan_esc, carriage_return}
use uefi_tools_pkg.VarEditor.Edit.{
  Edited, waits, unfinished, ended, edit_byte, edit_attributes, delete_variable,
}
use uefi_tools_pkg.VarEditor.Run.{
  nothing, Browser, Next, quit, reading, waiting, loading, out_of_bounds, exhausted, goes, settle,
  draw, move, fast, slow, follow,
}

abbrev pub first_browser : Browser
first_browser = record {
  variables = [];
  selected = 0;
  first = 0;
  detail = false;
  detail_offset = 0;
  message = none;
  full_redraw = true;
  shown = nothing;
}

-- a message that is written over the last one
abbrev pub or_last : Option Note → Option Note → Option Note
or_last (some note) last = some note
or_last none last = last

-- the test behind a load after an edit
abbrev pub within : ℕ → ℕ → ℕ
within count selected = if leb count selected && ltb 0 count then count - 1 else selected

module _ {W : Type 0} (svc : Services W) (load_fuel : ℕ) where
  unfoldable pub refresh : Browser → Keys → W → Next W
  refresh b keys w = elim (load_variables svc load_fuel w) [
    | none ↦ loading
    | some (status, written, variables) ↦
        goes
          (record b {
            variables = variables;
            message = some (if efi_error status then refresh_failed status else refreshed);
            full_redraw = true;
          })
          keys w
  ]

  -- a load that keeps the message of the edit unless it writes its own
  unfoldable pub reload : Browser → Note → Keys → W → Next W
  reload b last keys w = elim (load_variables svc load_fuel w) [
    | none ↦ loading
    | some (status, written, variables) ↦
        goes
          (record b {
            variables = variables;
            selected = within (length variables) b.selected;
            detail = false;
            message = or_last written (some last);
            full_redraw = true;
          })
          keys w
  ]

  -- the details of the selected variable, read again
  abbrev pub reread : Browser → Variable → Note → W → Browser
  reread b v note w = record b {
    variables = set b.variables b.selected (read_variable_info svc v w).1;
    detail = true;
    message = some note;
    full_redraw = true;
  }

  abbrev pub after_byte : Browser → Variable → W → Edited W → Next W
  after_byte b v w waits = reading w
  after_byte b v w unfinished = exhausted
  after_byte b v w (ended status note keys w') = goes (reread b v note w') keys w'

  abbrev pub after_attributes : Browser → Variable → W → Edited W → Next W
  after_attributes b v w waits = reading w
  after_attributes b v w unfinished = exhausted
  after_attributes b v w (ended status note keys w') =
      if efi_error status then goes (reread b v note w') keys w' else reload b note keys w'

  abbrev pub after_delete : Browser → W → Edited W → Next W
  after_delete b w waits = reading w
  after_delete b w unfinished = exhausted
  after_delete b w (ended status note keys w') = reload b note keys w'

  module _ (max_uintn rows : ℕ) where
    unfoldable pub edit : Key → Variable → Browser → Keys → W → Next W
    edit key v b keys w =
        if key.unicode == b'e' || key.unicode == b'E'
        then after_byte b v w (edit_byte svc v max_uintn keys w)
        else if key.unicode == b'a' || key.unicode == b'A'
        then after_attributes b v w (edit_attributes svc v keys w)
        else if key.unicode == b'd' || key.unicode == b'D'
        then after_delete b w (delete_variable svc v keys w)
        else goes b keys w

    -- from the switch on
    unfoldable pub act : Key → Variable → Browser → Keys → W → Next W
    act key v b keys w = elim (follow rows b.selected (move rows key.scan v.data_size b)) [
      | fast b' ↦ goes b' keys w
      | slow b' ↦ elim (get_elem? b'.variables b'.selected) [
        | none ↦ out_of_bounds
        | some v' ↦ edit key v' b' keys w
      ]
    ]

    unfoldable pub on_key : Key → Browser → Keys → W → Next W
    on_key key b keys w =
        let count = length b.variables in
        if key.unicode == b'q' || key.unicode == b'Q'
        then quit w
        else if key.scan == scan_esc
        then (if b.detail
            then goes (record b { detail = false; full_redraw = true }) keys w
            else quit w)
        else if key.unicode == carriage_return && ltb 0 count
        then goes (record b { detail = true; detail_offset = 0; full_redraw = true }) keys w
        else if key.unicode == b'r' || key.unicode == b'R'
        then refresh b keys w
        else if count == 0
        then goes b keys w
        else elim (get_elem? b.variables b.selected) [
          | none ↦ out_of_bounds
          | some v ↦ act key v b keys w
        ]

    unfoldable pub take_key : Browser → Keys → W → Next W
    take_key b [] w = waiting b w
    take_key b (none ∷ keys) w = goes b keys w
    take_key b (some key ∷ keys) w = on_key key (record b { message = none }) keys w

    unfoldable pub round : Browser → Keys → W → Next W
    round b keys w = elim (draw rows (settle rows b)) [
      | none ↦ out_of_bounds
      | some b' ↦ take_key b' keys w
    ]

    unfoldable pub rounds : ℕ → Browser → Keys → W → Next W
    rounds zero b keys w = exhausted
    rounds (suc fuel) b keys w = elim (round b keys w) [
      | goes b' keys' w' ↦ rounds fuel b' keys' w'
      | next ↦ next
    ]

    -- Each round takes a key, but for the last, which waits for one.
    unfoldable pub run : Keys → W → Next W
    run keys w = elim (load_variables svc load_fuel w) [
      | none ↦ loading
      | some (status, written, variables) ↦
          rounds (length keys + 1)
            (record first_browser {
              variables = variables;
              message = if efi_error status then some (load_failed status) else written;
            })
            keys w
    ]
