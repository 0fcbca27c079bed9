-- ===== src/VarEditor/Run/Outcomes.antt =====
-- Applications/RuntimeVarEditor/RuntimeVarEditor.c: how a round of `RveRun` and the whole of it end.
use uefi_tools_pkg.Base.{ℕ, ◌≡◌, Option, some, List, [], if◌then◌else◌}
use uefi_tools_pkg.Efi.{Status, efi_error}
use uefi_tools_pkg.VarEditor.Load.Read.{IsReadAt}
use uefi_tools_pkg.VarEditor.Variable.{Variable}
use uefi_tools_pkg.VarEditor.Services.{Services, Keys}
use uefi_tools_pkg.VarEditor.Load.{Note, load_variables, load_failed}
use uefi_tools_pkg.VarEditor.Input.Bounds.{IsBehind, HasKey}
use uefi_tools_pkg.VarEditor.Edit.Writes.{IsWrite}
use uefi_tools_pkg.VarEditor.Run.{Browser, Next, goes, waiting, quit, reading}
use uefi_tools_pkg.VarEditor.Run.Invariant.{IsCurrent, IsWaiting}
use uefi_tools_pkg.VarEditor.Run.Rounds.{first_browser, round}
use uefi_tools_pkg.VarEditor.Run.Edits.{IsQuit, IsEditKey, Keeps, IsChange}

module _ {W : Type 0} (svc : Services W) (max_uintn : ℕ) where
  -- how a round ends that begins with these variables and keys
  abbrev pub IsRound : (W → Type 0) → ℕ → List Variable → Keys → W → Next W → Type 0
  IsRound Past rows variables keys w (goes b keys' after) =
      IsCurrent rows b
      × IsBehind keys' keys
      × IsChange svc max_uintn variables keys w after
      × Keeps svc max_uintn Past variables after b
  IsRound Past rows variables keys w (quit after) = (after ≡ w) × HasKey IsQuit keys
  IsRound Past rows variables keys w (reading after) = (after ≡ w) × HasKey IsEditKey keys
  IsRound Past rows variables keys w (waiting b after) =
      IsWaiting rows b × (keys ≡ []) × (after ≡ w)
  IsRound Past rows variables keys w _ = ⊥

  -- The states after writes of the tool, one after another, each to a variable whose attributes were read
  -- in one of these states.
  pub data IsHistory (start : W) : W → Type 0 where
    no_write : IsHistory start start
    one_more :
        {now next past : W} {v : Variable} {status : Status}
        → IsHistory start now
        → IsHistory start past
        → IsReadAt svc past v
        → IsWrite svc v now max_uintn (status, next)
        → IsHistory start next

  -- How the tool ends, or waits for its next key. `Uses` is to hold of the state it waits in.
  abbrev pub IsEnd : ℕ → (W → Type 0) → Keys → W → Next W → Type 0
  IsEnd rows Uses keys w (quit after) = IsHistory w after × HasKey IsQuit keys
  IsEnd rows Uses keys w (reading after) = IsHistory w after × HasKey IsEditKey keys
  IsEnd rows Uses keys w (waiting b after) = IsWaiting rows b × IsHistory w after × Uses after
  IsEnd rows Uses keys w _ = ⊥

module _ {W : Type 0} (svc : Services W) (load_fuel max_uintn rows : ℕ) where
  -- rounds, one after another, that use up the keys
  pub data Rounds : Browser → Keys → W → W → Type 0 where
    none_left : {b : Browser} {w : W} → Rounds b [] w w
    one_round :
        {b b' : Browser} {keys keys' : Keys} {w w' after : W}
        → round svc load_fuel max_uintn rows b keys w ≡ goes b' keys' w'
        → Rounds b' keys' w' after
        → Rounds b keys w after

  -- the rounds begin with what the load lists
  pub record AllUsed (keys : Keys) (w after : W) : Type 0 where
    pub status : Status
    pub written : Option Note
    pub found : List Variable
    pub is_loaded : load_variables svc load_fuel w ≡ some (status, written, found)
    pub used :
        Rounds
          (record first_browser {
            variables = found;
            message = if efi_error status then some (load_failed status) else written;
          })
          keys
          w
          after
