-- ===== src/VarEditor/Program.antt =====
-- Applications/RuntimeVarEditor/RuntimeVarEditor.c: `UefiMain`, but for its warnings and its second of delay.
use uefi_tools_pkg.Base.{ℕ, Bool, Option}
use uefi_tools_pkg.VarEditor.Services.{Services, Keys}
use uefi_tools_pkg.VarEditor.Screen.{Output, main_context, visible_rows}
use uefi_tools_pkg.VarEditor.Run.{Next}
use uefi_tools_pkg.VarEditor.Run.Rounds.{run}
use uefi_tools_pkg.VarEditor.Run.Outcomes.{IsEnd, AllUsed}
use uefi_tools_pkg.VarEditor.Run.Safety.{run-IsEnd}
use uefi_tools_pkg.VarEditor.Run.Edits.{LoadsEnd}

module _ {W : Type 0} (svc : Services W) (load_fuel max_uintn : ℕ) (output : Option Output)
    (font : Bool) where
  abbrev rows : ℕ
  rows = visible_rows (main_context output font)

  unfoldable pub uefi_main : Keys → W → Next W
  uefi_main keys w = run svc load_fuel max_uintn rows keys w

  -- Where the loads end, the tool keeps to what `RveRun` does on any screen.
  pub uefi_main-IsEnd :
      LoadsEnd svc load_fuel
      → (keys : Keys) (w : W)
      → IsEnd svc max_uintn rows
          (AllUsed svc load_fuel max_uintn rows keys w)
          keys
          w
          (uefi_main keys w)
  unfolding uefi_main
  uefi_main-IsEnd loads keys w = run-IsEnd svc load_fuel max_uintn rows loads keys w
