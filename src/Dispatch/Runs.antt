-- ===== src/Dispatch/Runs.antt =====
-- Applications/UefiTools/UefiTools.c: which tool runs, on which arguments, and what is left of them.
use uefi_tools_pkg.Base.{
  ℕ, suc, ltb, length, arith, ◌≡◌, refl, false, ◌||◌, List, [], ◌∷◌, Text, codes, equal,
}
use uefi_tools_pkg.Efi.{Status, success, error, invalid_parameter}
use uefi_tools_pkg.Dispatch.Table.{
  Command, pci_topology, pci_option_rom_info, loong_arch_mapping, runtime_var_editor, reboot_test,
  fill_nv_vars, null_address_probe, nic_dma_scan, command_name, commands, usage, unknown_command,
  Tools, Shell, nic_dma_status, call_main, run, search, uefi_main,
}

-- The arguments that a tool takes: all of them, or those behind the name of UefiTools for a tool that
-- takes its own name first.
abbrev pub own_arguments : Command → Text → List Text → List Text
own_arguments reboot_test program rest = rest
own_arguments nic_dma_scan program rest = rest
own_arguments loong_arch_mapping program rest = rest
own_arguments _ program rest = program ∷ rest

abbrev pub outcome : {W : Type 0} → Tools W → Command → List Text → W → Status × W
outcome tools reboot_test arguments w = tools.reboot_main arguments w
outcome tools nic_dma_scan arguments w =
    let (result, w') = tools.nic_dma_main arguments w in (nic_dma_status tools result, w')
outcome tools c arguments w = tools.main c arguments w

two_args : (n : ℕ) → ltb (suc (suc n)) 2 ≡ false
two_args n = ground arith

module _ {W : Type 0} (tools : Tools W) where
  -- The name of a command runs its tool once, on the machine as it is and the arguments that the tool
  -- takes; its status is that of UefiTools, nothing is printed, and the arguments in the Shell
  -- parameters protocol are afterwards what they were.
  pub uefi_main-runs :
      (c : Command) (program : Text) (rest : List Text) (w : W)
      → uefi_main tools success (record { argv = program ∷ command_name c ∷ rest; world = w }) ≡ (
        (outcome tools c (own_arguments c program (command_name c ∷ rest)) w).0,
        record {
          argv = program ∷ command_name c ∷ rest;
          world = (outcome tools c (own_arguments c program (command_name c ∷ rest)) w).1;
        },
        [],
      )
  unfolding uefi_main search run call_main
  uefi_main-runs pci_topology program rest w = rw (two_args (length rest), uefi_main) refl
  uefi_main-runs pci_option_rom_info program rest w = rw (two_args (length rest), uefi_main) refl
  uefi_main-runs loong_arch_mapping program rest w = rw (two_args (length rest), uefi_main) refl
  uefi_main-runs runtime_var_editor program rest w = rw (two_args (length rest), uefi_main) refl
  uefi_main-runs reboot_test program rest w = rw (two_args (length rest), uefi_main) refl
  uefi_main-runs fill_nv_vars program rest w = rw (two_args (length rest), uefi_main) refl
  uefi_main-runs null_address_probe program rest w = rw (two_args (length rest), uefi_main) refl
  uefi_main-runs nic_dma_scan program rest w = rw (two_args (length rest), uefi_main) refl

  search-unknown :
      (name : Text) (table : List Command) (shell : Shell W)
      → ((c : Command) → equal name (command_name c) ≡ false)
      → search tools name table shell
        ≡ (error invalid_parameter, shell, unknown_command name ∷ usage ∷ [])
  unfolding search
  search-unknown name [] shell other = refl
  search-unknown name (c ∷ rest) shell other =
      rw (other c, search) (search-unknown name rest shell other)

  -- A name that is no command and does not ask for help runs nothing: the machine and the arguments
  -- stay as they are, the usage is shown, and the status is INVALID_PARAMETER.
  pub uefi_main-unknown :
      (program name : Text) (rest : List Text) (w : W)
      → ((c : Command) → equal name (command_name c) ≡ false)
      → (equal name (codes "help") || equal name (codes "--help")) ≡ false
      → uefi_main tools success (record { argv = program ∷ name ∷ rest; world = w }) ≡ (
        error invalid_parameter,
        record { argv = program ∷ name ∷ rest; world = w },
        unknown_command name ∷ usage ∷ [],
      )
  unfolding uefi_main
  uefi_main-unknown program name rest w other no_help =
      rw (no_help, two_args (length rest), uefi_main)
        (search-unknown name commands (record { argv = program ∷ name ∷ rest; world = w }) other)
