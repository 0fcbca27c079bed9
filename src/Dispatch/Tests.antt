-- ===== src/Dispatch/Tests.antt =====
-- Runs of Applications/UefiTools/UefiTools.c, and each theorem at a concrete input.
use uefi_tools_pkg.Base.{◌≡◌, refl, false, List, [], ◌∷◌, Text, codes, equal}
use uefi_tools_pkg.Efi.{Status, success, error, invalid_parameter, device_error}
use uefi_tools_pkg.Dispatch.Table.{
  Command, pci_topology, pci_option_rom_info, loong_arch_mapping, runtime_var_editor, reboot_test,
  fill_nv_vars, null_address_probe, nic_dma_scan, command_name, Message, usage, unknown_command,
  Tools, Shell, call_main, run, search, uefi_main,
}
use uefi_tools_pkg.Dispatch.Runs.{own_arguments, outcome, uefi_main-runs, uefi_main-unknown}

-- tools that note the arguments they see
abbrev noting : Tools (List (List Text))
noting = record {
  main = λ c arguments seen. (success, arguments ∷ seen);
  reboot_main = λ arguments seen. (success, arguments ∷ seen);
  nic_dma_main = λ arguments seen. (1, arguments ∷ seen);
}

abbrev shell_with : List Text → Shell (List (List Text))
shell_with arguments = record { argv = codes "UefiTools.efi" ∷ arguments; world = [] }

dispatch : List Text → Status × Shell (List (List Text)) × List Message
unfolding uefi_main search run call_main
dispatch arguments = uefi_main noting success (shell_with arguments)

dispatch-nicdma : dispatch (codes "nicdma" ∷ []) ≡ (
  error device_error,
  record { argv = codes "UefiTools.efi" ∷ codes "nicdma" ∷ []; world = (codes "nicdma" ∷ []) ∷ [] },
  [],
)
unfolding dispatch
dispatch-nicdma = refl

dispatch-map : dispatch (codes "map" ∷ codes "0x9000" ∷ []) ≡ (
  success,
  record {
    argv = codes "UefiTools.efi" ∷ codes "map" ∷ codes "0x9000" ∷ [];
    world = (codes "map" ∷ codes "0x9000" ∷ []) ∷ [];
  },
  [],
)
unfolding dispatch
dispatch-map = refl

dispatch-help :
    dispatch (codes "--help" ∷ []) ≡ (success, shell_with (codes "--help" ∷ []), usage ∷ [])
unfolding dispatch
dispatch-help = refl

abbrev map_arguments : List Text
map_arguments =
    own_arguments loong_arch_mapping (codes "UefiTools.efi")
      (command_name loong_arch_mapping ∷ codes "0x9000" ∷ [])

uefi_main-runs_example :
    uefi_main noting success (shell_with (codes "map" ∷ codes "0x9000" ∷ [])) ≡ (
      (outcome noting loong_arch_mapping map_arguments []).0,
      record {
        argv = codes "UefiTools.efi" ∷ codes "map" ∷ codes "0x9000" ∷ [];
        world = (outcome noting loong_arch_mapping map_arguments []).1;
      },
      [],
    )
uefi_main-runs_example =
    uefi_main-runs noting loong_arch_mapping (codes "UefiTools.efi") (codes "0x9000" ∷ []) []

is_no_command : (c : Command) → equal (codes "mop") (command_name c) ≡ false
is_no_command pci_topology = refl
is_no_command pci_option_rom_info = refl
is_no_command loong_arch_mapping = refl
is_no_command runtime_var_editor = refl
is_no_command reboot_test = refl
is_no_command fill_nv_vars = refl
is_no_command null_address_probe = refl
is_no_command nic_dma_scan = refl

uefi_main-unknown_example : uefi_main noting success (shell_with (codes "mop" ∷ [])) ≡ (
  error invalid_parameter,
  shell_with (codes "mop" ∷ []),
  unknown_command (codes "mop") ∷ usage ∷ [],
)
uefi_main-unknown_example =
    uefi_main-unknown noting (codes "UefiTools.efi") (codes "mop") [] [] is_no_command refl
