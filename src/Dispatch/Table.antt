-- ===== src/Dispatch/Table.antt =====
-- Applications/UefiTools/UefiTools.c: `mCommands` and `UefiMain`. The tools are parameters. One with the entry
-- point of an UEFI application sees the arguments that the Shell parameters protocol has at the time
-- of the call, and RebootTest and NicDmaScan are passed theirs; none of them writes to the protocol.
use uefi_tools_pkg.Base.{
  ℕ, ◌||◌, not, List, [], ◌∷◌, ltb, ◌==◌, if◌then◌else◌, length, get_or, drop, Text, codes, equal,
}
use uefi_tools_pkg.Efi.{Status, success, error, invalid_parameter, device_error, efi_error}

-- TOOL_COMMAND_INDEX
pub data Command : Type 0 where
  pci_topology pci_option_rom_info loong_arch_mapping runtime_var_editor : Command
  reboot_test fill_nv_vars null_address_probe nic_dma_scan : Command

abbrev pub command_name : Command → Text
command_name pci_topology = codes "topo"
command_name pci_option_rom_info = codes "rom"
command_name loong_arch_mapping = codes "map"
command_name runtime_var_editor = codes "vars"
command_name reboot_test = codes "reboot"
command_name fill_nv_vars = codes "fillnv"
command_name null_address_probe = codes "null"
command_name nic_dma_scan = codes "nicdma"

abbrev pub commands : List Command
commands =
    pci_topology ∷ pci_option_rom_info ∷ loong_arch_mapping ∷ runtime_var_editor ∷ reboot_test
    ∷ fill_nv_vars ∷ null_address_probe ∷ nic_dma_scan ∷ []

pub data Message : Type 0 where
  requires_parameters : Status → Message
  usage : Message
  unknown_command : Text → Message

-- `main c` for the tools of the table; the INTN of RebootTest is a status already.
pub record Tools (W : Type 0) : Type 0 where
  pub main : Command → List Text → W → Status × W
  pub reboot_main : List Text → W → Status × W
  pub nic_dma_main : List Text → W → ℕ × W

-- the machine, with `Argv` of the Shell parameters protocol
pub record Shell (W : Type 0) : Type 0 where
  pub argv : List Text
  pub world : W

module _ {W : Type 0} (tools : Tools W) where
  abbrev pub nic_dma_status : ℕ → Status
  nic_dma_status result =
      if result == 0
      then success
      else if result == 2
      then error invalid_parameter
      else error device_error

  -- the call of a tool that reads the protocol
  unfoldable pub call_main : Command → Shell W → Status × Shell W
  call_main c shell =
      let (status, world) = tools.main c shell.argv shell.world in
      (status, record shell { world = world })

  -- the body of the loop, on the command that was found
  unfoldable pub run : Command → Shell W → Status × Shell W
  run reboot_test shell =
      let (status, world) = tools.reboot_main (drop 1 shell.argv) shell.world in
      (status, record shell { world = world })
  run nic_dma_scan shell =
      let (result, world) = tools.nic_dma_main (drop 1 shell.argv) shell.world in
      (nic_dma_status result, record shell { world = world })
  run loong_arch_mapping shell =
      let saved = shell.argv in
      let (status, shell') = call_main loong_arch_mapping (record shell { argv = drop 1 saved }) in
      (status, record shell' { argv = saved })
  run pci_topology shell = call_main pci_topology shell
  run pci_option_rom_info shell = call_main pci_option_rom_info shell
  run runtime_var_editor shell = call_main runtime_var_editor shell
  run fill_nv_vars shell = call_main fill_nv_vars shell
  run null_address_probe shell = call_main null_address_probe shell

  -- the loop over the table, and what follows it
  unfoldable pub search : Text → List Command → Shell W → Status × Shell W × List Message
  search name [] shell = (error invalid_parameter, shell, unknown_command name ∷ usage ∷ [])
  search name (c ∷ rest) shell =
      if not (equal name (command_name c))
      then search name rest shell
      else let (status, shell') = run c shell in (status, shell', [])

  -- `located` is what `HandleProtocol` returns for the Shell parameters protocol.
  unfoldable pub uefi_main : Status → Shell W → Status × Shell W × List Message
  uefi_main located shell =
      let name = get_or shell.argv 1 [] in
      if efi_error located
      then (located, shell, requires_parameters located ∷ [])
      else if ltb (length shell.argv) 2
          || (equal name (codes "help") || equal name (codes "--help"))
      then (success, shell, usage ∷ [])
      else search name commands shell
