-- ===== src/Lib.antt =====
-- Verification of UefiToolsPkg, a package of UEFI Shell tools.
--
-- The tools are separate programs; UefiTools.efi dispatches to them by the name of a command. Each is
-- modelled in the modules below one file:
--
--   RebootTest    Applications/RebootTest/RebootTest.c, with Scripts/RebootTest/startup.nsh, which
--                 runs `continue` at each boot. State is the record REBOOT_TEST_STATE and its bytes in the
--                 file; Text holds StrEqualsIgnoreCase and ParseUint32; Firmware is the interface to
--                 files, console, timer, keyboard, CRC and reset; Store holds OpenStateRoot, LoadState,
--                 SaveState and DeleteState; Commands holds StartTest, ContinueTest, ShowStatus,
--                 StopTest, ResetSystemForTest and ShellAppMain.
--   OptionRom     Applications/PciOptionRomInfo/PciOptionRomInfo.c. Format has the packed headers, Walk
--                 PrintOptionRomImages, PrintEfiRomHeader and RangeInBuffer, and Devices
--                 PrintDeviceRomInfo and UefiMain.
--   Topology      Applications/PciTopology/PciTopology.c. Device has the record and CompareDevice,
--                 Sort SortDevices, Parents AssignParents and the searches, Print PrintTopology and
--                 PrintSubtree, and Collect CollectDevices and UefiMain.
--   NicDma        Applications/NicDmaScan/Decode.c in Decode; NicDmaScan.c in Ram (ReadableRam), Map
--                 (GetMap), Device (PowerD0, FindMmio), Snapshot (ReadBase, Snapshot) and Scan (Realtek,
--                 ShellAppMain).
--   Dispatch      Applications/UefiTools/UefiTools.c: mCommands and UefiMain in Table.
--   FillNv        Applications/FillNvVars/FillNvVars.c: UefiMain in Fill.
--   Mapping       Applications/LoongArchMappingDump/LoongArchMappingDump.c: DumpPageWalk in Walk,
--                 DumpTlbEntry in Tlb, ParseHexAddress in Address, and GetRequestedAddress and UefiMain in
--                 Program.
--   VarEditor     Applications/RuntimeVarEditor/RuntimeVarEditor.c. Variable has RVE_VARIABLE and
--                 RveSortVariables, Services what is called of the firmware, Load RveLoadVariables and
--                 RveLoadVariableData, Parse RveParseHexUintn, Input RveReadLine and RveConfirm, Edit
--                 RveEditByte, RveEditAttributes and RveDeleteVariable, Run RveRun, whose keys are in
--                 Run.Rounds, Screen RveFillRect, RveDrawText and the functions that draw the
--                 list, Screen.Hex RveDrawDetails, Texts RveAttrsToString, and Program UefiMain.
--
-- Base has what they share: lists measured in native numbers, Boolean tests, strings,
-- hexadecimal numbers, the insertion sort in place that two tools have, and properties of all elements.
-- Efi has EFI_STATUS. Action is a program over the firmware: a function of the machine that ends in a
-- result or in a restart of the machine, and Action.Ends is what holds at either end. Only RebootTest
-- needs it, which is restarted again and again; FillNv ends in a reset and has a result for it.
--
-- Numbers. UINTN, UINT32 and UINT64 are natural numbers; where a sum or a product can leave the type, the
-- remainder is written out. The size of UINTN is a parameter of the tools that depend on it, but for
-- PciTopology, whose mark for a device without a parent, MAX_UINTN, is that of 64 bits.
--
-- Loops. The walk over an Option ROM runs on fuel, one more than the bytes of the ROM: each round but the
-- last moves the offset. PrintSubtree is recursive on 31 less the depth, as the source stops at depth 32.
-- The snapshot and the capability walk are recursive on the rounds that their limits, 256 and 48, leave.
-- The loop of FillNv is recursive on the 4096 rounds of a size. In VarEditor the keys to come are a list.
-- The loop of RveRun and that of the attribute editor have as fuel the number of those keys and one more,
-- since each round but the last takes a key; RveLoadVariables has its fuel as a parameter, one more than
-- the variables of the store being enough. Every other loop is structural.
--
-- Parameters. The firmware is not part of the repository: file services, PCI I/O, the memory map, the
-- registers, memory and SetVariable are arguments. FillNv.Full.StoreLaws states how a variable store
-- gives out its space to new variables, and what OUT_OF_RESOURCES means. RebootTest.Firmware.Laws states what the UEFI specification promises of files
-- (a write that succeeds holds, other calls leave the file alone); RebootTest.Sample is a machine that
-- has these laws. The layouts of the PCI expansion ROM headers and the ACPI constants are those of
-- MdePkg, and arguments too.
--
-- Not modelled: the texts of the prints (each print is a constructor with its values), but for that of
-- RveAttrsToString, the tables that name classes and machine types, and the single instructions that
-- read the control registers of a LoongArch processor and search its TLB. RuntimeVarEditor draws rectangles and texts; what glyphs look
-- like is the firmware's. NullAddressProbe has no model here, since its one read at address zero is the
-- hardware's to answer; the Shell scripts are in a language of their own. The dispatcher takes the entry
-- points of the tools as parameters, since they are linked under other names and each has its own view
-- of the firmware.
pub mod Base
pub mod Efi
pub mod Action
pub mod RebootTest
pub mod OptionRom
pub mod Topology
pub mod NicDma
pub mod Dispatch
pub mod FillNv
pub mod Mapping
pub mod VarEditor
