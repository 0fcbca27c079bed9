-- ===== src/Mapping/Program.antt =====
-- Applications/LoongArchMappingDump/LoongArchMappingDump.c: `GetRequestedAddress` and `UefiMain`.
use uefi_tools_pkg.Base.{ℕ, Bool, Option, none, some, List, [], ◌∷◌, ◌++◌, map, Text, if◌then◌else◌}
use uefi_tools_pkg.Efi.{Status, success, error, unsupported}
use uefi_tools_pkg.Mapping.Walk.{Line, Registers, dump_page_walk}
use uefi_tools_pkg.Mapping.Tlb.{TlbRegisters, TlbLine, dump_tlb_entry}
use uefi_tools_pkg.Mapping.Address.{parse_hex_address}

pub data Output : Type 0 where
  invalid_address : Text → Output
  only_loongarch : Output
  dumped_address : ℕ → Output
  of_walk : Line → Output
  of_tlb : TlbLine → Output

-- the address of an argument, zero where it is none
abbrev pub address_of : Text → Option ℕ → List Output × ℕ
address_of argument none = (invalid_address argument ∷ [], 0)
address_of argument (some address) = ([], address)

-- `none` is an image without the parameters of the Shell; the first argument is the name of the tool
unfoldable pub get_requested_address : Option (List Text) → List Output × ℕ
get_requested_address (some (tool ∷ argument ∷ rest)) =
    address_of argument (parse_hex_address argument)
get_requested_address _ = ([], 0)

-- The first argument says whether the tool was built for LOONGARCH64.
unfoldable pub uefi_main :
    Bool → Registers → (ℕ → ℕ) → (ℕ → TlbRegisters) → Option (List Text) → List Output × Status
uefi_main loongarch csr memory search arguments =
    let requested = get_requested_address arguments in
    let address = requested.1 in
    if loongarch
    then (
      requested.0
          ++ (dumped_address address
              ∷ (map of_walk (dump_page_walk csr memory address)
                  ++ map of_tlb (dump_tlb_entry search address))),
      success,
    )
    else (only_loongarch ∷ [], error unsupported)
