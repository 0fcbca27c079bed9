-- ===== src/Mapping.antt =====
-- Applications/LoongArchMappingDump/LoongArchMappingDump.c, in the build for LOONGARCH64.
pub mod Walk
pub mod Address
pub mod Tlb
pub mod Program
mod Tests
