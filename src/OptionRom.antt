-- ===== src/OptionRom.antt =====
-- Applications/PciOptionRomInfo/PciOptionRomInfo.c: the walk over the images of an Option ROM.
pub mod Format
pub mod Walk
pub mod Step
pub mod Chain
pub mod Devices
pub mod Count
mod Tests
