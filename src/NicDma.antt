-- ===== src/NicDma.antt =====
-- Applications/NicDmaScan: the read-only observer of NIC descriptor rings.
pub mod Decode
pub mod Bounds
pub mod Ram
pub mod Map
pub mod Snapshot
pub mod Device
pub mod Scan
mod Tests
