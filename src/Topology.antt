-- ===== src/Topology.antt =====
-- Applications/PciTopology/PciTopology.c: the PCI topology tree.
pub mod Device
pub mod Sort
pub mod Parents
pub mod Print
pub mod Collect
mod Tests
