-- ===== src/RebootTest.antt =====
-- Applications/RebootTest/RebootTest.c: the reboot-cycle test.
pub mod State
pub mod Text
pub mod Firmware
pub mod Store
pub mod Commands
mod Sample
mod Tests
