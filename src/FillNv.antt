-- ===== src/FillNv.antt =====
-- Applications/FillNvVars/FillNvVars.c: fills the variable store and resets the machine.
pub mod Fill
pub mod Full
mod Tests
