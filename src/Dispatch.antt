-- ===== src/Dispatch.antt =====
-- Applications/UefiTools/UefiTools.c: the dispatcher of the tools.
pub mod Table
pub mod Runs
mod Tests
