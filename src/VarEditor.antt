-- ===== src/VarEditor.antt =====
-- Applications/RuntimeVarEditor/RuntimeVarEditor.c: the browser and editor of runtime variables.
pub mod Variable
pub mod Parse
pub mod Services
pub mod Load
pub mod Input
pub mod Edit
pub mod Run
mod Tests
pub mod Screen
pub mod Program
pub mod Texts
