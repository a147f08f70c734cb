-- ===== src/Config.antt =====
-- crates/config/src/launch_json.rs: the launch configurations that a project keeps for its editor.
-- A text is the list of its characters.
pub mod Text
pub mod Import
pub mod Jsonc
pub mod Arguments
pub mod Variables
