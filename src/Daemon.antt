-- ===== src/Daemon.antt =====
-- crates/daemon: the resident process that owns the debug sessions.
pub mod EventBuffer
pub mod Handles
pub mod Session
pub mod Wait
pub mod Pump
pub mod Slots
pub mod Execute
pub mod Editing
pub mod Watching
pub mod Window
