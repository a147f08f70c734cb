-- ===== src/Core.antt =====
-- The types that the daemon and its clients share: crates/core/src and the event and answer types
-- of crates/protocol/src/types.rs.
pub mod Session
pub mod Breakpoint
pub mod Watch
pub mod Selector
pub mod Inspect
pub mod Reason
pub mod Event
pub mod Text
pub mod Request
pub mod Launch
