-- ===== src/Examples.antt =====
-- The theorems at concrete sessions, waits, breakpoints and panes.
pub mod Sessions
pub mod Waits
pub mod Frames
pub mod Breakpoints
pub mod Requests
pub mod Terminal
pub mod Launching
pub mod Editing
pub mod Watching
pub mod Window
