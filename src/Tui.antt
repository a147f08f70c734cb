-- ===== src/Tui.antt =====
-- crates/tui/src: the terminal interface. It is a state and one function that takes a message and
-- answers the next state and a command; the runtime reads keys, sockets and files and carries out
-- the commands.
pub mod Input
pub mod Viewport
pub mod Repl
pub mod Stack
pub mod Watches
pub mod Source
pub mod Scopes
pub mod State
pub mod Sending
pub mod Connection
pub mod Actions
pub mod Keys
pub mod Events
pub mod Answers
pub mod Update
pub mod Fresh
pub mod WatchList
pub mod Toggling
pub mod Ended
