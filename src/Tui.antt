-- ===== src/Tui.antt =====
-- crates/mandala-tui: the pure state of the terminal interface.
pub mod Select
pub mod Selected
pub mod Scroll
pub mod Scrolled
pub mod State
pub mod Load
pub mod Activity
pub mod Logged
pub mod Session
pub mod Consistent
pub mod Requested
pub mod Owed
pub mod Stale
pub mod Keys
pub mod Keymap
pub mod Unshadowed
mod Tests
mod EventTests
