-- ===== src/Rows.antt =====
-- crates/nix-build-forest/src/sort.rs: the rows that a display of the forest shows.
pub mod Display
pub mod Project
pub mod Visited
pub mod Complete
pub mod Closed
pub mod Shown
pub mod Accounted
mod Tests
