-- ===== src/Inventory.antt =====
-- crates/mandala-core/src/inventory.rs: the validated view of a fleet and its selector algebra.
pub mod Name
pub mod Member
pub mod Validate
pub mod Projection
pub mod Select
pub mod Valid
mod Controller
pub mod Accepted
pub mod Meaning
pub mod Resolve
mod Plain
pub mod Canonical
mod Tests
