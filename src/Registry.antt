-- ===== src/Registry.antt =====
-- crates/mandala-core/src/registry.rs: which runs are kept, and what is said of a run.
pub mod Prune
pub mod Kept
pub mod Liveness
pub mod Verdict
mod Tests
