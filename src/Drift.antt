-- ===== src/Drift.antt =====
-- crates/mandala-core/src/drift.rs: what a host reports against what its configuration evaluates to.
pub mod Compare
pub mod Judged
pub mod Listed
mod Tests
