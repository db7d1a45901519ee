-- ===== src/Runner.antt =====
-- crates/mandala-core/src/runner.rs and build_log.rs: the event streams of a run, their writer and
-- their reader.
pub mod Host
pub mod Build
pub mod Replay
pub mod BuildLog
pub mod Writer
pub mod Cap
pub mod Bounds
pub mod Reserve
pub mod Tail
pub mod Chunks
pub mod Polled
mod Tests
