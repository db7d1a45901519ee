-- ===== src/Forest.antt =====
-- crates/nix-build-forest: the state of one Nix build, folded from its internal-JSON log.
pub mod Message
pub mod Paths
pub mod State
pub mod Activity
pub mod Feed
pub mod Resolver
pub mod Snapshot
pub mod WellFormed
pub mod Preserved
pub mod Reachable
pub mod Sticky
pub mod Failed
pub mod Counts
pub mod Capped
pub mod Pending
pub mod Duration
pub mod Averages
mod Tests
