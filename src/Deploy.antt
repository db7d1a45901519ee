-- ===== src/Deploy.antt =====
-- crates/mandala-core/src/engines/deploy.rs: what a deploy acts on, and what it comes to.
pub mod Plan
pub mod Planned
pub mod Tracker
pub mod Counted
pub mod Settle
pub mod Settled
pub mod Stream
pub mod Pipeline
pub mod Observed
pub mod Triple
pub mod Agreed
pub mod Ending
pub mod Steps
pub mod Concluded
pub mod Activated
pub mod Deployed
pub mod HostTask
pub mod FanOut
pub mod Told
pub mod FannedOut
mod Tests
mod HostTests
