-- ===== src/Mcp.antt =====
-- crates/mandala-mcp: the tools that an agent may call.
pub mod Tools
pub mod Output
pub mod Probe
pub mod Actions
pub mod Dispatch
pub mod Allowed
pub mod Gated
pub mod Refused
pub mod Audit
pub mod Counted
pub mod Marked
pub mod Audited
mod Tests
