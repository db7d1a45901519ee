-- ===== src/Host.antt =====
-- crates/mandala-context: the leader's side of a connection.
pub mod Conn
pub mod Served
pub mod Balance
pub mod Drained
mod Tests
