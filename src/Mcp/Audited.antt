-- ===== src/Mcp/Audited.antt =====
-- crates/mandala-mcp/src/server.rs and activity.rs: the events and the trail of a run of calls.
use mandala.Base.Order.{list_ord}
use mandala.Base.Result.{Result}
use mandala.Base.Text.{Text}
