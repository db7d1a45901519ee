-- ===== src/Mcp/Gated.antt =====
-- crates/mandala-mcp/src/server.rs: what a call may do to the fleet.
use mandala.Base.Order.{list_ord}
use mandala.Base.Result.{Result}
use mandala.Base.Text.{Text}
use mandala.Inventory.Validate.{Inventory}
