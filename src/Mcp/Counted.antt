-- ===== src/Mcp/Counted.antt =====
-- crates/mandala-mcp/src/server.rs and activity.rs: a tool leaves the number of the next call.
use mandala.Base.{◌≡◌, refl, Bool, true, false, not, Option, none, some, [], if◌then◌else◌}
use mandala.Base.Order.{list_ord}
use mandala.Base.Result.{Result, ok, err}
use mandala.Base.Text.{Text}
use mandala.Base.Json.{Value}
use mandala.Inventory.Validate.{Inventory, InventoryError}
use mandala.Mcp.Tools.{
  Request, members_tool, resolve_tool, ping_tool, reload_tool, deploy_tool, restart_service_tool,
  reboot_tool, unknown_tool, bad_arguments, Effects, Run, reload_unavailable,
}
use mandala.Mcp.Probe.{tool_members, tool_resolve, tool_ping}
use mandala.Mcp.Actions.{tool_deploy, tool_restart_service, tool_reboot}
use mandala.Mcp.Dispatch.{
  ServerState, served, served_from, kept, on_inventory, swapped, tool_reload, dispatch,
}

on_inventory-seq :
    (fx : Effects) (s : ServerState) (tool : Inventory → Run Value)
    → (on_inventory (served fx s) tool).0.seq ≡ s.seq
on_inventory-seq fx s tool = go s.inventory (fx.fresh_inventory s.flake)
  where
    missing :
        (fresh : Result Inventory InventoryError) → (on_inventory (kept s fresh) tool).0.seq ≡ s.seq
    missing (err e) = refl
    missing (ok inv) = refl

    go :
        (held : Option Inventory)
        → Result Inventory InventoryError
        → (on_inventory (served_from fx s held) tool).0.seq ≡ s.seq
    go none fresh = missing (fx.fresh_inventory s.flake)
    go (some inv) fresh = refl

reload-seq : (fx : Effects) (s : ServerState) → (tool_reload fx s).0.seq ≡ s.seq
unfolding tool_reload
reload-seq fx s = go s.reloadable
  where
    swaps : (fresh : Result Inventory InventoryError) → (swapped s fresh).0.seq ≡ s.seq
    swaps (err e) = refl
    swaps (ok fresh) = refl

    reloads : Bool → ServerState × Run Value
    reloads b =
        if not b then (s, ([], err reload_unavailable)) else swapped s (fx.fresh_inventory s.flake)

    go : (b : Bool) → (reloads b).0.seq ≡ s.seq
    go true = swaps (fx.fresh_inventory s.flake)
    go false = refl

pub dispatch-seq :
    (fx : Effects) (dir : Text) (request : Request) (s : ServerState)
    → (dispatch fx dir request s).0.seq ≡ s.seq
unfolding dispatch
dispatch-seq fx dir (members_tool full) s = on_inventory-seq fx s (tool_members full)
dispatch-seq fx dir (resolve_tool selector) s = on_inventory-seq fx s (tool_resolve selector)
dispatch-seq fx dir (ping_tool t) s = on_inventory-seq fx s (tool_ping fx t)
dispatch-seq fx dir reload_tool s = reload-seq fx s
dispatch-seq fx dir (deploy_tool t) s = on_inventory-seq fx s (tool_deploy fx s.flake t)
dispatch-seq fx dir (restart_service_tool t) s = on_inventory-seq fx s (tool_restart_service fx t)
dispatch-seq fx dir (reboot_tool t) s = on_inventory-seq fx s (tool_reboot fx dir t)
dispatch-seq fx dir (unknown_tool name) s = refl
dispatch-seq fx dir (bad_arguments name error) s = refl
