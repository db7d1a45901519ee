-- ===== src/Mcp/Dispatch.antt =====
-- crates/mandala-mcp/src/server.rs: the inventory that is served, and the way of a call to its tool.
use mandala.Base.{ℕ, Bool, true, not, Option, none, some, [], ◌∷◌, ◌++◌, if◌then◌else◌, length}
use mandala.Base.Result.{Result, ok, err}
use mandala.Base.Text.{Text, text}
use mandala.Base.Json.{Value, bool, number}
use mandala.Base.Json.Number.{pos_int}
use mandala.Inventory.Validate.{Inventory, InventoryError}
use mandala.Mcp.Tools.{
  Request, members_tool, resolve_tool, ping_tool, reload_tool, deploy_tool, restart_service_tool,
  reboot_tool, unknown_tool, bad_arguments, refused_by_inventory, reload_unavailable, no_such_tool,
  arguments_error, Effects, evaluated, Run,
}
use mandala.Mcp.Probe.{json, tool_members, tool_resolve, tool_ping}
use mandala.Mcp.Actions.{tool_deploy, tool_restart_service, tool_reboot}

pub record ServerState : Type 0 where
  pub flake : Text
  pub inventory : Option Inventory
  pub reloadable : Bool
  pub seq : ℕ

-- `inventory`, where the served one is missing: a fresh one is kept.
abbrev pub kept : ServerState → Result Inventory InventoryError → ServerState × Run Inventory
kept s (err e) = (s, (evaluated s.flake ∷ [], err (refused_by_inventory e)))
kept s (ok fresh) = (record s { inventory = some fresh }, (evaluated s.flake ∷ [], ok fresh))

abbrev pub served_from : Effects → ServerState → Option Inventory → ServerState × Run Inventory
served_from fx s none = kept s (fx.fresh_inventory s.flake)
served_from fx s (some inv) = (s, ([], ok inv))

abbrev pub served : Effects → ServerState → ServerState × Run Inventory
served fx s = served_from fx s s.inventory

abbrev pub on_inventory :
    ServerState × Run Inventory → (Inventory → Run Value) → ServerState × Run Value
on_inventory (s, (calls, err e)) tool = (s, (calls, err e))
on_inventory (s, (calls, ok inv)) tool = let run = tool inv in (s, (calls ++ run.0, run.1))

abbrev reload_counts : Inventory → Value
reload_counts fresh = json (
    (text "ok", bool true)
    ∷ (text "members", number (pos_int (length fresh.aggregate.members)))
    ∷ (text "groups", number (pos_int (length fresh.aggregate.groups)))
    ∷ [])

abbrev pub swapped : ServerState → Result Inventory InventoryError → ServerState × Run Value
swapped s (err e) = (s, (evaluated s.flake ∷ [], err (refused_by_inventory e)))
swapped s (ok fresh) =
    (record s { inventory = some fresh }, (evaluated s.flake ∷ [], ok (reload_counts fresh)))

unfoldable pub tool_reload : Effects → ServerState → ServerState × Run Value
tool_reload fx s =
    if not s.reloadable
    then (s, ([], err reload_unavailable))
    else swapped s (fx.fresh_inventory s.flake)

-- `dispatch`. `dir` is the directory of ansible.
unfoldable pub dispatch : Effects → (dir : Text) → Request → ServerState → ServerState × Run Value
unfolding tool_reload
dispatch fx dir (members_tool full) s = on_inventory (served fx s) (tool_members full)
dispatch fx dir (resolve_tool selector) s = on_inventory (served fx s) (tool_resolve selector)
dispatch fx dir (ping_tool t) s = on_inventory (served fx s) (tool_ping fx t)
dispatch fx dir reload_tool s = tool_reload fx s
dispatch fx dir (deploy_tool t) s = on_inventory (served fx s) (tool_deploy fx s.flake t)
dispatch fx dir (restart_service_tool t) s = on_inventory (served fx s) (tool_restart_service fx t)
dispatch fx dir (reboot_tool t) s = on_inventory (served fx s) (tool_reboot fx dir t)
dispatch fx dir (unknown_tool name) s = (s, ([], err (no_such_tool name)))
dispatch fx dir (bad_arguments name error) s = (s, ([], err (arguments_error error)))
