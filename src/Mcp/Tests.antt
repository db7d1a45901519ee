-- ===== src/Mcp/Tests.antt =====
-- Runs of the tools on a fleet of two members.
use mandala.Base.{◌≡◌, refl, true, false, Option, none, some, List, [], ◌∷◌}
use mandala.Base.Order.{list_ord}
use mandala.Base.Map.{get, insert}
use mandala.Base.Set
use mandala.Base.Set.{contains}
use mandala.Base.Result.{ok, err}
use mandala.Base.Text.{Text, text, split, trim, join}
use mandala.Base.Json.{Value, number, string, field_of}
use mandala.Base.Json.Number.{pos_int}
use mandala.Inventory.Validate.{Inventory}
use mandala.Inventory.Select.{
  to_limit, resolve, select_loop, select_trimmed, select_part, resolve_part, settle,
}
use mandala.Mcp.Tools.{
  DeployTool, Request, deploy_tool, reboot_tool, reload_tool, ToolError, not_found, Effects,
  deployed,
}
use mandala.Mcp.Actions.{tool_deploy, refused_deploy}
use mandala.Mcp.Dispatch.{ServerState}
use mandala.Mcp.Refused.{deploy_refused-launches}
use mandala.Mcp.Audit.{ToolCall}

abbrev inventory : Inventory
inventory = record {
  aggregate = record {
    schema_version = number (pos_int 1);
    members = (text "cache", []) ∷ (text "web", []) ∷ [];
    groups = [];
    extra = [];
  };
  controller_platform = none;
}

abbrev effects : Effects
effects = record {
  fresh_inventory = λ flake. ok inventory;
  run_adhoc = λ argv. err not_found;
  launch_deploy = λ flake limit dry_activate boot throttle.
      ok (record { run_id = text "run-1"; events_dir = text "/runs/run-1" });
  launch_command = λ argv kind cwd extra.
      ok (record { run_id = text "run-2"; log = text "/runs/run-2/output.log"; launched = true });
  reboot_argv = λ target serial drain. some (text "ans-reboot" ∷ target ∷ []);
}

abbrev server : ServerState
server = record { flake = text "."; inventory = none; reloadable = true; seq = 1 }

abbrev activation : DeployTool
activation = record {
  selector = text "web";
  dry_activate = some false;
  boot = none;
  confirm = none;
}

abbrev reboot : Request
reboot =
    reboot_tool
      (record { selector = text "web"; serial = none; drain = none; confirm = some (text "web") })

abbrev reply : Value
reply = elim (refused_deploy activation (text "web")).1 [ ok v ↦ v | err e ↦ string [] ]

activation_refused : tool_deploy effects (text ".") activation inventory ≡ ([], ok reply)
unfolding tool_deploy to_limit resolve select_loop split select_trimmed trim select_part
    resolve_part get insert settle Set.extend Set.insert contains join
activation_refused = refl

deploy_refused-launches_example :
    (target : Text) × (field_of (text "required_confirm") reply ≡ some (string target))
    × ((tool_deploy effects (text ".") (record activation { confirm = some target }) inventory).0
        ≡ deployed (text ".") target false false 4 ∷ [])
deploy_refused-launches_example =
    deploy_refused-launches effects (text ".") activation inventory reply activation_refused

abbrev call_of : Option Text → Request → ToolCall
call_of origin request = record {
  origin = origin;
  request = request;
  args = [];
  elapsed = pos_int 2;
  ts = pos_int 1000;
}

abbrev calls : List ToolCall
calls =
    call_of none (deploy_tool activation)
    ∷ call_of (some (text "agent")) reboot
    ∷ call_of none reload_tool
    ∷ []

abbrev describe : ToolError → Text
describe e = text "error"
