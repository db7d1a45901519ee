-- ===== src/Deploy/Tests.antt =====
-- Runs of the plan of a deploy, of its counters and of its outcome.
use mandala.Base.{◌≡◌, refl, Bool, true, false, Option, none, some, [], ◌∷◌, if◌then◌else◌, arith}
use mandala.Base.Order.{list_ord, beq}
use mandala.Base.Map.{get, insert}
use mandala.Base.Set
use mandala.Base.Set.{contains, IsSorted, extend}
use mandala.Base.Int.{pos}
use mandala.Base.Text.{Text, text, split, trim, join}
use mandala.Base.Json.{Value, number, string, bool, object, of_entries}
use mandala.Base.Json.Number.{pos_int}
use mandala.Base.Result.{ok}
use mandala.Inventory.Member.{Member}
use mandala.Inventory.Name.{is_valid_member_name}
use mandala.Inventory.Validate.{Aggregate, Inventory, check_members, check_groups, check_member}
use mandala.Inventory.Valid.{IsValid, accepted_aggregate}
use mandala.Inventory.Projection.{deploy_settings, connection_projections}
use mandala.Inventory.Select.{
  resolve, to_limit, select_loop, select_trimmed, select_part, resolve_part, settle,
}
use mandala.Deploy.Plan.{
  DeployPlan, plan_run_with_boot, plan_selected, projected_settings, collect_settings,
  member_settings, deploy_rs_enabled,
}
use mandala.Deploy.Planned.{Partitions, plan_run-Partitions}
use mandala.Deploy.Tracker.{new_tracker, feed_all}
use mandala.Deploy.Counted.{IsCounted, feed_all-IsCounted}

abbrev one_field : Text → Value → Value
one_field key v = object (of_entries ((key, v) ∷ []))

abbrev deployed_by : Bool → Text → Member
deployed_by enable name =
    (text "deployment", one_field (text "deployRs") (one_field (text "enable") (bool enable)))
    ∷ (text "name", string name)
    ∷ []

abbrev settings : Value
settings = one_field (text "sshUser") (string (text "root"))

abbrev fleet : Aggregate
fleet = record {
  schema_version = number (pos_int 1);
  members =
      (text "router", deployed_by false (text "router"))
      ∷ (text "web", deployed_by true (text "web"))
      ∷ [];
  groups = [];
  extra =
      (
        text "projections",
        one_field (text "deploy") (one_field (text "settings") (one_field (text "web") settings)),
      )
      ∷ [];
}

abbrev inventory : Inventory
inventory = record { aggregate = fleet; controller_platform = none }

abbrev validate : Value → Option Text
validate (object fs) = none
validate _ = some (text "not an object")

abbrev plan : DeployPlan
plan = record {
  limit = text "router,web";
  targets = text "web" ∷ [];
  skipped = text "router" ∷ [];
  settings = (text "web", settings) ∷ [];
  dry_activate = false;
  boot = false;
  halt_on_build_failure = false;
  throttle = pos 2;
}

planned : plan_run_with_boot validate inventory (text "all") (pos 2) false false ≡ ok plan
unfolding plan_run_with_boot to_limit resolve select_loop split select_trimmed trim select_part
    resolve_part get settle extend Set.insert contains join plan_selected deploy_rs_enabled
    projected_settings deploy_settings connection_projections collect_settings member_settings
    insert
planned = refl

fleet-IsValid : IsValid fleet
unfolding check_members check_member check_groups get is_valid_member_name
fleet-IsValid = accepted_aggregate fleet refl refl

plan_run-Partitions_example : Partitions inventory (text "all") plan
plan_run-Partitions_example =
    plan_run-Partitions validate inventory (text "all") (pos 2) false false plan fleet-IsValid
      (((refl, tt), (tt, tt))) planned

abbrev from_str : Text → Option Value
from_str payload = if beq payload (text "{}") then some (object (of_entries [])) else none

feed_all-IsCounted_example :
    IsCounted (feed_all from_str (text "@nix {}" ∷ text "warning" ∷ []) new_tracker)
feed_all-IsCounted_example =
    feed_all-IsCounted from_str (text "@nix {}" ∷ text "warning" ∷ []) new_tracker
      (record { builds = ground arith; fetches = ground arith; messages = refl })
