-- ===== src/Inventory/Tests.antt =====
-- Runs of the inventory on a fleet of three members.
use mandala.Base.{◌≡◌, refl, true, false, some, List, [], ◌∷◌, bind, is_some, ◌==◌}
use mandala.Base.Order.{list_ord}
use mandala.Base.Map.{get, keys}
use mandala.Base.Set.{IsSorted, contains, extend, insert}
use mandala.Base.Text.{Text, text, is_empty, split, join, trim}
use mandala.Base.Json.{Value, number, string, object, of_entries, field_of}
use mandala.Base.Json.Number.{pos_int}
use mandala.Base.Result.{Result, ok, err}
use mandala.Inventory.Name.{is_valid_member_name}
use mandala.Inventory.Member.{Member}
use mandala.Inventory.Validate.{
  Aggregate, Inventory, from_value_for_controller, check_member, check_members, check_groups,
  check_controller, check_platform, platform_of, check_map, select_platform, check_settings,
  check_ansible, projections_of, no_such_member, resolves_to_nothing,
}
use mandala.Inventory.Projection.{deploy_settings, ansible_inventory}
use mandala.Inventory.Valid.{IsValid}
use mandala.Inventory.Accepted.{from_value-IsValid, from_value_fails_closed}
use mandala.Inventory.Meaning.{selects}
use mandala.Inventory.Select.{
  resolve, to_limit, is_separator, select_loop, select_trimmed, select_part, resolve_part, settle,
}
use mandala.Inventory.Resolve.{resolve-selects}
use mandala.Inventory.Canonical.{resolve_canonical}

abbrev member : Text → Member
member name = (text "name", string name) ∷ []

abbrev settings : Value
settings = object (of_entries ((text "user", string (text "root")) ∷ []))

abbrev one_field : Text → Value → Value
one_field key v = object (of_entries ((key, v) ∷ []))

abbrev connection : Value
connection = object (
    of_entries (
      (text "ansibleInventory", one_field (text "all") settings)
      ∷ (text "deploy", one_field (text "settings") settings)
      ∷ []))

abbrev platforms : Value
platforms = one_field (text "linux") connection

abbrev fleet : Aggregate
fleet = record {
  schema_version = number (pos_int 1);
  members =
      (text "cache", member (text "cache"))
      ∷ (text "router", member (text "router"))
      ∷ (text "web", member (text "web"))
      ∷ [];
  groups = (text "gateway", text "router" ∷ []) ∷ (text "k3s", text "cache" ∷ text "web" ∷ []) ∷ [];
  extra =
      (
        text "projections",
        object (
            of_entries (
              (text "ansibleInventory", one_field (text "all") settings)
              ∷ (text "byControllerPlatform", platforms)
              ∷ [])),
      )
      ∷ [];
}

abbrev value : Value
value = one_field (text "schemaVersion") (number (pos_int 1))

abbrev deserialize : Value → Result Aggregate Text
deserialize _ = ok fleet

abbrev to_string : Value → Text
to_string _ = text "1"

abbrev inventory : Inventory
inventory = record { aggregate = fleet; controller_platform = some (text "linux") }

fleet_accepted : from_value_for_controller deserialize to_string value (text "linux") ≡ ok inventory
unfolding from_value_for_controller get check_members check_member is_valid_member_name check_groups
    check_controller check_platform platform_of check_map select_platform check_settings
    check_ansible
fleet_accepted = refl

from_value-IsValid_example : IsValid fleet
from_value-IsValid_example =
    from_value-IsValid deserialize to_string value (text "linux") inventory fleet_accepted

from_value_fails_closed_example :
    (is_some (deploy_settings inventory) ≡ true)
    × (is_some (bind (projections_of fleet) (field_of (text "ansibleInventory"))) ≡ true
        → is_some (ansible_inventory inventory) ≡ true)
unfolding get
from_value_fails_closed_example =
    from_value_fails_closed deserialize to_string value (text "linux") inventory platforms
      fleet_accepted refl

fleet-IsSorted : IsSorted (keys fleet.members)
fleet-IsSorted = ((refl, (refl, tt)), ((refl, tt), (tt, tt)))

abbrev cluster : List Text
cluster = text "cache" ∷ text "web" ∷ []

cluster_resolved : resolve inventory (text "all:!@gateway") ≡ ok cluster
unfolding resolve select_loop split select_trimmed trim select_part resolve_part get settle extend
    insert contains
cluster_resolved = refl

limit_joined : to_limit inventory (text "web, cache ,web") ≡ ok (text "cache,web")
unfolding to_limit resolve select_loop split select_trimmed trim select_part resolve_part get settle
    extend insert contains join
limit_joined = refl

bare_exclusion : resolve inventory (text "!router") ≡ ok cluster
unfolding resolve select_loop split select_trimmed trim select_part resolve_part get settle extend
    insert contains
bare_exclusion = refl

nothing_left : resolve inventory (text "web,!@all") ≡ err (resolves_to_nothing (text "web,!@all"))
unfolding resolve select_loop split select_trimmed trim select_part resolve_part get settle extend
    insert contains
nothing_left = refl

unknown_member : resolve inventory (text "web,nope") ≡ err (no_such_member (text "nope"))
unfolding resolve select_loop split select_trimmed trim select_part resolve_part get settle extend
    insert contains
unknown_member = refl

resolve-selects_example :
    IsSorted cluster
    × (is_empty cluster ≡ false)
    × ((m : Text)
        → contains cluster m ≡ selects inventory (split is_separator (text "all:!@gateway")) m)
resolve-selects_example =
    resolve-selects inventory (text "all:!@gateway") cluster fleet-IsSorted cluster_resolved

resolve_canonical_example :
    (split (λ c. c == b',') (join (b',' ∷ []) cluster) ≡ cluster)
    × (resolve inventory (join (b',' ∷ []) cluster) ≡ ok cluster)
resolve_canonical_example =
    resolve_canonical inventory (text "all:!@gateway") cluster from_value-IsValid_example
      fleet-IsSorted cluster_resolved
