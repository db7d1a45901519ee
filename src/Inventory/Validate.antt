-- ===== src/Inventory/Validate.antt =====
-- `Inventory::from_value_for_controller`: the gates that an aggregate passes before it is served.
-- The derived deserializer and the printer of JSON are serde's, and are parameters.
use mandala.Base.{
  ℕ, Bool, true, false, not, ◌&&◌, ◌||◌, Option, none, some, List, [], ◌∷◌, if◌then◌else◌, ◌==◌,
  bind, is_some, map_or,
}
use mandala.Base.Order.{list_ord, beq}
use mandala.Base.Map.{Map, get, contains_key}
use mandala.Base.Text.{Text, text}
use mandala.Base.Json.{Value, null, string, as_object, as_str, as_u64, field_of}
use mandala.Base.Result.{Result, ok, err, ◌>>=◌, ◌>>◌}
use mandala.Inventory.Name.{is_valid_member_name, eq_ignore_ascii_case}
use mandala.Inventory.Member.{Member}

abbrev pub supported_schema_version : ℕ
supported_schema_version = 1

-- What the text of a `Malformed` error says, with the values that it quotes.
pub data Malformation : Type 0 where
  serde : Text → Malformation
  bad_member_key : Text → Malformation
  name_mismatch : (key name : Text) → Malformation
  no_host_name : Text → Malformation
  reserved_group : Text → Malformation
  unknown_group_member : (group member : Text) → Malformation
  unsupported_controller : Text → Malformation
  platforms_not_object : Malformation
  no_platform : Text → Malformation
  no_deploy_settings : Text → Malformation
  no_ansible_inventory : Text → Malformation

pub data InventoryError : Type 0 where
  unsupported_schema : (found : Text) (supported : ℕ) → InventoryError
  malformed : Malformation → InventoryError
  eval : Text → InventoryError
  empty_selector : InventoryError
  resolves_to_nothing : Text → InventoryError
  no_such_group : (group : Text) (available : List Text) → InventoryError
  no_such_member : Text → InventoryError

pub record Aggregate : Type 0 where
  pub schema_version : Value
  pub members : Map Text Member
  pub groups : Map Text (List Text)
  pub extra : Map Text Value

pub record Inventory : Type 0 where
  pub aggregate : Aggregate
  pub controller_platform : Option Text

abbrev pub Check : Type 0
Check = Result (Unit {0}) InventoryError

abbrev pub refuse_if : Bool → Malformation → Check
refuse_if true m = err (malformed m)
refuse_if false m = ok tt

abbrev pub check_name : Text → Option Text → Check
check_name key none = err (malformed (no_host_name key))
check_name key (some name) = refuse_if (not (beq name key)) (name_mismatch key name)

unfoldable pub check_member : Text → Member → Check
check_member key member = do
  refuse_if (not (is_valid_member_name key)) (bad_member_key key)
  check_name key (bind (get member (text "name")) as_str)

unfoldable pub check_members : Map Text Member → Check
check_members [] = ok tt
check_members ((key, member) ∷ ms) = check_member key member >> check_members ms

unfoldable pub check_group_members : Map Text Member → Text → List Text → Check
check_group_members members group [] = ok tt
check_group_members members group (m ∷ ms) =
    refuse_if (not (contains_key members m)) (unknown_group_member group m)
    >> check_group_members members group ms

unfoldable pub check_groups : Map Text Member → Map Text (List Text) → Check
unfolding check_group_members
check_groups members [] = ok tt
check_groups members ((group, ms) ∷ gs) =
    (refuse_if (eq_ignore_ascii_case group (text "all")) (reserved_group group)
      >> check_group_members members group ms)
    >> check_groups members gs

-- `match os { … }`.
unfoldable pub platform_of : Text → Result Text InventoryError
platform_of os =
    if beq os (text "macos") || beq os (text "darwin")
    then ok (text "darwin")
    else if beq os (text "linux")
    then ok (text "linux")
    else err (malformed (unsupported_controller os))

unfoldable pub select_platform : Text → Value → Result Value InventoryError
select_platform platform platforms = elim (field_of platform platforms) [
  | none ↦ err (malformed (no_platform platform))
  | some selected ↦ ok selected
]

abbrev pub projections_of : Aggregate → Option Value
projections_of aggregate = get aggregate.extra (text "projections")

unfoldable pub check_map : Value → Check
check_map platforms = refuse_if (not (is_some (as_object platforms))) platforms_not_object

-- `pointer("/deploy/settings")` is two field lookups.
abbrev pub settings_of : Value → Option (Map Text Value)
settings_of selected =
    bind (bind (field_of (text "deploy") selected) (field_of (text "settings"))) as_object

unfoldable pub check_settings : Text → Value → Check
check_settings platform selected =
    refuse_if (not (is_some (settings_of selected))) (no_deploy_settings platform)

unfoldable pub check_ansible : Text → Aggregate → Value → Check
check_ansible platform aggregate selected =
    refuse_if
      (is_some (bind (projections_of aggregate) (field_of (text "ansibleInventory")))
        && not (is_some (bind (field_of (text "ansibleInventory") selected) as_object)))
      (no_ansible_inventory platform)

-- The closure over `byControllerPlatform`.
unfoldable pub check_platform : Text → Aggregate → Value → Result Text InventoryError
check_platform os aggregate platforms = do
  platform ← platform_of os
  check_map platforms
  selected ← select_platform platform platforms
  check_settings platform selected
  check_ansible platform aggregate selected
  ok platform

unfoldable pub check_controller : Text → Aggregate → Result (Option Text) InventoryError
check_controller os aggregate =
    elim (bind (projections_of aggregate) (field_of (text "byControllerPlatform"))) [
      | none ↦ ok none
      | some platforms ↦ check_platform os aggregate platforms >>= λ p. ok (some p)
    ]

module _ (deserialize : Value → Result Aggregate Text) (to_string : Value → Text) where
  abbrev pub schema_display : Option Value → Text
  schema_display none = text "None"
  schema_display (some null) = text "None"
  schema_display (some (string s)) = s
  schema_display (some v) = to_string v

  abbrev pub parse_aggregate : Value → Result Aggregate InventoryError
  parse_aggregate value = elim (deserialize value) [
    | ok a ↦ ok a
    | err e ↦ err (malformed (serde e))
  ]

  abbrev pub supports : Option Value → Bool
  supports found = map_or (bind found as_u64) false (λ n. n == supported_schema_version)

  unfoldable pub from_value_for_controller : Value → Text → Result Inventory InventoryError
  from_value_for_controller value os =
      let found = field_of (text "schemaVersion") value in
      if supports found
      then (do
        aggregate ← parse_aggregate value
        check_members aggregate.members
        check_groups aggregate.members aggregate.groups
        platform ← check_controller os aggregate
        ok (record { aggregate = aggregate; controller_platform = platform }))
      else err (unsupported_schema (schema_display found) supported_schema_version)
