-- ===== src/Inventory/Accepted.antt =====
-- What `from_value_for_controller` promises of the inventories that it builds.
use mathlib.Core.Path.{subst}
use mandala.Base.{◌≡◌, Bool, true, some, arith, bind, is_some, if◌then◌else◌}
use mandala.Base.Order.{list_ord}
use mandala.Base.Text.{Text, text}
use mandala.Base.Json.{Value, field_of}
use mandala.Base.Result.{Result, ok, err, >>=-eq-ok, ok-injective}
use mandala.Inventory.Validate.{
  Aggregate, Inventory, InventoryError, check_members, check_groups, check_controller, supports,
  parse_aggregate, from_value_for_controller, projections_of,
}
use mandala.Inventory.Projection.{deploy_settings, ansible_inventory}
use mandala.Inventory.Valid.{IsValid, accepted_aggregate}
use mandala.Inventory.Controller.{
  check_platform-IsReady, check_controller_ready, connection_ready, settings_ready,
}

if_ok :
    {A : Type 0} (b : Bool) (m : Result A InventoryError) (e : InventoryError) {a : A}
    → (if b then m else err e) ≡ ok a
    → m ≡ ok a
if_ok b m e h = ground arith

module _ (deserialize : Value → Result Aggregate Text) (to_string : Value → Text) where
  accepted :
      (value : Value) (os : Text) (inv : Inventory)
      → from_value_for_controller deserialize to_string value os ≡ ok inv
      → IsValid inv.aggregate × (check_controller os inv.aggregate ≡ ok inv.controller_platform)
  unfolding from_value_for_controller
  accepted value os inv h =
      let run =
        if_ok (supports deserialize to_string (field_of (text "schemaVersion") value)) _ _ h in
      let (a, _, h1) = >>=-eq-ok (parse_aggregate deserialize to_string value) _ run in
      let (_, members, h2) = >>=-eq-ok (check_members a.members) _ h1 in
      let (_, groups, h3) = >>=-eq-ok (check_groups a.members a.groups) _ h2 in
      let (_, chosen, h4) = >>=-eq-ok (check_controller os a) _ h3 in
      subst
        (λ i. IsValid i.aggregate × (check_controller os i.aggregate ≡ ok i.controller_platform))
        (ok-injective h4) (accepted_aggregate a members groups, chosen)

  -- An aggregate that the gates accept is valid: each member's key is a bare host label and the
  -- member's own name, each group names members only, and no group is called `all`.
  pub from_value-IsValid :
      (value : Value) (os : Text) (inv : Inventory)
      → from_value_for_controller deserialize to_string value os ≡ ok inv
      → IsValid inv.aggregate
  from_value-IsValid value os inv h = (accepted value os inv h).0

  -- Where a controller map is configured, an accepted inventory has deploy settings for the
  -- controller, and has an ansible inventory for it whenever the fleet has one.
  pub from_value_fails_closed :
      (value : Value) (os : Text) (inv : Inventory) (platforms : Value)
      → from_value_for_controller deserialize to_string value os ≡ ok inv
      → bind (projections_of inv.aggregate) (field_of (text "byControllerPlatform"))
        ≡ some platforms
      → (is_some (deploy_settings inv) ≡ true)
        × (is_some (bind (projections_of inv.aggregate) (field_of (text "ansibleInventory"))) ≡ true
            → is_some (ansible_inventory inv) ≡ true)
  unfolding deploy_settings ansible_inventory
  from_value_fails_closed value os inv platforms h e =
      let (platform, c, run) =
        check_controller_ready os inv.aggregate inv.controller_platform platforms
          (accepted value os inv h).1 e in
      let same = connection_ready inv platforms platform c e in
      let ready = check_platform-IsReady os inv.aggregate platforms platform run in
      rw same (settings_ready (field_of platform platforms) ready.0, ready.1)
