-- ===== src/Deploy/Plan.antt =====
-- crates/mandala-core/src/engines/deploy.rs: the plan of a run. The typed reader of the settings
-- of a member is serde's, and is a parameter.
use mandala.Base.{
  Bool, false, not, Option, none, some, List, [], ◌∷◌, if◌then◌else◌, ◌==◌, keep, bind, unwrap_or,
}
use mandala.Base.Order.{list_ord}
use mandala.Base.Map.{Map, get, insert}
use mandala.Base.Int.{ℤ, is_pos}
use mandala.Base.Text.{Text, text, split}
use mandala.Base.Json.{Value, field_of, as_bool}
use mandala.Base.Result.{Result, ok, err, ◌>>=◌}
use mandala.Inventory.Validate.{Inventory, InventoryError}
use mandala.Inventory.Projection.{deploy_settings}
use mandala.Inventory.Select.{to_limit}

pub data DeployRunError : Type 0 where
  inventory : InventoryError → DeployRunError
  no_deployable_members : Text → DeployRunError
  invalid_throttle : ℤ → DeployRunError
  missing_settings_projection : DeployRunError
  missing_member_settings : Text → DeployRunError
  invalid_member_settings : (host error : Text) → DeployRunError

pub record DeployPlan : Type 0 where
  pub limit : Text
  pub targets : List Text
  pub skipped : List Text
  pub settings : Map Text Value
  pub dry_activate : Bool
  pub boot : Bool
  pub halt_on_build_failure : Bool
  pub throttle : ℤ

unfoldable pub deploy_rs_enabled : Inventory → Text → Bool
deploy_rs_enabled inv host =
    unwrap_or
      (bind
        (bind
          (bind (bind (get inv.aggregate.members host) (λ m. get m (text "deployment")))
            (field_of (text "deployRs")))
          (field_of (text "enable")))
        as_bool)
      false

-- `?` on a result of the inventory.
abbrev pub from_inventory {ℓ} : {A : Type ℓ} → Result A InventoryError → Result A DeployRunError
from_inventory (ok a) = ok a
from_inventory (err e) = err (inventory e)

abbrev pub some_target : Text → List Text → Result (List Text) DeployRunError
some_target limit [] = err (no_deployable_members limit)
some_target limit (host ∷ hosts) = ok (host ∷ hosts)

unfoldable pub projected_settings : Inventory → Result (Map Text Value) DeployRunError
projected_settings inv = elim (deploy_settings inv) [
  | none ↦ err missing_settings_projection
  | some projected ↦ ok projected
]

module _ (validate : Value → Option Text) where
  -- The body of the loop over the targets.
  unfoldable pub member_settings : Map Text Value → Text → Result Value DeployRunError
  member_settings projected host = elim (get projected host) [
    | none ↦ err (missing_member_settings host)
    | some value ↦ elim (validate value) [
      | none ↦ ok value
      | some error ↦ err (invalid_member_settings host error)
    ]
  ]

  unfoldable pub collect_settings :
      Map Text Value → List Text → Map Text Value → Result (Map Text Value) DeployRunError
  collect_settings projected [] settings = ok settings
  collect_settings projected (host ∷ hosts) settings = member_settings projected host >>= λ value.
      collect_settings projected hosts (insert settings host value)

  unfoldable pub plan_selected :
      Inventory → Text → ℤ → Bool → Bool → Result DeployPlan DeployRunError
  plan_selected inv canonical_limit throttle dry_activate boot =
      let selected = split (λ c. c == b',') canonical_limit in
      some_target canonical_limit (keep (deploy_rs_enabled inv) selected) >>= λ targets.
      projected_settings inv >>= λ projected. collect_settings projected targets [] >>= λ settings.
      ok (record {
        limit = canonical_limit;
        targets = targets;
        skipped = keep (λ host. not (deploy_rs_enabled inv host)) selected;
        settings = settings;
        dry_activate = dry_activate;
        boot = boot;
        halt_on_build_failure = false;
        throttle = throttle;
      })

  unfoldable pub plan_run_with_boot :
      Inventory → Text → ℤ → Bool → Bool → Result DeployPlan DeployRunError
  plan_run_with_boot inv limit throttle dry_activate boot =
      if is_pos throttle
      then (from_inventory (to_limit inv limit) >>= λ canonical.
          plan_selected inv canonical throttle dry_activate boot)
      else err (invalid_throttle throttle)

  unfoldable pub plan_run : Inventory → Text → ℤ → Bool → Result DeployPlan DeployRunError
  plan_run inv limit throttle dry_activate =
      plan_run_with_boot inv limit throttle dry_activate false
