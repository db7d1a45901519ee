-- ===== src/Deploy/Planned.antt =====
-- What a plan acts on.
use mathlib.Core.Path.{subst}
use mandala.Base.{
  ◌≡◌, refl, sym, ap, Bool, true, false, not, Option, none, some, List, [], ◌∷◌, if◌then◌else◌,
  ◌==◌, keep, arith, Option-cases, inl, inr,
}
use mandala.Base.Order.{list_ord, beq_iff}
use mandala.Base.Map.{Map, get, insert, keys, get-insert}
use mandala.Base.Set.{IsSorted, contains}
use mandala.Base.Int.{ℤ, is_pos}
use mandala.Base.Text.{Text, is_empty, split, join}
use mandala.Base.Json.{Value}
use mandala.Base.Result.{Result, ok, err, >>=-eq-ok, ok-injective}
use mandala.Inventory.Validate.{Inventory, InventoryError}
use mandala.Inventory.Projection.{deploy_settings}
use mandala.Inventory.Valid.{IsValid}
use mandala.Inventory.Select.{resolve, to_limit}
use mandala.Inventory.Canonical.{resolve_canonical}
use mandala.Deploy.Plan.{
  DeployPlan, DeployRunError, deploy_rs_enabled, from_inventory, some_target, projected_settings,
  member_settings, collect_settings, plan_selected, plan_run_with_boot,
}

-- The members of a selector, parted into the targets of a plan and those that it skips.
pub record Partitions (inv : Inventory) (limit : Text) (plan : DeployPlan) : Type 0 where
  pub members : List Text
  pub resolved : resolve inv limit ≡ ok members
  pub canonical : resolve inv plan.limit ≡ ok members
  pub targets : plan.targets ≡ keep (deploy_rs_enabled inv) members
  pub skipped : plan.skipped ≡ keep (λ host. not (deploy_rs_enabled inv host)) members
  pub some_targets : is_empty plan.targets ≡ false
  pub projected : Map Text Value
  pub configured : deploy_settings inv ≡ some projected
  pub settings :
      (host : Text)
      → get plan.settings host ≡ (if contains plan.targets host then get projected host else none)
  pub positive : is_pos plan.throttle ≡ true

some_target_ok :
    (limit : Text) (hosts targets : List Text)
    → some_target limit hosts ≡ ok targets
    → (hosts ≡ targets) × (is_empty targets ≡ false)
some_target_ok limit [] targets h = absurd (ground arith)
some_target_ok limit (x ∷ xs) targets h = let same = ok-injective h in (same, rw (← same) refl)

projected_ok :
    (inv : Inventory) (projected : Map Text Value)
    → projected_settings inv ≡ ok projected
    → deploy_settings inv ≡ some projected
unfolding projected_settings
projected_ok inv projected h = elim (Option-cases (deploy_settings inv)) [
  | inl e ↦ absurd (ground (arith, e))
  | inr (p, e) ↦ ground (arith, e)
]

from_inventory_ok : (r : Result Text InventoryError) (a : Text) → from_inventory r ≡ ok a → r ≡ ok a
from_inventory_ok (ok b) a h = ap ok (ok-injective h)
from_inventory_ok (err e) a h = absurd (ground arith)

module _ (validate : Value → Option Text) where
  member_ok :
      (projected : Map Text Value) (host : Text) (value : Value)
      → member_settings validate projected host ≡ ok value
      → get projected host ≡ some value
  unfolding member_settings
  member_ok projected host value h = elim (Option-cases (get projected host)) [
    | inl e ↦ absurd (ground (arith, e))
    | inr (v, e) ↦
        let h1 = rw (e, member_settings) at h in
        elim (Option-cases (validate v)) [
          | inl q ↦ let h2 = rw q at h1 in ground (arith, e)
          | inr (error, q) ↦ let h2 = rw q at h1 in absurd (ground arith)
        ]
  ]

  collected :
      (projected : Map Text Value) (hosts : List Text) (before settings : Map Text Value)
      → collect_settings validate projected hosts before ≡ ok settings
      → (host : Text)
      → get settings host ≡ (if contains hosts host then get projected host else get before host)
  unfolding collect_settings contains
  collected projected [] before settings h host = rw (ok-injective h) refl
  collected projected (x ∷ xs) before settings h host =
      let (value, found, rest) = >>=-eq-ok (member_settings validate projected x) _ h in
      let here = member_ok projected x value found in
      let later = collected projected xs (insert before x value) settings rest host in
      ground (arith, later, here, get-insert before x host value, beq_iff host x)

  positive_ok :
      (b : Bool) (m : Result DeployPlan DeployRunError) (e : DeployRunError) (plan : DeployPlan)
      → (if b then m else err e) ≡ ok plan
      → (b ≡ true) × (m ≡ ok plan)
  positive_ok true m e plan h = (refl, h)
  positive_ok false m e plan h = absurd (ground arith)

  selected-Partitions :
      (inv : Inventory) (limit canonical : Text) (throttle : ℤ) (dry_activate boot : Bool)
      (plan : DeployPlan) (ms : List Text)
      → resolve inv limit ≡ ok ms
      → resolve inv canonical ≡ ok ms
      → split (λ c. c == b',') canonical ≡ ms
      → is_pos throttle ≡ true
      → plan_selected validate inv canonical throttle dry_activate boot ≡ ok plan
      → Partitions inv limit plan
  unfolding plan_selected get
  selected-Partitions inv limit canonical throttle dry_activate boot plan ms r again back pos h =
      let selected = split (λ c. c == b',') canonical in
      let (targets, t, h1) =
        >>=-eq-ok (some_target canonical (keep (deploy_rs_enabled inv) selected)) _ h in
      let (projected, p, h2) = >>=-eq-ok (projected_settings inv) _ h1 in
      let (settings, c, h3) = >>=-eq-ok (collect_settings validate projected targets []) _ h2 in
      let (same, full) =
        some_target_ok canonical (keep (deploy_rs_enabled inv) selected) targets t in
      subst (Partitions inv limit) (ok-injective h3) (record {
        members = ms;
        resolved = r;
        canonical = again;
        targets = rw back at (sym same);
        skipped = ap (keep (λ host. not (deploy_rs_enabled inv host))) back;
        some_targets = full;
        projected = projected;
        configured = projected_ok inv projected p;
        settings = λ host. collected projected targets [] settings c host;
        positive = pos;
      })

  -- A plan acts on the members that its selector resolves to: those with deploy-rs enabled are its
  -- targets, of which there is one at least, and the others are skipped, both in order. It holds
  -- the projected settings of the targets and of no other host, its throttle is positive, and its
  -- limit resolves to the same members. The inventory is valid, with its members in key order.
  pub plan_run-Partitions :
      (inv : Inventory) (limit : Text) (throttle : ℤ) (dry_activate boot : Bool) (plan : DeployPlan)
      → IsValid inv.aggregate
      → IsSorted (keys inv.aggregate.members)
      → plan_run_with_boot validate inv limit throttle dry_activate boot ≡ ok plan
      → Partitions inv limit plan
  unfolding plan_run_with_boot to_limit
  plan_run-Partitions inv limit throttle dry_activate boot plan v s h =
      let (pos, run) = positive_ok (is_pos throttle) _ _ plan h in
      let (canonical, q, h1) = >>=-eq-ok (from_inventory (to_limit inv limit)) _ run in
      let (ms, r, joined) =
        >>=-eq-ok (resolve inv limit) _ (from_inventory_ok (to_limit inv limit) canonical q) in
      let (back, again) = resolve_canonical inv limit ms v s r in
      let spelled : join (b',' ∷ []) ms ≡ canonical = ok-injective joined in
      selected-Partitions inv limit canonical throttle dry_activate boot plan ms r
        (rw spelled at again) (rw spelled at back) pos h1
