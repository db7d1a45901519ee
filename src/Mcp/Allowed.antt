-- ===== src/Mcp/Allowed.antt =====
-- crates/mandala-mcp/src/server.rs: what a tool may do to the fleet.
use mandala.Base.{
  ◌≡◌, refl, ap, ◌⊎◌, inl, inr, Bool, true, false, not, ◌&&◌, Option, none, some, List,
  if◌then◌else◌, All, unwrap_or, arith,
}
use mandala.Base.Order.{list_ord, beq_iff}
use mandala.Base.Result.{Result, ok, err}
use mandala.Base.Text.{Text}
use mandala.Base.Json.{Value}
use mandala.Inventory.Validate.{Inventory, InventoryError}
use mandala.Inventory.Select.{to_limit}
use mandala.Mcp.Tools.{
  PingTool, DeployTool, RestartServiceTool, RebootTool, Request, ping_tool, deploy_tool,
  restart_service_tool, reboot_tool, Effects, Call, evaluated, adhoc, deployed, launched, Run,
}
use mandala.Mcp.Probe.{ping_value, run_adhoc_with, is_confirmed, after_limit, ping_argv, tool_ping}
use mandala.Mcp.Actions.{
  valid_unit, valid_serial, refused_deploy, launched_deploy, refused_unit, refused_restart,
  restarted, refused_serial, refused_reboot, rebooted, restart_argv, reboot_meta, serial_of,
  drain_of, tool_deploy, tool_restart_service, tool_reboot, deploy_target_to, restart_target,
  reboot_target, launch_reboot,
}

-- The target that was resolved in the inventory, and typed out by the caller.
abbrev pub IsConfirmed :
    Inventory → (selector : Text) (confirm : Option Text) (target : Text) → Type 0
IsConfirmed inv selector confirm target =
    (to_limit inv selector ≡ ok target) × (confirm ≡ some target)

-- What a request allows itself to do, given the inventory that is served.
unfoldable pub IsAllowed : Request → Inventory → Call → Type 0
IsAllowed request inv (evaluated flake) = Unit
IsAllowed (ping_tool t) inv (adhoc argv) =
    (target : Text) × (to_limit inv t.selector ≡ ok target) × (argv ≡ ping_argv t target)
IsAllowed (restart_service_tool t) inv (adhoc argv) =
    (target : Text) × IsConfirmed inv t.selector t.confirm target
    × (valid_unit t.unit ≡ true)
    × (argv ≡ restart_argv t target)
IsAllowed (deploy_tool t) inv (deployed flake limit dry_activate boot throttle) =
    (to_limit inv t.selector ≡ ok limit)
    × ((dry_activate ≡ true) ⊎ (t.confirm ≡ some limit))
    × (throttle ≡ 4)
IsAllowed (reboot_tool t) inv (launched argv kind cwd extra) =
    (target : Text) × IsConfirmed inv t.selector t.confirm target
    × (valid_serial (serial_of t) ≡ true)
    × (extra ≡ reboot_meta target (serial_of t) (drain_of t))
IsAllowed request inv call = ⊥

abbrev pub IsAllowedIn : Request → Option Inventory → Call → Type 0
IsAllowedIn request (some inv) call = IsAllowed request inv call
IsAllowedIn request none (evaluated flake) = Unit
IsAllowedIn request none call = ⊥

confirmed_iff :
    (confirm : Option Text) (target : Text)
    → is_confirmed confirm target ≡ true
    → confirm ≡ some target
confirmed_iff none target h = absurd (cc h)
confirmed_iff (some c) target h = ap (λ t. some t) ((beq_iff c target).0 h)

-- A tool that acts on the target of a selector.
after_limit-All :
    (request : Request) (inv : Inventory) (limit : Result Text InventoryError)
    (next : Text → Run Value)
    → ((target : Text) → limit ≡ ok target → All (IsAllowed request inv) (next target).0)
    → All (IsAllowed request inv) (after_limit limit next).0
after_limit-All request inv (err e) next h = tt
after_limit-All request inv (ok target) next h = h target refl

All-if :
    (P : Call → Type 0) (b : Bool) (x y : Run Value)
    → (b ≡ true → All P x.0)
    → (b ≡ false → All P y.0)
    → All P (if b then x else y).0
All-if P true x y hx hy = hx refl
All-if P false x y hx hy = hy refl

not_refused :
    (dry : Bool) (confirm : Option Text) (target : Text)
    → (not dry && not (is_confirmed confirm target)) ≡ false
    → (dry ≡ true) ⊎ (confirm ≡ some target)
not_refused true confirm target h = inl refl
not_refused false confirm target h = inr (confirmed_iff confirm target (ground (arith, h)))

pub deploy-IsAllowed :
    (fx : Effects) (flake : Text) (t : DeployTool) (inv : Inventory)
    → All (IsAllowed (deploy_tool t) inv) (tool_deploy fx flake t inv).0
unfolding tool_deploy IsAllowed
deploy-IsAllowed fx flake t inv =
    after_limit-All (deploy_tool t) inv (to_limit inv t.selector) (deploy_target_to fx flake t)
      (λ target h.
        All-if (IsAllowed (deploy_tool t) inv)
          (not (unwrap_or t.dry_activate true) && not (is_confirmed t.confirm target))
          (refused_deploy t target) (launched_deploy fx flake t target) (λ r. tt)
          (λ r. ((h, not_refused (unwrap_or t.dry_activate true) t.confirm target r, refl), tt)))

pub ping-IsAllowed :
    (fx : Effects) (t : PingTool) (inv : Inventory)
    → All (IsAllowed (ping_tool t) inv) (tool_ping fx t inv).0
unfolding tool_ping IsAllowed
ping-IsAllowed fx t inv =
    after_limit-All (ping_tool t) inv (to_limit inv t.selector)
      (λ target. run_adhoc_with fx (ping_argv t target) (ping_value target))
      (λ target h. ((target, h, refl), tt))

pub restart-IsAllowed :
    (fx : Effects) (t : RestartServiceTool) (inv : Inventory)
    → All (IsAllowed (restart_service_tool t) inv) (tool_restart_service fx t inv).0
unfolding tool_restart_service IsAllowed
restart-IsAllowed fx t inv =
    after_limit-All (restart_service_tool t) inv (to_limit inv t.selector) (restart_target fx t)
      (λ target h.
        All-if (IsAllowed (restart_service_tool t) inv) (not (valid_unit t.unit)) (refused_unit t)
          (if not (is_confirmed t.confirm target)
            then refused_restart t target
            else restarted fx t target)
          (λ r. tt)
          (λ u.
            All-if (IsAllowed (restart_service_tool t) inv) (not (is_confirmed t.confirm target))
              (refused_restart t target) (restarted fx t target) (λ r. tt)
              (λ c. (
                (
                  target,
                  (h, confirmed_iff t.confirm target (ground (arith, c))),
                  ground (arith, u),
                  refl,
                ),
                tt,
              ))))

pub reboot-IsAllowed :
    (fx : Effects) (dir : Text) (t : RebootTool) (inv : Inventory)
    → All (IsAllowed (reboot_tool t) inv) (tool_reboot fx dir t inv).0
unfolding tool_reboot IsAllowed
reboot-IsAllowed fx dir t inv =
    after_limit-All (reboot_tool t) inv (to_limit inv t.selector) (reboot_target fx dir t)
      (λ target h.
        All-if (IsAllowed (reboot_tool t) inv) (not (valid_serial (serial_of t))) (refused_serial t)
          (if not (is_confirmed t.confirm target)
            then refused_reboot target
            else rebooted fx dir t target)
          (λ r. tt)
          (λ v.
            All-if (IsAllowed (reboot_tool t) inv) (not (is_confirmed t.confirm target))
              (refused_reboot target) (rebooted fx dir t target) (λ r. tt)
              (λ c.
                launch (fx.reboot_argv target (serial_of t) (drain_of t)) target
                  (h, confirmed_iff t.confirm target (ground (arith, c))) (ground (arith, v)))))
  where
    launch :
        (argv : Option (List Text)) (target : Text)
        → IsConfirmed inv t.selector t.confirm target
        → valid_serial (serial_of t) ≡ true
        → All
            (IsAllowed (reboot_tool t) inv)
            (launch_reboot fx dir target (serial_of t) (drain_of t) argv).0
    launch none target c v = tt
    launch (some argv) target c v = ((target, c, v, refl), tt)
