-- ===== src/Mcp/Refused.antt =====
-- crates/mandala-mcp/src/server.rs: what a refusal is good for.
use mandala.Base.{
  ◌≡◌, refl, sym, ap, ◌∙◌, Bool, true, false, not, ◌&&◌, some, [], ◌∷◌, if◌then◌else◌, unwrap_or,
}
use mandala.Base.Order.{list_ord, beq_refl}
use mandala.Base.Result.{Result, ok, err, ok-injective}
use mandala.Base.Text.{Text, text}
use mandala.Base.Json.{Value, string, field_of}
use mandala.Base.Map.{get, insert}
use mandala.Inventory.Validate.{Inventory, InventoryError}
use mandala.Inventory.Select.{to_limit}
use mandala.Mcp.Tools.{DeployTool, Effects, deployed, Run}
use mandala.Mcp.Probe.{is_confirmed, after_limit}
use mandala.Mcp.Actions.{refused_deploy, launched_deploy, tool_deploy, deploy_target_to}

launched_calls :
    (fx : Effects) (flake : Text) (t : DeployTool) (target : Text)
    → (deploy_target_to fx flake (record t { confirm = some target }) target).0
      ≡ (launched_deploy fx flake t target).0
launched_calls fx flake t target =
    ap
      (λ b.
        (if not (unwrap_or t.dry_activate true) && not b
          then refused_deploy t target
          else launched_deploy fx flake t target).0)
      (beq_refl target)
    ∙ go (unwrap_or t.dry_activate true)
  where
    go :
        (dry : Bool)
        → (if not dry && not true
            then refused_deploy t target
            else launched_deploy fx flake t target).0
          ≡ (launched_deploy fx flake t target).0
    go true = refl
    go false = refl

-- A deploy that runs nothing and is no error names the target in its reply, and the same call with
-- that target as `confirm` is launched, four hosts at a time.
pub deploy_refused-launches :
    (fx : Effects) (flake : Text) (t : DeployTool) (inv : Inventory) (reply : Value)
    → tool_deploy fx flake t inv ≡ ([], ok reply)
    → (target : Text) × (field_of (text "required_confirm") reply ≡ some (string target))
      × ((tool_deploy fx flake (record t { confirm = some target }) inv).0
          ≡ deployed flake target (unwrap_or t.dry_activate true) (unwrap_or t.boot false) 4 ∷ [])
unfolding tool_deploy get insert
deploy_refused-launches fx flake t inv reply = go (to_limit inv t.selector)
  where
    refused :
        (target : Text) (b : Bool)
        → (if b then refused_deploy t target else launched_deploy fx flake t target)
          ≡ ([], ok reply)
        → field_of (text "required_confirm") reply ≡ some (string target)
    refused target true h =
        ap (field_of (text "required_confirm")) (sym (ok-injective (ap (λ r. r.1) h)))
    refused target false h = absurd (cc (ap (λ (r : Run Value). r.0) h))

    go :
        (limit : Result Text InventoryError)
        → after_limit limit (deploy_target_to fx flake t) ≡ ([], ok reply)
        → (target : Text) × (field_of (text "required_confirm") reply ≡ some (string target))
          × ((after_limit limit (deploy_target_to fx flake (record t { confirm = some target }))).0
              ≡ deployed flake target (unwrap_or t.dry_activate true) (unwrap_or t.boot false) 4
                ∷ [])
    go (err e) h = absurd (cc (ap (λ (r : Run Value). r.1) h))
    go (ok target) h = (
      target,
      refused target (not (unwrap_or t.dry_activate true) && not (is_confirmed t.confirm target)) h,
      launched_calls fx flake t target,
    )
