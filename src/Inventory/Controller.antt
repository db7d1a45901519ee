-- ===== src/Inventory/Controller.antt =====
-- What the gate of the controller map lets through.
use mandala.Base.{
  ◌&&◌, ◌≡◌, refl, Bool, true, not, Option, none, some, arith, bind, is_some, Option-cases, inl,
  inr,
}
use mandala.Base.Order.{list_ord}
use mandala.Base.Map.{Map}
use mandala.Base.Text.{Text, text}
use mandala.Base.Json.{Value, as_object, field_of}
use mandala.Base.Result.{ok, ◌>>=◌, >>=-eq-ok, ok-injective}
use mandala.Inventory.Validate.{
  Aggregate, Inventory, check_controller, check_platform, platform_of, refuse_if, select_platform,
  check_map, check_settings, check_ansible, settings_of, no_deploy_settings, no_ansible_inventory,
  projections_of,
}
use mandala.Inventory.Projection.{connection_projections, pick_platform}

select_platform_ok :
    (p : Text) (platforms selected : Value)
    → select_platform p platforms ≡ ok selected
    → field_of p platforms ≡ some selected
unfolding select_platform
select_platform_ok p platforms selected h = elim (Option-cases (field_of p platforms)) [
  | inl e ↦ absurd (ground (arith, e))
  | inr (v, e) ↦ ground (arith, e)
]

check_settings_ok :
    (p : Text) (selected : Value)
    → check_settings p selected ≡ ok tt
    → is_some (settings_of selected) ≡ true
unfolding check_settings
check_settings_ok p selected h = go (settings_of selected) h
  where
    go :
        (o : Option (Map Text Value))
        → refuse_if (not (is_some o)) (no_deploy_settings p) ≡ ok tt
        → is_some o ≡ true
    go o h = ground arith

check_ansible_ok :
    (p : Text) (a : Aggregate) (selected : Value)
    → check_ansible p a selected ≡ ok tt
    → is_some (bind (projections_of a) (field_of (text "ansibleInventory"))) ≡ true
    → is_some (field_of (text "ansibleInventory") selected) ≡ true
unfolding check_ansible
check_ansible_ok p a selected h =
    go (is_some (bind (projections_of a) (field_of (text "ansibleInventory"))))
      (field_of (text "ansibleInventory") selected) h
  where
    go :
        (g : Bool) (o : Option Value)
        → refuse_if (g && not (is_some (bind o as_object))) (no_ansible_inventory p) ≡ ok tt
        → g ≡ true
        → is_some o ≡ true
    go g none h e = ground arith
    go g (some v) h e = refl

abbrev pub IsReady : Aggregate → Value → Text → Type 0
IsReady a platforms platform =
    (is_some (bind (field_of platform platforms) settings_of) ≡ true)
    × (is_some (bind (projections_of a) (field_of (text "ansibleInventory"))) ≡ true
        → is_some (bind (field_of platform platforms) (field_of (text "ansibleInventory"))) ≡ true)

pub check_platform-IsReady :
    (os : Text) (a : Aggregate) (platforms : Value) (platform : Text)
    → check_platform os a platforms ≡ ok platform
    → IsReady a platforms platform
unfolding check_platform
check_platform-IsReady os a platforms platform h =
    let (p, _, h1) = >>=-eq-ok (platform_of os) _ h in
    let (_, _, h2) = >>=-eq-ok (check_map platforms) _ h1 in
    let (selected, found, h3) = >>=-eq-ok (select_platform p platforms) _ h2 in
    let (_, settings, h4) = >>=-eq-ok (check_settings p selected) _ h3 in
    let (_, ansible, h5) = >>=-eq-ok (check_ansible p a selected) _ h4 in
    let e : field_of platform platforms ≡ some selected =
      rw (ok-injective h5) at (select_platform_ok p platforms selected found) in
    rw e (check_settings_ok p selected settings, check_ansible_ok p a selected ansible)

pub check_controller_ready :
    (os : Text) (a : Aggregate) (chosen : Option Text) (platforms : Value)
    → check_controller os a ≡ ok chosen
    → bind (projections_of a) (field_of (text "byControllerPlatform")) ≡ some platforms
    → (platform : Text) × (chosen ≡ some platform) × (check_platform os a platforms ≡ ok platform)
unfolding check_controller
check_controller_ready os a chosen platforms h e =
    let run : (check_platform os a platforms >>= λ p. ok (some p)) ≡ ok chosen =
      rw (e, check_controller) at h in
    let (p, q, r) = >>=-eq-ok (check_platform os a platforms) (λ p. ok (some p)) run in
    (p, ground arith, q)

pub connection_ready :
    (inv : Inventory) (platforms : Value) (platform : Text)
    → inv.controller_platform ≡ some platform
    → bind (projections_of inv.aggregate) (field_of (text "byControllerPlatform")) ≡ some platforms
    → connection_projections inv ≡ field_of platform platforms
unfolding connection_projections
connection_ready inv platforms platform c e = rw c (go (projections_of inv.aggregate) e)
  where
    go :
        (o : Option Value)
        → bind o (field_of (text "byControllerPlatform")) ≡ some platforms
        → bind o (pick_platform (some platform)) ≡ field_of platform platforms
    go none e = absurd (ground arith)
    go (some v) e = rw e

pub settings_ready :
    (selected : Option Value)
    → is_some (bind selected settings_of) ≡ true
    → is_some (
        bind
          (bind (bind selected (field_of (text "deploy"))) (field_of (text "settings")))
          as_object)
      ≡ true
settings_ready none h = h
settings_ready (some v) h = h
