-- ===== src/Drift/Judged.antt =====
-- crates/mandala-core/src/drift.rs: what the verdict on a host says of its snapshot.
use mandala.Base.{◌≡◌, refl, Bool, true, false, not, ◌&&◌, Option, if◌then◌else◌, is_some, map_or}
use mandala.Base.Order.{list_ord}
use mandala.Base.Int.{ℤ}
use mandala.Base.Text.{Text, is_empty}
use mandala.Base.Json.{json_truthy}
use mandala.Drift.Compare.{
  DriftStatus, in_sync, drift, reboot_pending, activated, stale, incomplete, unreachable_host,
  eval_failed, Snapshot, same, too_old,
}

abbrev pub is_live : DriftStatus → Bool
is_live in_sync = true
is_live activated = true
is_live _ = false

abbrev pub awaits_reboot : DriftStatus → Bool
awaits_reboot reboot_pending = true
awaits_reboot _ = false

abbrev pub is_drift : DriftStatus → Bool
is_drift drift = true
is_drift _ = false

-- The running generation is another than the one that was expected.
abbrev pub moved : Option Text → Snapshot → Bool
moved exp snap = is_some exp && not (same snap.current exp)

-- The host was booted with another generation than the one that runs.
abbrev pub is_split : Snapshot → Bool
is_split snap =
    map_or snap.booted false (λ b. not (is_empty b)) && not (same snap.booted snap.current)

-- The tests of `judge` in their order.
abbrev verdict :
    (away known old failed planned matches installed booted stays critical : Bool) → DriftStatus
verdict away known old failed planned matches installed booted stays critical =
    if away
    then unreachable_host
    else if not known
    then incomplete
    else if old
    then stale
    else if failed
    then eval_failed
    else if planned && not matches && installed
    then reboot_pending
    else if planned && not matches
    then drift
    else if booted && not stays
    then (if critical then reboot_pending else activated)
    else in_sync

settled :
    (booted stays critical : Bool)
    → let v =
        (if booted && not stays
          then (if critical then reboot_pending else activated)
          else in_sync) in
      (is_live v ≡ not ((booted && not stays) && critical))
      × (is_drift v ≡ false)
      × (awaits_reboot v ≡ ((booted && not stays) && critical))
settled false stays critical = (refl, refl, refl)
settled true true critical = (refl, refl, refl)
settled true false true = (refl, refl, refl)
settled true false false = (refl, refl, refl)

module _ (age_of : Text → Option ℤ) where
  -- The snapshot supports a judgement, and there is an expectation to judge by.
  abbrev pub is_judged : Option Text → Option ℤ → Snapshot → Bool
  is_judged eval_error max_age snap =
      not (json_truthy snap.unreachable)
      && is_some snap.current
      && not (too_old age_of snap.captured_at max_age)
      && not (is_some eval_error)
