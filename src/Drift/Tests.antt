-- ===== src/Drift/Tests.antt =====
-- Runs of the comparison.
use mandala.Base.{◌≡◌, refl, Option, none, some, List, [], ◌∷◌}
use mandala.Base.Map.{Map}
use mandala.Base.Order.{list_ord}
use mandala.Base.Int.{ℤ, pos}
use mandala.Base.Text.{Text, text}
use mandala.Base.Json.{null, json_truthy}
use mandala.Drift.Compare.{Snapshot, Toplevels, judge, reboot_pending}

abbrev hour : Text → Option ℤ
hour _ = some (pos 1)

-- A host whose expected generation is installed, but does not run.
abbrev waiting : Snapshot
waiting = record {
  current = some (text "old");
  booted = some (text "old");
  system_profile = some (text "new");
  captured_at = some (text "2026-07-01T00:00:00Z");
  unreachable = null;
  current_boot = null;
  booted_boot = null;
}

judged : judge hour (some (text "new")) none (some (pos 24)) waiting ≡ reboot_pending
unfolding judge json_truthy
judged = refl

abbrev nodes : List Text
nodes = text "web" ∷ text "cache" ∷ text "router" ∷ []

abbrev surveyed : Map Text Snapshot
surveyed = (text "web", waiting) ∷ []

abbrev evaluated : Toplevels
evaluated = record { paths = (text "web", text "new") ∷ []; errors = [] }
