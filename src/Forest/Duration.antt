-- ===== src/Forest/Duration.antt =====
-- crates/nix-build-forest/src/duration.rs: the history of how long builds took, and the estimates
-- that are made of it. Its file is not modelled.
use mandala.Base.{
  ℕ, ◌+◌, ◌-◌, ◌/◌, Bool, true, false, not, Option, none, some, List, [], ◌∷◌, if◌then◌else◌, min,
  ltb,
}
use mandala.Base.Order.{list_ord}
use mandala.Base.Map.{Map, upsert}
use mandala.Base.Text.{Text}
use mandala.Base.Int.{u64_max}
use mandala.Forest.State.{DerivationStatus, built}
use mandala.Forest.Snapshot.{DerivationNode}

pub record BuildDuration : Type 0 where
  pub samples : ℕ
  pub total_ms : ℕ

-- `BuildDuration::default()`.
abbrev pub no_duration : BuildDuration
no_duration = record { samples = 0; total_ms = 0 }

pub record DurationCache : Type 0 where
  pub version : ℕ
  pub durations : Map Text BuildDuration

-- `DurationCache::default()`.
abbrev pub new_cache : DurationCache
new_cache = record { version = 1; durations = [] }

-- `a.saturating_add(b)` of a `u64`.
abbrev pub saturating_add : ℕ → ℕ → ℕ
saturating_add a b = min (a + b) u64_max

abbrev pub is_built : DerivationStatus → Bool
is_built built = true
is_built _ = false

-- The time between the two stamps of a node, where it has both and the time is positive; the
-- subtraction saturates at 0.
abbrev pub elapsed_between : Option ℕ → Option ℕ → Option ℕ
elapsed_between none finish = none
elapsed_between (some start) none = none
elapsed_between (some start) (some finish) =
    let elapsed = finish - start in if ltb 0 elapsed then some elapsed else none

abbrev pub add_sample : ℕ → BuildDuration → BuildDuration
add_sample elapsed d = record {
  samples = saturating_add d.samples 1;
  total_ms = saturating_add d.total_ms elapsed;
}

-- The end of the body of the loop.
abbrev pub observe_elapsed : Text → Option ℕ → DurationCache → DurationCache
observe_elapsed name none c = c
observe_elapsed name (some elapsed) c = record c {
  durations = upsert c.durations name no_duration (add_sample elapsed);
}

abbrev pub observe_node : DerivationNode → DurationCache → DurationCache
observe_node n c =
    if not (is_built n.state.status)
    then c
    else observe_elapsed n.name (elapsed_between n.state.started_ms n.state.finished_ms) c

-- The loop over the nodes of a snapshot.
unfoldable pub observe_snapshot : List DerivationNode → DurationCache → DurationCache
observe_snapshot [] c = c
observe_snapshot (n ∷ ns) c = observe_snapshot ns (observe_node n c)

abbrev pub estimate_all : Map Text BuildDuration → Map Text ℕ
estimate_all [] = []
estimate_all ((name, d) ∷ m) =
    let rest = estimate_all m in
    if ltb 0 d.samples then (name, d.total_ms / d.samples) ∷ rest else rest

unfoldable pub estimates_ms : DurationCache → Map Text ℕ
estimates_ms c = estimate_all c.durations
