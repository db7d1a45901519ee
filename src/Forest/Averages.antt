-- ===== src/Forest/Averages.antt =====
-- crates/nix-build-forest/src/duration.rs: the estimates and what was observed.
use mandala.Base.{
  ℕ, ◌+◌, ◌/◌, ◌<◌, Option, none, some, List, [], ◌∷◌, ◌++◌, if◌then◌else◌, min, unwrap_or, length,
}
use mathlib.Core.Option
use mandala.Base.Order.{list_ord, beq}
use mandala.Base.Map.{Map}
use mandala.Base.Text.{Text}
use mandala.Base.Int.{u64_max}
use mandala.Forest.Snapshot.{DerivationNode}
use mandala.Forest.Duration.{
  BuildDuration, no_duration, DurationCache, is_built, elapsed_between, add_sample,
  observe_snapshot,
}

-- What one node says of the derivations called `name`.
abbrev observed : Text → DerivationNode → Option ℕ
observed name n =
    if is_built n.state.status
    then (if beq name n.name then elapsed_between n.state.started_ms n.state.finished_ms else none)
    else none

abbrev push : Option ℕ → List ℕ → List ℕ
push none xs = xs
push (some x) xs = x ∷ xs

-- The positive times of the built nodes called `name`.
unfoldable pub times : Text → List DerivationNode → List ℕ
times name [] = []
times name (n ∷ ns) = push (observed name n) (times name ns)

abbrev pub sum : List ℕ → ℕ
sum [] = 0
sum (x ∷ xs) = x + sum xs

abbrev pub average : List ℕ → Option ℕ
average [] = none
average (x ∷ xs) = some (min (sum (x ∷ xs)) u64_max / min (length (x ∷ xs)) u64_max)

abbrev add : ℕ → Option BuildDuration → Option BuildDuration
add elapsed d = some (add_sample elapsed (unwrap_or d no_duration))

add_all : Option BuildDuration → List ℕ → Option BuildDuration
add_all d [] = d
add_all d (x ∷ xs) = add_all (add x d) xs

abbrev pub observe_all : List (List DerivationNode) → DurationCache → DurationCache
observe_all [] c = c
observe_all (ns ∷ rest) c = observe_all rest (observe_snapshot ns c)

abbrev pub nodes_of : List (List DerivationNode) → List DerivationNode
nodes_of [] = []
nodes_of (ns ∷ rest) = ns ++ nodes_of rest

abbrev add_seen : Option ℕ → Option BuildDuration → Option BuildDuration
add_seen none d = d
add_seen (some x) d = add x d

abbrev capped : ℕ → ℕ → BuildDuration
capped samples total = record { samples = min samples u64_max; total_ms = min total u64_max }

abbrev duration : ℕ → ℕ → BuildDuration
duration samples total = record { samples = samples; total_ms = total }

abbrev IsSampled : Map Text BuildDuration → Type 0
IsSampled [] = Unit
IsSampled ((name, d) ∷ m) = 0 < d.samples × IsSampled m

abbrev estimate : BuildDuration → ℕ
estimate d = d.total_ms / d.samples
