-- ===== src/Forest/Snapshot.antt =====
-- crates/nix-build-forest/src/forest.rs: the counts, the roots and the node list of `snapshot`,
-- and the bounds of its projections.
use mandala.Base.{
  ℕ, ◌+◌, ◌-◌, ◌/◌, Bool, true, false, not, Option, none, List, [], ◌∷◌, leb, if◌then◌else◌, keep,
  take, length, map, map_or,
}
use mathlib.Core.Option
use mandala.Base.Order.{list_ord}
use mandala.Base.Map.{Map, get, keys, values}
use mandala.Base.Set.{Set, contains, extend}
use mandala.Base.Text.{Text}
use mandala.Forest.State.{
  BuildForest, DerivationStatus, NodeState, unknown, planned, building, downloading, substituting,
  built, failed, is_failed,
}
use mandala.Forest.Paths.{derivation_name}

-- What a node copies of its state (its drv, its times, its host) is kept as that state.
pub record DerivationNode : Type 0 where
  pub path : Text
  pub name : Text
  pub state : NodeState
  pub eta_seconds : Option ℕ

pub record ForestCounts : Type 0 where
  pub untracked : ℕ
  pub planned_count : ℕ
  pub building_count : ℕ
  pub downloading_count : ℕ
  pub substituting_count : ℕ
  pub built_count : ℕ
  pub failed_count : ℕ

abbrev pub total : ForestCounts → ℕ
total c =
    c.planned_count + c.building_count + c.downloading_count + c.substituting_count + c.built_count
    + c.failed_count

-- The body of the fold.
unfoldable pub count_status : DerivationStatus → ForestCounts → ForestCounts
count_status unknown c = record c { untracked = c.untracked + 1 }
count_status planned c = record c { planned_count = c.planned_count + 1 }
count_status building c = record c { building_count = c.building_count + 1 }
count_status downloading c = record c { downloading_count = c.downloading_count + 1 }
count_status substituting c = record c { substituting_count = c.substituting_count + 1 }
count_status built c = record c { built_count = c.built_count + 1 }
count_status failed c = record c { failed_count = c.failed_count + 1 }

abbrev pub no_counts : ForestCounts
no_counts = record {
  untracked = 0;
  planned_count = 0;
  building_count = 0;
  downloading_count = 0;
  substituting_count = 0;
  built_count = 0;
  failed_count = 0;
}

unfoldable pub count_nodes : List DerivationNode → ForestCounts → ForestCounts
unfolding count_status
count_nodes [] c = c
count_nodes (n ∷ ns) c = count_nodes ns (count_status n.state.status c)

abbrev is_settled : DerivationStatus → Bool
is_settled built = true
is_settled failed = true
is_settled _ = false

-- `n.div_ceil(1_000)`.
abbrev pub seconds : ℕ → ℕ
seconds n = (n + 999) / 1000

abbrev pub eta : Map Text ℕ → (elapsed : ℕ) → Text → NodeState → Option ℕ
eta estimates elapsed name node =
    if is_settled node.status
    then none
    else Option.map
        (λ estimate. seconds (estimate - map_or node.started_ms 0 (λ started. elapsed - started)))
        (get estimates name)

unfoldable pub list_nodes : Map Text ℕ → (elapsed : ℕ) → Map Text NodeState → List DerivationNode
list_nodes estimates elapsed [] = []
list_nodes estimates elapsed ((path, node) ∷ nodes) =
    record {
      path = path;
      name = derivation_name path;
      state = node;
      eta_seconds = eta estimates elapsed (derivation_name path) node;
    }
    ∷ list_nodes estimates elapsed nodes

unfoldable pub parents : List NodeState → Set Text → Set Text
parents [] found = found
parents (node ∷ nodes) found = parents nodes (extend found node.inputs)

unfoldable pub roots : BuildForest → List Text
unfolding parents
roots f = keep (λ path. not (contains (parents (values f.nodes) []) path)) (keys f.nodes)

unfoldable pub snapshot_nodes : BuildForest → (elapsed : ℕ) → List DerivationNode
snapshot_nodes f elapsed = list_nodes f.duration_estimates_ms elapsed f.nodes

unfoldable pub snapshot_counts : BuildForest → (elapsed : ℕ) → ForestCounts
snapshot_counts f elapsed = count_nodes (snapshot_nodes f elapsed) no_counts

unfoldable pub failed_derivations : List DerivationNode → List Text
failed_derivations nodes = map (λ n. n.name) (keep (λ n. is_failed n.state.status) nodes)

abbrev pub tier : DerivationStatus → ℕ
tier failed = 0
tier building = 1
tier downloading = 2
tier substituting = 2
tier planned = 3
tier built = 4
tier unknown = 4

-- A stable sort by the tier: the sort of the indices by `(tier, index)`.
unfoldable pub insert_by_tier : DerivationNode → List DerivationNode → List DerivationNode
insert_by_tier n [] = n ∷ []
insert_by_tier n (m ∷ ms) =
    let rest = insert_by_tier n ms in
    if leb (tier n.state.status) (tier m.state.status) then n ∷ m ∷ ms else m ∷ rest

unfoldable pub sort_by_tier : List DerivationNode → List DerivationNode
sort_by_tier [] = []
sort_by_tier (n ∷ ns) = insert_by_tier n (sort_by_tier ns)

unfoldable pub capped_nodes : List DerivationNode → (cap : ℕ) → List DerivationNode × ℕ
capped_nodes nodes cap = (take cap (sort_by_tier nodes), length nodes - cap)
