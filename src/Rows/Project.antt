-- ===== src/Rows/Project.antt =====
-- crates/nix-build-forest/src/sort.rs: `activity_projection`, the bounded view of the forest.
use mathlib.Core.List.{reverse}
use mandala.Base.{
  ℕ, zero, suc, ◌+◌, ◌*◌, Bool, true, false, Option, none, some, List, [], ◌∷◌, ◌++◌, bind, length,
  keep, if◌then◌else◌, leb, unwrap_or,
}
use mandala.Base.Order.{list_ord}
use mandala.Base.Map.{Map, get, upsert, contains_key}
use mandala.Base.Set
use mandala.Base.Set.{Set, contains, extend}
use mandala.Base.Text.{Text, is_empty}
use mandala.Forest.State.{
  DerivationStatus, unknown, planned, building, downloading, substituting, built, failed,
}
use mandala.Forest.Snapshot.{DerivationNode}
use mandala.Rows.Display.{DisplayRow, by_path, display_rows, paths_of}

pub record ElidedCounts : Type 0 where
  pub untracked : ℕ
  pub planned_elided : ℕ
  pub built_elided : ℕ

abbrev pub no_elided : ElidedCounts
no_elided = record { untracked = 0; planned_elided = 0; built_elided = 0 }

-- `ElidedCounts::total`.
abbrev pub total_elided : ElidedCounts → ℕ
total_elided c = c.untracked + c.planned_elided + c.built_elided

pub record ActivityProjection : Type 0 where
  pub rows : List DisplayRow
  pub elided : ElidedCounts

abbrev pub is_mandatory : DerivationStatus → Bool
is_mandatory building = true
is_mandatory downloading = true
is_mandatory substituting = true
is_mandatory failed = true
is_mandatory _ = false

abbrev pub is_planned : DerivationStatus → Bool
is_planned planned = true
is_planned _ = false

-- The loop over the inputs of one node.
unfoldable pub add_parent : Text → List Text → Map Text (List Text) → Map Text (List Text)
add_parent path [] parents = parents
add_parent path (input ∷ inputs) parents =
    add_parent path inputs (upsert parents input [] (λ found. found ++ path ∷ []))

unfoldable pub add_parents : List DerivationNode → Map Text (List Text) → Map Text (List Text)
add_parents [] parents = parents
add_parents (n ∷ ns) parents = add_parents ns (add_parent n.path n.state.inputs parents)

abbrev pub parents_in : Map Text (List Text) → Text → List Text
parents_in parents path = unwrap_or (get parents path) []

unfoldable pub mandatory_paths : List DerivationNode → Set Text
mandatory_paths nodes = extend [] (paths_of (keep (λ n. is_mandatory n.state.status) nodes))

-- `keep` and `frontier`, the end of which stands first.
pub record Closure : Type 0 where
  pub kept : Set Text
  pub frontier : List Text

-- The loop over the parents of a path.
unfoldable pub offer : List Text → Closure → Closure
offer [] c = c
offer (parent ∷ parents) c = elim (contains c.kept parent) [
  | true ↦ offer parents c
  | false ↦
      offer parents (record { kept = Set.insert c.kept parent; frontier = parent ∷ c.frontier })
]

-- The loop that pops the frontier; each round costs a unit of fuel.
unfoldable pub close :
    Map Text (List Text) → (fuel : ℕ) → (frontier : List Text) → Set Text → Option (Set Text)
close parents zero [] kept = some kept
close parents zero (path ∷ frontier) kept = none
close parents (suc fuel) [] kept = some kept
close parents (suc fuel) (path ∷ frontier) kept =
    let c = offer (parents_in parents path) (record { kept = kept; frontier = frontier }) in
    close parents fuel c.frontier c.kept

-- Planned rows, while there is room.
unfoldable pub fill_planned : (row_budget : ℕ) → List DisplayRow → Set Text → Set Text
fill_planned row_budget [] kept = kept
fill_planned row_budget (row ∷ rows) kept =
    let next = if is_planned row.node.state.status then Set.insert kept row.node.path else kept in
    elim (leb row_budget (length kept)) [ true ↦ kept | false ↦ fill_planned row_budget rows next ]

-- Roots, while there is room.
unfoldable pub fill_roots :
    Map Text DerivationNode → (row_budget : ℕ) → List Text → Set Text → Set Text
fill_roots nodes row_budget [] kept = kept
fill_roots nodes row_budget (root ∷ roots) kept =
    let next = if contains_key nodes root then Set.insert kept root else kept in
    elim (leb row_budget (length kept)) [
      | true ↦ kept
      | false ↦ fill_roots nodes row_budget roots next
    ]

abbrev pub fill_empty : Map Text DerivationNode → (row_budget : ℕ) → List Text → Set Text → Set Text
fill_empty nodes row_budget roots kept =
    if is_empty kept then fill_roots nodes row_budget roots kept else kept

unfoldable pub elide : DerivationStatus → ElidedCounts → ElidedCounts
elide unknown c = record c { untracked = c.untracked + 1 }
elide planned c = record c { planned_elided = c.planned_elided + 1 }
elide built c = record c { built_elided = c.built_elided + 1 }
elide _ c = c

unfoldable pub count_elided : Set Text → List DerivationNode → ElidedCounts → ElidedCounts
unfolding elide
count_elided kept [] c = c
count_elided kept (n ∷ ns) c =
    count_elided kept ns (if contains kept n.path then c else elide n.state.status c)

abbrev pub select : Set Text → List DerivationNode → List DisplayRow → ActivityProjection
select kept nodes full = record {
  rows = keep (λ row. contains kept row.node.path) full;
  elided = count_elided kept nodes no_elided;
}

-- Twice as many rounds as there are nodes are enough.
unfoldable pub activity_projection :
    List DerivationNode → (roots : List Text) → (row_budget : ℕ) → Option ActivityProjection
unfolding mandatory_paths
activity_projection nodes roots row_budget = bind (display_rows nodes roots) λ full.
    let mandatory = mandatory_paths nodes in
    bind (close (add_parents nodes []) (2 * length nodes) (reverse mandatory) mandatory) λ kept.
      some (
        select (fill_empty (by_path nodes) row_budget roots (fill_planned row_budget full kept))
          nodes full)
