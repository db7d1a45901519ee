-- ===== src/Rows/Display.antt =====
-- crates/nix-build-forest/src/sort.rs: `display_rows`, the forest in the order of a display.
use mandala.Base.{
  ℕ, zero, suc, ◌+◌, true, false, Option, none, some, List, [], ◌∷◌, ◌++◌, bind, map, length,
  Ordering, lt, eq, gt, compare,
}
use mandala.Base.Order.{list_ord}
use mandala.Base.Map
use mandala.Base.Map.{Map, get}
use mandala.Base.Set
use mandala.Base.Set.{Set, contains}
use mandala.Base.Text.{Text}
use mandala.Forest.State.{
  DerivationStatus, unknown, planned, building, downloading, substituting, built, failed,
}
use mandala.Forest.Snapshot.{DerivationNode}

pub record DisplayRow : Type 0 where
  pub depth : ℕ
  pub node : DerivationNode

abbrev pub priority : DerivationStatus → ℕ
priority failed = 0
priority building = 1
priority downloading = 2
priority substituting = 2
priority planned = 3
priority built = 4
priority unknown = 5

abbrev pub then_with : Ordering → Ordering → Ordering
then_with eq other = other
then_with first other = first

-- `compare` of what is known of two paths.
abbrev pub compare_nodes : Option DerivationNode → Option DerivationNode → Ordering
compare_nodes (some a) (some b) =
    then_with (compare (priority a.state.status) (priority b.state.status))
      (list_ord.cmp a.name b.name)
compare_nodes (some a) none = lt
compare_nodes none (some b) = gt
compare_nodes none none = eq

-- `nodes`, by their paths: of two nodes with one path the later stays.
unfoldable pub index_nodes : List DerivationNode → Map Text DerivationNode → Map Text DerivationNode
index_nodes [] m = m
index_nodes (n ∷ ns) m = index_nodes ns (Map.insert m n.path n)

abbrev pub by_path : List DerivationNode → Map Text DerivationNode
by_path ns = index_nodes ns []

-- `sort_by`, which is stable.
unfoldable pub insert_sorted : Map Text DerivationNode → Text → List Text → List Text
insert_sorted m a [] = a ∷ []
insert_sorted m a (b ∷ bs) =
    let rest = insert_sorted m a bs in
    elim (compare_nodes (get m a) (get m b)) [ gt ↦ b ∷ rest | _ ↦ a ∷ b ∷ bs ]

unfoldable pub sort_paths : Map Text DerivationNode → List Text → List Text
sort_paths m [] = []
sort_paths m (a ∷ rest) = insert_sorted m a (sort_paths m rest)

-- `seen` and `rows`.
pub record Walk : Type 0 where
  pub seen : Set Text
  pub rows : List DisplayRow

unfoldable pub visit_all : (Text → Walk → Option Walk) → List Text → Walk → Option Walk
visit_all visit [] w = some w
visit_all visit (path ∷ paths) w = bind (visit path w) (visit_all visit paths)

abbrev pub push_row : ℕ → DerivationNode → Walk → Walk
push_row depth n w = record w { rows = w.rows ++ (record { depth = depth; node = n }) ∷ [] }

-- What `visit` does of a path that it has not seen before.
abbrev pub enter :
    Map Text DerivationNode
    → (Text → Walk → Option Walk)
    → ℕ
    → Option DerivationNode
    → Walk
    → Option Walk
enter m visit depth none w = some w
enter m visit depth (some n) w =
    bind (visit_all visit (sort_paths m n.state.inputs) w) λ w. some (push_row depth n w)

-- Each level of the recursion costs a unit of fuel.
unfoldable pub visit :
    Map Text DerivationNode → (fuel : ℕ) → (depth : ℕ) → Text → Walk → Option Walk
visit m zero depth path w = none
visit m (suc fuel) depth path w = elim (contains w.seen path) [
  | true ↦ some w
  | false ↦
      enter m (visit m fuel (depth + 1)) depth (get m path)
        (record w { seen = Set.insert w.seen path })
]

abbrev pub paths_of : List DerivationNode → List Text
paths_of = map (λ n. n.path)

-- `display_rows`; one unit of fuel more than there are nodes is enough.
unfoldable pub display_rows : List DerivationNode → (roots : List Text) → Option (List DisplayRow)
display_rows nodes roots =
    let m = by_path nodes in
    let fuel = length nodes + 1 in
    bind (visit_all (visit m fuel 0) (sort_paths m roots) (record { seen = []; rows = [] }))
      λ w. bind (visit_all (visit m fuel 0) (paths_of nodes) w) λ w. some w.rows
