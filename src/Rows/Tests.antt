-- ===== src/Rows/Tests.antt =====
-- Runs of the projection.
use mandala.Base.{ℕ, ◌+◌, ◌≡◌, refl, Option, none, some, List, [], ◌∷◌, length}
use mandala.Base.Order.{list_ord}
use mandala.Base.Map
use mandala.Base.Set
use mandala.Base.Set.{count, contains, extend}
use mandala.Base.Text.{Text, text}
use mandala.Forest.State.{DerivationStatus, new_node, planned, building, built}
use mandala.Forest.Snapshot.{DerivationNode}
use mandala.Rows.Display.{
  DisplayRow, display_rows, index_nodes, visit, visit_all, sort_paths, insert_sorted, paths_of,
}
use mandala.Rows.Visited.{row_paths, one}
use mandala.Rows.Complete.{display_rows-shows}
use mandala.Rows.Project.{
  ActivityProjection, activity_projection, add_parents, add_parent, close, offer, fill_planned,
  count_elided, total_elided,
}
use mandala.Rows.Shown.{active, consumer}
use mandala.Rows.Accounted.{activity_projection-shows, activity_projection-accounts}

abbrev node_of : Text → DerivationStatus → List Text → DerivationNode
node_of path status inputs = record {
  path = path;
  name = path;
  state = record new_node { status = status; inputs = inputs };
  eta_seconds = none;
}

-- `a` needs `b`, which builds and, in a cycle, needs `a`; `c` and `d` are built.
abbrev nodes : List DerivationNode
nodes =
    node_of (text "a") planned (text "b" ∷ [])
    ∷ node_of (text "b") building (text "a" ∷ text "c" ∷ [])
    ∷ node_of (text "c") built []
    ∷ node_of (text "d") built []
    ∷ []

abbrev names : Option ActivityProjection → Option (List Text × ℕ)
names none = none
names (some p) = some (row_paths p.rows, total_elided p.elided)

two_rows : names (activity_projection nodes (text "a" ∷ []) 1) ≡ some (text "b" ∷ text "a" ∷ [], 2)
unfolding activity_projection display_rows visit visit_all sort_paths insert_sorted index_nodes
    Map.insert Map.get Set.insert contains extend add_parents add_parent close offer fill_planned
    count_elided
two_rows = refl

display_rows-shows_example :
    (rows : List DisplayRow) × (display_rows nodes (text "a" ∷ []) ≡ some rows)
    × ((q : Text) → count q (row_paths rows) ≡ one (contains (paths_of nodes) q))
display_rows-shows_example = display_rows-shows nodes (text "a" ∷ [])

activity_projection-shows_example :
    (p : ActivityProjection) × (activity_projection nodes (text "a" ∷ []) 1 ≡ some p)
    × (count (text "a") (row_paths p.rows) ≡ 1)
unfolding contains
activity_projection-shows_example =
    activity_projection-shows nodes (text "a" ∷ []) 1 (text "a")
      (consumer (text "a") (text "b") (active (text "b") refl) refl)

activity_projection-accounts_example :
    (p : ActivityProjection) × (activity_projection nodes (text "a" ∷ []) 1 ≡ some p)
    × (length p.rows + total_elided p.elided ≡ 4)
activity_projection-accounts_example =
    activity_projection-accounts nodes (text "a" ∷ []) 1
      (((refl, (refl, (refl, tt))), ((refl, (refl, tt)), ((refl, tt), (tt, tt)))))
