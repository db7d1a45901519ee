-- ===== src/Rows/Complete.antt =====
-- crates/nix-build-forest/src/sort.rs: the rows that `display_rows` comes to.
use mandala.Base.{
  ◌+◌, ◌≤◌, ◌≡◌, refl, not, ◌||◌, some, List, [], ◌∷◌, length, arith, length-keep-le,
}
use mandala.Base.Order.{list_ord, beq_iff}
use mandala.Base.Map
use mandala.Base.Map.{Map, get, get-insert, length-insert, keys, contains_key}
use mandala.Base.Set.{contains, count}
use mandala.Base.Text.{Text}
use mandala.Forest.Snapshot.{DerivationNode}
use mandala.Rows.Display.{
  DisplayRow, Walk, index_nodes, by_path, sort_paths, visit, paths_of, display_rows,
}
use mandala.Rows.Visited.{
  row_paths, one, Advances-unseen, visit_all-Advances, IsIndexed, visit-Reaches,
}

index_nodes-IsIndexed :
    (ns : List DerivationNode) (m : Map Text DerivationNode)
    → IsIndexed m
    → IsIndexed (index_nodes ns m)
unfolding index_nodes
index_nodes-IsIndexed [] m h = h
index_nodes-IsIndexed (n ∷ ns) m h =
    index_nodes-IsIndexed ns (Map.insert m n.path n)
      (λ q k e. ground (arith, get-insert m n.path q n, (beq_iff q n.path).0, h q k))

pub by_path-IsIndexed : (ns : List DerivationNode) → IsIndexed (by_path ns)
unfolding get
by_path-IsIndexed ns = index_nodes-IsIndexed ns [] (λ q n e. absurd (cc e))

contains_key-index_nodes :
    (ns : List DerivationNode) (m : Map Text DerivationNode) (q : Text)
    → contains_key (index_nodes ns m) q ≡ (contains (paths_of ns) q || contains_key m q)
unfolding index_nodes contains
contains_key-index_nodes [] m q = refl
contains_key-index_nodes (n ∷ ns) m q =
    ground (arith, contains_key-index_nodes ns (Map.insert m n.path n) q, get-insert m n.path q n)

pub contains_key-by_path :
    (ns : List DerivationNode) (q : Text) → contains_key (by_path ns) q ≡ contains (paths_of ns) q
unfolding get
contains_key-by_path ns q = ground (arith, contains_key-index_nodes ns [] q)

length-index_nodes :
    (ns : List DerivationNode) (m : Map Text DerivationNode)
    → length (keys (index_nodes ns m)) ≤ length ns + length (keys m)
unfolding index_nodes
length-index_nodes [] m = omega arith
length-index_nodes (n ∷ ns) m =
    omega (arith, length-index_nodes ns (Map.insert m n.path n), length-insert m n.path n)

-- The rows are found, and they show each node, once: as many rows have a path as there are nodes
-- with it, where nodes with the same path count as one, and no row has another path. So the walk
-- ends, whatever the inputs of the nodes are, cycles among them, and whatever the roots.
pub display_rows-shows :
    (nodes : List DerivationNode) (roots : List Text)
    → (rows : List DisplayRow) × (display_rows nodes roots ≡ some rows)
      × ((q : Text) → count q (row_paths rows) ≡ one (contains (paths_of nodes) q))
unfolding display_rows contains
display_rows-shows nodes roots =
    let m = by_path nodes in
    let start : Walk = record { seen = []; rows = [] } in
    let fuel = length nodes + 1 in
    let reaches = visit-Reaches m (by_path-IsIndexed nodes) fuel 0 in
    let few = length-index_nodes nodes [] in
    let all_unseen = length-keep-le (λ k. not (contains [] k)) (keys m) in
    let (v, e, first, _) =
      visit_all-Advances m (visit m fuel 0) fuel reaches (sort_paths m roots) start (omega arith) in
    let fewer = Advances-unseen m start v first in
    let (w, f, second, found) =
      visit_all-Advances m (visit m fuel 0) fuel reaches (paths_of nodes) v (omega arith) in
    (
      w.rows,
      rw e (rw f refl),
      λ q.
          ground
            (arith, first.balanced q, second.balanced q, contains_key-by_path nodes q, found q),
    )
