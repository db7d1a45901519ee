-- ===== src/Forest/Counts.antt =====
-- What the counts of a snapshot add up to.
use mandala.Base.{ℕ, suc, ◌+◌, ◌≡◌, ap, List, [], ◌∷◌, length, keep, map, arith, refl, true, false}
use mandala.Base.Map.{Map}
use mandala.Base.Text.{Text}
use mandala.Forest.State.{
  BuildForest, NodeState, DerivationStatus, is_failed, unknown, planned, building, downloading,
  substituting, built, failed,
}
use mandala.Forest.Snapshot.{
  DerivationNode, ForestCounts, total, count_nodes, count_status, no_counts, list_nodes,
  snapshot_nodes, snapshot_counts, failed_derivations,
}

total-count_status :
    (s : DerivationStatus) (c : ForestCounts)
    → total (count_status s c) + (count_status s c).untracked ≡ (total c + c.untracked) + 1
unfolding count_status
total-count_status unknown c = ground arith
total-count_status planned c = ground arith
total-count_status building c = ground arith
total-count_status downloading c = ground arith
total-count_status substituting c = ground arith
total-count_status built c = ground arith
total-count_status failed c = ground arith

total-count_nodes :
    (ns : List DerivationNode) (c : ForestCounts)
    → total (count_nodes ns c) + (count_nodes ns c).untracked ≡ (total c + c.untracked) + length ns
unfolding count_nodes
total-count_nodes [] c = ground arith
total-count_nodes (n ∷ ns) c =
    let step = total-count_nodes ns (count_status n.state.status c) in
    let one = total-count_status n.state.status c in omega arith

count_status_failed :
    (s : DerivationStatus) (c : ForestCounts)
    → (count_status s c).failed_count
      ≡ (elim (is_failed s) [ true ↦ c.failed_count + 1 | false ↦ c.failed_count ])
unfolding count_status
count_status_failed failed c = refl
count_status_failed _ c = refl

count_nodes_failed :
    (ns : List DerivationNode) (c : ForestCounts)
    → (count_nodes ns c).failed_count
      ≡ c.failed_count + length (keep (λ n. is_failed n.state.status) ns)
unfolding count_nodes
count_nodes_failed [] c = ground arith
count_nodes_failed (n ∷ ns) c = ground (
  arith,
  count_nodes_failed ns (count_status n.state.status c),
  count_status_failed n.state.status c,
)

length-map : (ns : List DerivationNode) → length (map (λ n. n.name) ns) ≡ length ns
length-map [] = refl
length-map (n ∷ ns) = ap suc (length-map ns)

length-list_nodes :
    (estimates : Map Text ℕ) (elapsed : ℕ) (nodes : Map Text NodeState)
    → length (list_nodes estimates elapsed nodes) ≡ length nodes
unfolding list_nodes
length-list_nodes estimates elapsed [] = refl
length-list_nodes estimates elapsed ((p, n) ∷ nodes) =
    ap suc (length-list_nodes estimates elapsed nodes)

-- The tracked and the untracked nodes of a snapshot add up to the nodes of the forest, and the
-- count of the failed ones is the number of the names that are listed as failed.
snapshot_counts-total :
    (f : BuildForest) (elapsed : ℕ)
    → (total (snapshot_counts f elapsed) + (snapshot_counts f elapsed).untracked ≡ length f.nodes)
      × ((snapshot_counts f elapsed).failed_count
          ≡ length (failed_derivations (snapshot_nodes f elapsed)))
unfolding snapshot_counts snapshot_nodes failed_derivations
snapshot_counts-total f elapsed =
    let nodes = list_nodes f.duration_estimates_ms elapsed f.nodes in
    let listed = length-list_nodes f.duration_estimates_ms elapsed f.nodes in
    (
      ground (arith, total-count_nodes nodes no_counts, listed),
      rw (length-map (keep (λ n. is_failed n.state.status) nodes))
          (ground (arith, count_nodes_failed nodes no_counts)),
    )
