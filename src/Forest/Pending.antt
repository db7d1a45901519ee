-- ===== src/Forest/Pending.antt =====
-- The reads that a forest asks for, and the roots of its graph.
use mandala.Base.{◌≡◌, refl, not, ◌&&◌, ◌||◌, Option, List, [], ◌∷◌, any, arith}
use mandala.Base.Order.{list_ord, beq_iff}
use mandala.Base.Map.{Map, keys, values, contains_key, contains-keys}
use mandala.Base.Set.{Set, contains, extend, contains-extend, contains-keep}
use mandala.Base.Text.{Text}
use mandala.Forest.State.{BuildForest, Derivation, NodeState}
use mandala.Forest.Resolver.{uncached, take_pending_derivations}
use mandala.Forest.Snapshot.{parents, roots}

contains-uncached :
    (cache : Map Text (Option Derivation)) (pending : List Text) (p : Text)
    → contains (uncached cache pending) p ≡ (contains pending p && not (contains_key cache p))
unfolding uncached contains
contains-uncached cache [] p = refl
contains-uncached cache (q ∷ pending) p =
    ground (arith, contains-uncached cache pending p, beq_iff p q)

-- A taken path was pending and was never read before, every such path is taken, and afterwards
-- none is pending.
pub take_pending-takes :
    (f : BuildForest)
    → ((p : Text)
        → contains (take_pending_derivations f).1 p
          ≡ (contains f.pending_drvs p && not (contains_key f.drv_cache p)))
      × ((take_pending_derivations f).0.pending_drvs ≡ [])
unfolding take_pending_derivations
take_pending-takes f = (contains-uncached f.drv_cache f.pending_drvs, refl)

contains-parents :
    (nodes : List NodeState) (found : Set Text) (p : Text)
    → contains (parents nodes found) p ≡ (contains found p || any (λ n. contains n.inputs p) nodes)
unfolding parents
contains-parents [] found p = ground arith
contains-parents (n ∷ nodes) found p =
    ground
      (arith, contains-parents nodes (extend found n.inputs) p, contains-extend n.inputs found p)

-- The roots of a snapshot are the nodes that are an input of no node.
contains-roots :
    (f : BuildForest) (p : Text)
    → contains (roots f) p
      ≡ (contains_key f.nodes p && not (any (λ n. contains n.inputs p) (values f.nodes)))
unfolding roots contains
contains-roots f p =
    rw
      (
        contains-keep (λ path. not (contains (parents (values f.nodes) []) path)) (keys f.nodes) p,
        contains-keys f.nodes p,
        contains-parents (values f.nodes) [] p,
        contains,
      )
      refl
