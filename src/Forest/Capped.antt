-- ===== src/Forest/Capped.antt =====
-- The node list of a snapshot, bounded: the failed and the active nodes come first.
use mandala.Base.{ℕ, zero, suc, ◌+◌, ◌≡◌, true, false, List, [], ◌∷◌, ◌++◌, ◌==◌}
use mandala.Forest.Snapshot.{DerivationNode, tier}

abbrev tier_of : DerivationNode → ℕ
tier_of n = tier n.state.status

unfoldable pub in_tier : ℕ → List DerivationNode → List DerivationNode
in_tier t [] = []
in_tier t (n ∷ ns) =
    let rest = in_tier t ns in elim (tier_of n == t) [ true ↦ n ∷ rest | false ↦ rest ]

-- The nodes of `count` tiers from `t` on, each tier in the order of the list.
unfoldable pub tiers : (count t : ℕ) → List DerivationNode → List DerivationNode
tiers zero t ns = []
tiers (suc count) t ns = in_tier t ns ++ tiers count (t + 1) ns

abbrev At : ℕ → DerivationNode → Type 0
At t n = tier_of n ≡ t
