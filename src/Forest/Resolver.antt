-- ===== src/Forest/Resolver.antt =====
-- crates/nix-build-forest/src/forest.rs: the reads of `.drv` files that the forest asks for.
use mandala.Base.{true, false, Option, none, some, List, [], ◌∷◌}
use mandala.Base.Order.{list_ord}
use mandala.Base.Map.{Map, insert, keys, values, contains_key}
use mandala.Base.Set
use mandala.Base.Set.{Set, extend}
use mandala.Base.Int.{saturating_inc}
use mandala.Base.Text.{Text}
use mandala.Forest.State.{BuildForest, NodeState, Derivation, touch}

-- The loop over `pop_first`: the pending paths in order, less those that were read before.
unfoldable pub uncached : Map Text (Option Derivation) → Set Text → List Text
uncached cache [] = []
uncached cache (path ∷ pending) =
    let rest = uncached cache pending in
    elim (contains_key cache path) [ true ↦ rest | false ↦ path ∷ rest ]

unfoldable pub take_pending_derivations : BuildForest → BuildForest × List Text
take_pending_derivations f = (record f { pending_drvs = [] }, uncached f.drv_cache f.pending_drvs)

unfoldable pub own_outputs : Text → List Text → BuildForest → BuildForest
own_outputs path [] f = f
own_outputs path (output ∷ outputs) f =
    own_outputs path outputs (record f { output_to_drv = insert f.output_to_drv output path })

abbrev pub keep_node : NodeState → NodeState
keep_node node = node

abbrev pub add_input : Text → BuildForest → BuildForest
add_input input f =
    let g = touch f input keep_node in
    elim (contains_key g.drv_cache input) [
      | true ↦ g
      | false ↦ record g { pending_drvs = Set.insert g.pending_drvs input }
    ]

unfoldable pub add_inputs : List Text → BuildForest → BuildForest
add_inputs [] f = f
add_inputs (input ∷ inputs) f = add_inputs inputs (add_input input f)

abbrev pub fill_node : Derivation → NodeState → NodeState
fill_node drv node = record node {
  inputs = extend node.inputs (keys drv.input_drvs);
  outputs = drv.outputs;
}

unfoldable pub backfill : Text → Derivation → BuildForest → BuildForest
backfill path drv f =
    add_inputs (keys drv.input_drvs)
      (own_outputs path (values drv.outputs) (touch f path (fill_node drv)))

abbrev pub cache_read : Text → Option Derivation → BuildForest → BuildForest
cache_read path read f = record f {
  drv_cache = insert f.drv_cache path read;
  version = saturating_inc f.version;
}

unfoldable pub apply_derivation : Text → Derivation → BuildForest → BuildForest
apply_derivation path drv f = cache_read path (some drv) (backfill path drv f)

abbrev pub note_node : Text → NodeState → NodeState
note_node note node = record node { note = some note }

unfoldable pub apply_derivation_error : Text → Text → BuildForest → BuildForest
apply_derivation_error path note f = cache_read path none (touch f path (note_node note))
