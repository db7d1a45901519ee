-- ===== src/Forest/Reachable.antt =====
-- The states that a forest goes through, and what holds in each of them.
use mandala.Base.{
  ℕ, ◌≡◌, refl, true, Option, none, some, List, [], ◌∷◌, arith, Bool-cases, inl, inr,
}
use mandala.Base.Order.{list_ord, beq}
use mandala.Base.Map.{Map, get, keys, values, contains_key}
use mandala.Base.Set.{contains}
use mandala.Base.Text.{Text, text}
use mandala.Base.Result.{Result, ok, err}
use mandala.Forest.Message.{NixMessage, parse_nix_line}
use mandala.Forest.State.{BuildForest, Derivation, touch, with_duration_estimates}
use mandala.Forest.Feed.{feed_message, feed_line, feed_outcome, count_version}
use mandala.Forest.Resolver.{
  own_outputs, add_inputs, add_input, backfill, apply_derivation, apply_derivation_error, keep_node,
  fill_node, note_node, take_pending_derivations,
}
use mandala.Forest.WellFormed.{
  IsWellFormed, touch-IsWellFormed, pending-IsWellFormed, owner-IsWellFormed, cache-IsWellFormed,
  known_touch, known_insert,
}
use mandala.Forest.Preserved.{
  start-IsWellFormed, stop-IsWellFormed, result-IsWellFormed, message-IsWellFormed,
}

pub feed_message-IsWellFormed :
    (now : ℕ) (m : NixMessage) (f : BuildForest)
    → IsWellFormed f
    → IsWellFormed (feed_message now m f)
unfolding feed_message
feed_message-IsWellFormed now m f w = elim (Bool-cases (beq m.action (text "start"))) [
  | inl e ↦ rw (e, feed_message) (start-IsWellFormed now m (count_version f) w)
  | inr e ↦ elim (Bool-cases (beq m.action (text "stop"))) [
    | inl e1 ↦ rw (e, e1, feed_message) (stop-IsWellFormed now m.id (count_version f) w)
    | inr e1 ↦ elim (Bool-cases (beq m.action (text "result"))) [
      | inl e2 ↦ rw (e, e1, e2, feed_message) (result-IsWellFormed m (count_version f) w)
      | inr e2 ↦ elim (Bool-cases (beq m.action (text "msg"))) [
        | inl e3 ↦ rw (e, e1, e2, e3, feed_message) (message-IsWellFormed now m (count_version f) w)
        | inr e3 ↦ rw (e, e1, e2, e3, feed_message) w
      ]
    ]
  ]
]

feed_line-IsWellFormed :
    (from_str : Text → Option NixMessage) (now : ℕ) (line : Text) (f : BuildForest)
    → IsWellFormed f
    → IsWellFormed (feed_line from_str now line f).0
unfolding feed_line
feed_line-IsWellFormed from_str now line f w = go (parse_nix_line from_str line)
  where
    go : (r : Result (Option NixMessage) Text) → IsWellFormed (feed_outcome now f r).0
    go (ok (some m)) = feed_message-IsWellFormed now m f w
    go (ok none) = w
    go (err e) = w

own_outputs-IsWellFormed :
    (path : Text) (outputs : List Text) (f : BuildForest)
    → contains_key f.nodes path ≡ true
    → IsWellFormed f
    → IsWellFormed (own_outputs path outputs f)
unfolding own_outputs
own_outputs-IsWellFormed path [] f h w = w
own_outputs-IsWellFormed path (output ∷ outputs) f h w =
    own_outputs-IsWellFormed path outputs _ h (owner-IsWellFormed f output path h w)

add_inputs-IsWellFormed :
    (inputs : List Text) (f : BuildForest) → IsWellFormed f → IsWellFormed (add_inputs inputs f)
unfolding add_inputs
add_inputs-IsWellFormed [] f w = w
add_inputs-IsWellFormed (input ∷ inputs) f w =
    let touched = touch-IsWellFormed f input keep_node (λ n h. h) w in
    add_inputs-IsWellFormed inputs (add_input input f)
      (elim (Bool-cases (contains_key f.drv_cache input)) [
        | inl e ↦ rw (e, add_input) touched
        | inr e ↦
            rw (e, add_input)
              (pending-IsWellFormed (touch f input keep_node) input (known_touch f.nodes input _)
                touched)
      ])

known_add_inputs :
    (inputs : List Text) (f : BuildForest) (p : Text)
    → contains_key f.nodes p ≡ true
    → contains_key (add_inputs inputs f).nodes p ≡ true
unfolding add_inputs
known_add_inputs [] f p h = h
known_add_inputs (input ∷ inputs) f p h =
    known_add_inputs inputs (add_input input f) p
      (elim (Bool-cases (contains_key f.drv_cache input)) [
        | inl e ↦ rw (e, add_input) (known_insert f.nodes input p _ h)
        | inr e ↦ rw (e, add_input) (known_insert f.nodes input p _ h)
      ])

nodes_own_outputs :
    (path : Text) (outputs : List Text) (f : BuildForest)
    → (own_outputs path outputs f).nodes ≡ f.nodes
unfolding own_outputs
nodes_own_outputs path [] f = refl
nodes_own_outputs path (output ∷ outputs) f = nodes_own_outputs path outputs _

apply_derivation-IsWellFormed :
    (path : Text) (drv : Derivation) (f : BuildForest)
    → IsWellFormed f
    → IsWellFormed (apply_derivation path drv f)
unfolding apply_derivation backfill
apply_derivation-IsWellFormed path drv f w =
    let g = touch f path (fill_node drv) in
    let known : contains_key g.nodes path ≡ true = known_touch f.nodes path _ in
    let owned = own_outputs path (values drv.outputs) g in
    let known1 : contains_key owned.nodes path ≡ true =
      rw (nodes_own_outputs path (values drv.outputs) g) known in
    cache-IsWellFormed (backfill path drv f) path (some drv)
      (known_add_inputs (keys drv.input_drvs) owned path known1)
      (add_inputs-IsWellFormed (keys drv.input_drvs) owned (
        own_outputs-IsWellFormed path (values drv.outputs) g known
          (touch-IsWellFormed f path (fill_node drv) (λ n h. h) w)))

apply_derivation_error-IsWellFormed :
    (path note : Text) (f : BuildForest)
    → IsWellFormed f
    → IsWellFormed (apply_derivation_error path note f)
unfolding apply_derivation_error
apply_derivation_error-IsWellFormed path note f w =
    cache-IsWellFormed (touch f path (note_node note)) path none (known_touch f.nodes path _)
      (touch-IsWellFormed f path (note_node note) (λ n h. h) w)

take_pending-IsWellFormed :
    (f : BuildForest) → IsWellFormed f → IsWellFormed (take_pending_derivations f).0
unfolding take_pending_derivations contains
take_pending-IsWellFormed f w = record {
  pending_known = λ p h. absurd (ground arith);
  cached_known = w.cached_known;
  owners_known = w.owners_known;
  tails_bounded = w.tails_bounded;
  recent_bounded = w.recent_bounded;
}

-- The states of a forest that is fed lines, and whose pending reads are taken and answered.
module _ (from_str : Text → Option NixMessage) where
  pub data Reachable : BuildForest → Type 0 where
    begin : (estimates : Map Text ℕ) → Reachable (with_duration_estimates estimates)
    fed :
        (now : ℕ) (line : Text) (f : BuildForest)
        → Reachable f
        → Reachable (feed_line from_str now line f).0
    taken : (f : BuildForest) → Reachable f → Reachable (take_pending_derivations f).0
    read :
        (path : Text) (drv : Derivation) (f : BuildForest)
        → Reachable f
        → Reachable (apply_derivation path drv f)
    unread :
        (path note : Text) (f : BuildForest)
        → Reachable f
        → Reachable (apply_derivation_error path note f)

  begin-IsWellFormed : (estimates : Map Text ℕ) → IsWellFormed (with_duration_estimates estimates)
  unfolding contains get
  begin-IsWellFormed estimates = record {
    pending_known = λ p h. absurd (ground arith);
    cached_known = λ p h. absurd (ground arith);
    owners_known = λ o p h. absurd (ground arith);
    tails_bounded = λ p n h. absurd (ground arith);
    recent_bounded = ground arith;
  }

  -- In every reachable state each path that is pending, that was read, or that owns an output is
  -- a node of the forest, each node keeps at most 64 lines of log, and the forest at most 256.
  pub Reachable-IsWellFormed : (f : BuildForest) → Reachable f → IsWellFormed f
  Reachable-IsWellFormed _ (begin estimates) = begin-IsWellFormed estimates
  Reachable-IsWellFormed _ (fed now line f r) =
      feed_line-IsWellFormed from_str now line f (Reachable-IsWellFormed f r)
  Reachable-IsWellFormed _ (taken f r) = take_pending-IsWellFormed f (Reachable-IsWellFormed f r)
  Reachable-IsWellFormed _ (read path drv f r) =
      apply_derivation-IsWellFormed path drv f (Reachable-IsWellFormed f r)
  Reachable-IsWellFormed _ (unread path note f r) =
      apply_derivation_error-IsWellFormed path note f (Reachable-IsWellFormed f r)
