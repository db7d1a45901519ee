-- ===== src/Forest/WellFormed.antt =====
-- The invariant of `BuildForest`, over the five fields that it reads, and its preservation by the
-- steps that the handlers are made of.
use mandala.Base.{
  ℕ, ◌≤◌, ◌≡◌, inl, inr, true, ◌||◌, Option, some, List, [], ◌∷◌, ◌==◌, length, drop, arith,
  unwrap_or, length-append, length-drop, Bool-cases, Option-cases,
}
use mandala.Base.Order.{list_ord, beq, beq_iff}
use mandala.Base.Map.{Map, get, insert, upsert, contains_key, get-insert}
use mandala.Base.Set
use mandala.Base.Set.{Set, contains, contains-insert}
use mandala.Base.Text.{Text}
use mandala.Forest.State.{
  BuildForest, BuildLogLine, Derivation, NodeState, new_node, push_bounded, touch,
  derivation_log_tail_limit, recent_log_limit,
}

abbrev pub KnownPaths : Map Text NodeState → Set Text → Type 0
KnownPaths nodes pending = (p : Text) → contains pending p ≡ true → contains_key nodes p ≡ true

abbrev pub Tails : Map Text NodeState → Type 0
Tails nodes =
    (p : Text) (n : NodeState)
    → get nodes p ≡ some n
    → length n.log_tail ≤ derivation_log_tail_limit

pub record WellFormed (nodes : Map Text NodeState) (pending : Set Text)
    (cache : Map Text (Option Derivation)) (owners : Map Text Text) (recent : List BuildLogLine)
    : Type 0 where
  pub pending_known : (p : Text) → contains pending p ≡ true → contains_key nodes p ≡ true
  pub cached_known : (p : Text) → contains_key cache p ≡ true → contains_key nodes p ≡ true
  pub owners_known : (output p : Text) → get owners output ≡ some p → contains_key nodes p ≡ true
  pub tails_bounded : Tails nodes
  pub recent_bounded : length recent ≤ recent_log_limit

-- Each path that is pending, that was read or that owns an output is a node, and the logs keep to
-- their bounds.
abbrev pub IsWellFormed : BuildForest → Type 0
IsWellFormed f = WellFormed f.nodes f.pending_drvs f.drv_cache f.output_to_drv f.recent_logs

pub length-push_bounded {ℓ} :
    {A : Type ℓ} (queue : List A) (v : A) (limit : ℕ)
    → 1 ≤ limit
    → length queue ≤ limit
    → length (push_bounded queue v limit) ≤ limit
length-push_bounded queue v limit h k = elim (Bool-cases (length queue == limit)) [
  | inl e ↦ rw (e, length-append (drop 1 queue) (v ∷ []), length-drop 1 queue) (ground arith)
  | inr e ↦ rw (e, length-append queue (v ∷ [])) (ground arith)
]

pub contains_key-insert {ℓ} :
    {V : Type ℓ} (m : Map Text V) (q p : Text) (w : V)
    → contains_key (insert m q w) p ≡ (beq p q || contains_key m p)
contains_key-insert m q p w = ground (arith, get-insert m q p w)

pub known_insert {ℓ} :
    {V : Type ℓ} (m : Map Text V) (q p : Text) (w : V)
    → contains_key m p ≡ true
    → contains_key (insert m q w) p ≡ true
known_insert m q p w h = ground (arith, contains_key-insert m q p w)

pub known_touch {ℓ} :
    {V : Type ℓ} (m : Map Text V) (p : Text) (w : V) → contains_key (insert m p w) p ≡ true
known_touch m p w = ground (arith, contains_key-insert m p p w, beq_iff p p)

-- A change of a node that keeps to the bound of its log.
abbrev pub KeepsTail : (NodeState → NodeState) → Type 0
KeepsTail change =
    (n : NodeState)
    → length n.log_tail ≤ derivation_log_tail_limit
    → length (change n).log_tail ≤ derivation_log_tail_limit

touch-Tails :
    (nodes : Map Text NodeState) (path : Text) (change : NodeState → NodeState)
    → KeepsTail change
    → Tails nodes
    → Tails (upsert nodes path new_node change)
touch-Tails nodes path change k t p n e = elim (Bool-cases (beq p path)) [
  | inl same ↦
      let here : some (change (unwrap_or (get nodes path) new_node)) ≡ some n =
        rw (get-insert nodes path p (change (unwrap_or (get nodes path) new_node)), same) at e in
      elim (Option-cases (get nodes path)) [
        | inl q ↦ let at_new = rw q at here in ground (arith, k new_node)
        | inr (m, q) ↦ let at_old = rw q at here in ground (arith, k m, t path m q)
      ]
  | inr other ↦
      t p n
        (rw (get-insert nodes path p (change (unwrap_or (get nodes path) new_node)), other) at e)
]

pub touch-IsWellFormed :
    (f : BuildForest) (path : Text) (change : NodeState → NodeState)
    → KeepsTail change
    → IsWellFormed f
    → IsWellFormed (touch f path change)
touch-IsWellFormed f path change k w =
    let known = known_insert f.nodes path in
    record {
      pending_known = λ p h. known p _ (w.pending_known p h);
      cached_known = λ p h. known p _ (w.cached_known p h);
      owners_known = λ output p h. known p _ (w.owners_known output p h);
      tails_bounded = touch-Tails f.nodes path change k w.tails_bounded;
      recent_bounded = w.recent_bounded;
    }

-- A path that is a node may be asked for.
pub pending-IsWellFormed :
    (f : BuildForest) (path : Text)
    → contains_key f.nodes path ≡ true
    → IsWellFormed f
    → IsWellFormed (record f { pending_drvs = Set.insert f.pending_drvs path })
pending-IsWellFormed f path h w = record {
  pending_known = λ p c.
      ground (arith, contains-insert f.pending_drvs path p, beq_iff p path, w.pending_known p);
  cached_known = w.cached_known;
  owners_known = w.owners_known;
  tails_bounded = w.tails_bounded;
  recent_bounded = w.recent_bounded;
}

pub owner-IsWellFormed :
    (f : BuildForest) (output path : Text)
    → contains_key f.nodes path ≡ true
    → IsWellFormed f
    → IsWellFormed (record f { output_to_drv = insert f.output_to_drv output path })
owner-IsWellFormed f output path h w = record {
  owners_known = λ o p e. elim (Bool-cases (beq o output)) [
    | inl same ↦ let e1 = rw (get-insert f.output_to_drv output o path, same) at e in ground arith
    | inr other ↦ w.owners_known o p (rw (get-insert f.output_to_drv output o path, other) at e)
  ];
  pending_known = w.pending_known;
  cached_known = w.cached_known;
  tails_bounded = w.tails_bounded;
  recent_bounded = w.recent_bounded;
}

pub cache-IsWellFormed :
    (f : BuildForest) (path : Text) (read : Option Derivation)
    → contains_key f.nodes path ≡ true
    → IsWellFormed f
    → IsWellFormed (record f { drv_cache = insert f.drv_cache path read })
cache-IsWellFormed f path read h w = record {
  cached_known = λ p c.
      ground (arith, contains_key-insert f.drv_cache path p read, beq_iff p path, w.cached_known p);
  pending_known = w.pending_known;
  owners_known = w.owners_known;
  tails_bounded = w.tails_bounded;
  recent_bounded = w.recent_bounded;
}
