-- ===== src/Forest/State.antt =====
-- crates/nix-build-forest/src/forest.rs: `BuildForest` and what it holds.
use mandala.Base.{
  ℕ, ◌+◌, ◌%◌, ◌^◌, Bool, true, false, Option, none, some, List, [], ◌∷◌, ◌++◌, if◌then◌else◌, ◌==◌,
  length, drop, unwrap_or,
}
use mandala.Base.Order.{list_ord}
use mandala.Base.Map.{Map, upsert}
use mandala.Base.Set.{Set}
use mandala.Base.Int.{ℤ, int_ord}
use mandala.Base.Text.{Text}
use mandala.Forest.Message.{ActivityType}

pub data DerivationStatus : Type 0 where
  unknown planned building downloading substituting built failed : DerivationStatus

abbrev pub is_failed : DerivationStatus → Bool
is_failed failed = true
is_failed _ = false

abbrev pub is_unknown : DerivationStatus → Bool
is_unknown unknown = true
is_unknown _ = false

pub record ActivityProgress : Type 0 where
  pub done : ℕ
  pub expected : ℕ
  pub running : ℕ
  pub failed_count : ℕ

pub record BuildLogLine : Type 0 where
  pub derivation : Text
  pub name : Text
  pub line : Text

-- `drv::Derivation`: the outputs and the inputs of a parsed `.drv` file.
pub record Derivation : Type 0 where
  pub outputs : Map Text Text
  pub input_drvs : Map Text (List Text)

pub record NodeState : Type 0 where
  pub status : DerivationStatus
  pub inputs : Set Text
  pub outputs : Map Text Text
  pub host : Option Text
  pub last_activity : Option Text
  pub log_tail : List Text
  pub note : Option Text
  pub started_ms : Option ℕ
  pub finished_ms : Option ℕ

abbrev pub new_node : NodeState
new_node = record {
  status = unknown;
  inputs = [];
  outputs = [];
  host = none;
  last_activity = none;
  log_tail = [];
  note = none;
  started_ms = none;
  finished_ms = none;
}

pub record ActiveActivity : Type 0 where
  pub kind : ActivityType
  pub path : Option Text
  pub host : Option Text
  pub source : Option Text
  pub destination : Option Text
  pub progress : Option ActivityProgress
  pub expectations : Map ActivityType ℕ
  pub label : Text

pub record BuildForest : Type 0 where
  pub version : ℕ
  pub nodes : Map Text NodeState
  pub output_to_drv : Map Text Text
  pub activities : Map ℕ ActiveActivity
  pub pending_drvs : Set Text
  pub drv_cache : Map Text (Option Derivation)
  pub errors : List Text
  pub unknown_activity_types : Map ℤ ℕ
  pub unknown_result_types : Map ℤ ℕ
  pub unknown_actions : ℕ
  pub malformed_messages : ℕ
  pub ignored_lines : ℕ
  pub completed_downloads : ℕ
  pub completed_substitutions : ℕ
  pub duration_estimates_ms : Map Text ℕ
  pub recent_logs : List BuildLogLine
  pub log_sequence : ℕ

abbrev pub with_duration_estimates : Map Text ℕ → BuildForest
with_duration_estimates estimates = record {
  version = 0;
  nodes = [];
  output_to_drv = [];
  activities = [];
  pending_drvs = [];
  drv_cache = [];
  errors = [];
  unknown_activity_types = [];
  unknown_result_types = [];
  unknown_actions = 0;
  malformed_messages = 0;
  ignored_lines = 0;
  completed_downloads = 0;
  completed_substitutions = 0;
  duration_estimates_ms = estimates;
  recent_logs = [];
  log_sequence = 0;
}

abbrev pub new_forest : BuildForest
new_forest = with_duration_estimates []

-- `+= 1` on a `u64` of a release build.
abbrev pub count_one : Map ℤ ℕ → ℤ → Map ℤ ℕ
count_one m code = upsert m code 0 (λ n. (n + 1) % 2 ^ 64)

-- `self.nodes.entry(path).or_default()`, changed in place.
abbrev pub touch : BuildForest → Text → (NodeState → NodeState) → BuildForest
touch f path change = record f { nodes = upsert f.nodes path new_node change }

-- The front of the queue is at the head of the list.
abbrev pub push_bounded {ℓ} : {A : Type ℓ} → List A → A → ℕ → List A
push_bounded queue v limit = (if length queue == limit then drop 1 queue else queue) ++ (v ∷ [])

abbrev pub derivation_log_tail_limit : ℕ
derivation_log_tail_limit = 64

abbrev pub recent_log_limit : ℕ
recent_log_limit = 256

abbrev pub finish_if_live : ℕ → NodeState → NodeState
finish_if_live now node =
    if is_failed node.status then node else record node { status = built; finished_ms = some now }

abbrev pub started_at : ℕ → Option ℕ → Option ℕ
started_at now before = some (unwrap_or before now)
