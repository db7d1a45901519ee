-- ===== src/Forest/Feed.antt =====
-- crates/nix-build-forest/src/forest.rs: `feed_line` and the handlers of the records of the log.
-- `now` is the clock, in milliseconds since the forest was made.
use mandala.Base.{
  ℕ, ◌+◌, ◌%◌, ◌^◌, Bool, false, Option, none, some, List, [], ◌∷◌, ◌++◌, if◌then◌else◌, bind,
  map_or, get_elem?,
}
use mathlib.Core.Option
use mandala.Base.Order.{list_ord, nat_ord, beq}
use mandala.Base.Map.{Map, get, insert}
use mandala.Base.Set
use mandala.Base.Set.{Set}
use mandala.Base.Int.{pos, int_eq, saturating_inc}
use mandala.Base.Text.{Text, text}
use mandala.Base.Json.{Value, as_str}
use mandala.Base.Result.{Result, ok, err}
use mandala.Forest.Message.{
  ResultType, build_log_line, post_build_log_line, set_phase, fetch_status, progress, set_expected,
  other_result, activity_ord, result_type, message_text, NixMessage, parse_nix_line,
}
use mandala.Forest.Paths.{derivation_name, drv_paths}
use mandala.Forest.Message.{ActivityType}
use mandala.Forest.State.{
  ActivityProgress, NodeState, ActiveActivity, BuildForest, planned, failed, is_unknown, touch,
  count_one, push_bounded, derivation_log_tail_limit, recent_log_limit,
}
use mandala.Forest.Activity.{start, stop, activity_progress, activity_expectation}

abbrev pub log_node : Text → NodeState → NodeState
log_node line node = record node {
  last_activity = some line;
  log_tail = push_bounded node.log_tail line derivation_log_tail_limit;
}

unfoldable pub push_log : Text → Text → BuildForest → BuildForest
push_log path line f =
    let g = touch f path (log_node line) in
    record g {
      recent_logs =
          push_bounded g.recent_logs
            (record { derivation = path; name = derivation_name path; line = line })
            recent_log_limit;
      log_sequence = saturating_inc g.log_sequence;
    }

-- The `if let` on the path of the activity and on the first field.
abbrev pub with_text :
    Option Text → List Value → (Text → Text → BuildForest) → BuildForest → BuildForest
with_text path fields change f = elim path [
  | none ↦ f
  | some p ↦ elim (bind (get_elem? fields 0) as_str) [ none ↦ f | some line ↦ change p line ]
]

abbrev pub set_activity : ℕ → (ActiveActivity → ActiveActivity) → BuildForest → BuildForest
set_activity id change f = elim (get f.activities id) [
  | none ↦ f
  | some activity ↦ record f { activities = insert f.activities id (change activity) }
]

abbrev pub activity_node : Text → NodeState → NodeState
activity_node line node = record node { last_activity = some line }

abbrev pub set_last_activity : BuildForest → Text → Text → BuildForest
set_last_activity f path line = touch f path (activity_node line)

abbrev pub set_progress : ActivityProgress → ActiveActivity → ActiveActivity
set_progress p activity = record activity { progress = some p }

abbrev pub expect : ActivityType × ℕ → ActiveActivity → ActiveActivity
expect p activity = record activity { expectations = insert activity.expectations p.0 p.1 }

abbrev pub result_kind :
    Option ResultType → ℕ → Option Text → List Value → BuildForest → BuildForest
result_kind (some build_log_line) id path fields f = with_text path fields (λ p l. push_log p l f) f
result_kind (some post_build_log_line) id path fields f =
    with_text path fields (λ p l. push_log p l f) f
result_kind (some set_phase) id path fields f = with_text path fields (set_last_activity f) f
result_kind (some fetch_status) id path fields f = with_text path fields (set_last_activity f) f
result_kind (some progress) id path fields f = elim (activity_progress fields) [
  | none ↦ f
  | some p ↦ set_activity id (set_progress p) f
]
result_kind (some set_expected) id path fields f = elim (activity_expectation fields) [
  | none ↦ f
  | some p ↦ set_activity id (expect p) f
]
result_kind _ id path fields f = f

abbrev pub count_unknown_result : Option ResultType → BuildForest → BuildForest
count_unknown_result (some (other_result code)) f = record f {
  unknown_result_types = count_one f.unknown_result_types code;
}
count_unknown_result _ f = f

abbrev pub find_activity : Option ℕ → Map ℕ ActiveActivity → Option (ℕ × ActiveActivity)
find_activity none activities = none
find_activity (some id) activities = Option.map (λ a. (id, a)) (get activities id)

unfoldable pub result : NixMessage → BuildForest → BuildForest
result message f =
    let g = count_unknown_result (result_type message) f in
    elim (find_activity message.id g.activities) [
      | none ↦ g
      | some p ↦ result_kind (result_type message) p.0 p.1.path message.fields g
    ]

abbrev pub fail_node : ℕ → NodeState → NodeState
fail_node now node = record node { status = failed; finished_ms = some now }

unfoldable pub fail_all : ℕ → List Text → BuildForest → BuildForest
fail_all now [] f = f
fail_all now (path ∷ paths) f = fail_all now paths (touch f path (fail_node now))

abbrev pub plan_node : NodeState → NodeState
plan_node node = if is_unknown node.status then record node { status = planned } else node

abbrev pub plan_one : Text → BuildForest → BuildForest
plan_one path f =
    let g = touch f path plan_node in record g { pending_drvs = Set.insert g.pending_drvs path }

unfoldable pub plan_all : List Text → BuildForest → BuildForest
plan_all [] f = f
plan_all (path ∷ paths) f = plan_all paths (plan_one path f)

abbrev pub is_error : NixMessage → Bool
is_error message = map_or message.level false (int_eq (pos 0))

unfoldable pub message : ℕ → NixMessage → BuildForest → BuildForest
message now m f = elim (message_text m) [
  | none ↦ f
  | some label ↦
      if is_error m
      then fail_all now (drv_paths label) (record f { errors = f.errors ++ (label ∷ []) })
      else plan_all (drv_paths label) f
]

abbrev pub count_version : BuildForest → BuildForest
count_version f = record f { version = saturating_inc f.version }

unfoldable pub feed_message : ℕ → NixMessage → BuildForest → BuildForest
feed_message now m f =
    let g = count_version f in
    if beq m.action (text "start")
    then start now m g
    else if beq m.action (text "stop")
    then stop now m.id g
    else if beq m.action (text "result")
    then result m g
    else if beq m.action (text "msg")
    then message now m g
    else record g { unknown_actions = saturating_inc g.unknown_actions }

pub data FeedOutcome : Type 0 where
  ignored accepted malformed : FeedOutcome

-- The match on what `parse_nix_line` returns.
abbrev pub feed_outcome :
    ℕ → BuildForest → Result (Option NixMessage) Text → BuildForest × FeedOutcome
feed_outcome now f (ok (some m)) = (feed_message now m f, accepted)
feed_outcome now f (ok none) =
    (record f { ignored_lines = (f.ignored_lines + 1) % 2 ^ 64 }, ignored)
feed_outcome now f (err e) =
    (record f { malformed_messages = (f.malformed_messages + 1) % 2 ^ 64 }, malformed)

unfoldable pub feed_line :
    (Text → Option NixMessage) → ℕ → Text → BuildForest → BuildForest × FeedOutcome
feed_line from_str now line f = feed_outcome now f (parse_nix_line from_str line)
