-- ===== src/Forest/Activity.antt =====
-- crates/nix-build-forest/src/forest.rs: an activity that starts, and one that stops.
-- `now` is the clock, in milliseconds since the forest was made.
use mandala.Base.{ℕ, Option, none, some, List, [], if◌then◌else◌, bind, unwrap_or, get_elem?}
use mathlib.Core.Option
use mandala.Base.Order.{list_ord, nat_ord}
use mandala.Base.Map.{get, insert, remove}
use mandala.Base.Set
use mandala.Base.Set.{Set}
use mandala.Base.Int.{saturating_inc}
use mandala.Base.Text.{Text, text, is_empty, ends_with}
use mandala.Base.Json.{Value, as_str, as_u64, as_i64}
use mandala.Forest.Message.{
  ActivityType, copy_path, file_transfer, substitute, other, unknown, build, activity_ord,
  activity_from_code, activity_type, NixMessage,
}
use mandala.Forest.State.{
  NodeState, ActiveActivity, ActivityProgress, BuildForest, building, downloading, substituting,
  touch, count_one, finish_if_live, started_at, DerivationStatus,
}

abbrev pub non_empty_str : List Value → ℕ → Option Text
non_empty_str fields i =
    bind (bind (get_elem? fields i) as_str) (λ s. if is_empty s then none else some s)

abbrev pub activity_host : ActivityType → List Value → Option Text
activity_host build fields = non_empty_str fields 1
activity_host substitute fields = non_empty_str fields 1
activity_host copy_path fields = non_empty_str fields 2
activity_host _ fields = none

abbrev pub activity_endpoints : ActivityType → List Value → Option Text × Option Text
activity_endpoints copy_path fields = (non_empty_str fields 1, non_empty_str fields 2)
activity_endpoints file_transfer fields = (non_empty_str fields 0, none)
activity_endpoints substitute fields = (non_empty_str fields 1, none)
activity_endpoints _ fields = (none, none)

abbrev u64_at : List Value → ℕ → Option ℕ
u64_at fields i = bind (get_elem? fields i) as_u64

unfoldable pub activity_progress : List Value → Option ActivityProgress
activity_progress fields = bind (u64_at fields 0) λ done. bind (u64_at fields 1) λ expected.
    bind (u64_at fields 2) λ running.
      Option.map
        (λ n. record { done = done; expected = expected; running = running; failed_count = n })
        (u64_at fields 3)

abbrev pub activity_expectation : List Value → Option (ActivityType × ℕ)
activity_expectation fields =
    bind (bind (get_elem? fields 0) as_i64)
      (λ code. Option.map (λ n. (activity_from_code code, n)) (u64_at fields 1))

abbrev pub mark_node : ℕ → DerivationStatus → Option Text → NodeState → NodeState
mark_node now status host node = record node {
  status = status;
  host = host;
  started_ms = started_at now node.started_ms;
}

unfoldable pub mark_transfer_node :
    ℕ → Option Text → DerivationStatus → Option Text → BuildForest → BuildForest
mark_transfer_node now output status host f = elim (bind output (get f.output_to_drv)) [
  | none ↦ f
  | some path ↦ touch f path (mark_node now status host)
]

abbrev pub start_node : ℕ → Option Text → Text → NodeState → NodeState
start_node now host label node = record node {
  status = building;
  host = host;
  started_ms = started_at now node.started_ms;
  last_activity = if is_empty label then none else some label;
}

abbrev pub start_build : ℕ → Text → Option Text → Text → BuildForest → BuildForest
start_build now path host label f =
    let g = touch f path (start_node now host label) in
    record g { pending_drvs = Set.insert g.pending_drvs path }

abbrev pub start_kind :
    ℕ → ActivityType → Option Text → Option Text → Text → BuildForest → BuildForest
start_kind now build path host label f = elim path [
  | none ↦ f
  | some p ↦ if ends_with (text ".drv") p then start_build now p host label f else f
]
start_kind now copy_path path host label f = mark_transfer_node now path downloading host f
start_kind now file_transfer path host label f = mark_transfer_node now path downloading host f
start_kind now substitute path host label f = mark_transfer_node now path substituting host f
start_kind now _ path host label f = f

abbrev pub count_unknown : ActivityType → BuildForest → BuildForest
count_unknown (other code) f = record f {
  unknown_activity_types = count_one f.unknown_activity_types code;
}
count_unknown _ f = f

abbrev pub add_activity : ℕ → ActiveActivity → BuildForest → BuildForest
add_activity id activity f = record f { activities = insert f.activities id activity }

unfoldable pub start : ℕ → NixMessage → BuildForest → BuildForest
start now message f = elim message.id [
  | none ↦ f
  | some id ↦
      let kind = unwrap_or (activity_type message) unknown in
      let path = bind (get_elem? message.fields 0) as_str in
      let host = activity_host kind message.fields in
      let ends = activity_endpoints kind message.fields in
      let label = unwrap_or message.label [] in
      add_activity id
        (record {
          kind = kind;
          path = path;
          host = host;
          source = ends.0;
          destination = ends.1;
          progress = none;
          expectations = [];
          label = label;
        })
        (start_kind now kind path host label (count_unknown kind f))
]

abbrev pub finish_output : ℕ → Option Text → BuildForest → BuildForest
finish_output now output f = elim (bind output (get f.output_to_drv)) [
  | none ↦ f
  | some path ↦ touch f path (finish_if_live now)
]

abbrev pub stop_kind : ℕ → ActivityType → Option Text → BuildForest → BuildForest
stop_kind now build path f = elim path [ none ↦ f | some p ↦ touch f p (finish_if_live now) ]
stop_kind now copy_path path f =
    let g = finish_output now path f in
    record g { completed_downloads = saturating_inc g.completed_downloads }
stop_kind now file_transfer path f = finish_output now path f
stop_kind now substitute path f =
    let g = finish_output now path f in
    record g { completed_substitutions = saturating_inc g.completed_substitutions }
stop_kind now _ path f = f

abbrev pub drop_activity : ℕ → BuildForest → BuildForest
drop_activity id f = record f { activities = remove f.activities id }

unfoldable pub stop : ℕ → Option ℕ → BuildForest → BuildForest
stop now none f = f
stop now (some id) f = elim (get f.activities id) [
  | none ↦ f
  | some activity ↦ stop_kind now activity.kind activity.path (drop_activity id f)
]
