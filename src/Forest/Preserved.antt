-- ===== src/Forest/Preserved.antt =====
-- Every operation of the forest keeps `IsWellFormed`.
use mandala.Base.{
  ℕ, Option, none, some, List, [], ◌∷◌, arith, bind, get_elem?, Option-cases, Bool-cases, inl, inr,
}
use mandala.Base.Order.{list_ord, nat_ord}
use mandala.Base.Map.{get}
use mandala.Base.Text.{Text, text, ends_with}
use mandala.Base.Json.{Value, as_str}
use mandala.Forest.Message.{
  ActivityType, NixMessage, ResultType, result_type, message_text, build, copy_path, file_transfer,
  substitute, other, build_log_line, post_build_log_line, set_phase, fetch_status, progress,
  set_expected, other_result,
}
use mandala.Forest.State.{
  BuildForest, DerivationStatus, NodeState, touch, finish_if_live, ActiveActivity,
  derivation_log_tail_limit, recent_log_limit,
}
use mandala.Forest.Paths.{drv_paths}
use mandala.Forest.Activity.{
  start, start_kind, start_build, mark_node, start_node, stop, stop_kind, mark_transfer_node,
  count_unknown, activity_progress, activity_expectation,
}
use mandala.Forest.Feed.{
  set_progress, expect, set_last_activity, push_log, log_node, activity_node, fail_node, plan_node,
  result, result_kind, with_text, set_activity, count_unknown_result, find_activity, fail_all,
  plan_all, plan_one, message, is_error,
}
use mandala.Forest.WellFormed.{
  IsWellFormed, KeepsTail, touch-IsWellFormed, pending-IsWellFormed, known_touch,
  length-push_bounded,
}

finish_keeps : (now : ℕ) → KeepsTail (finish_if_live now)
finish_keeps now n h = ground arith

touch_option-IsWellFormed :
    (f : BuildForest) (o : Option Text) (change : NodeState → NodeState)
    → KeepsTail change
    → IsWellFormed f
    → IsWellFormed (elim o [ none ↦ f | some path ↦ touch f path change ])
touch_option-IsWellFormed f none change k w = w
touch_option-IsWellFormed f (some path) change k w = touch-IsWellFormed f path change k w

mark-IsWellFormed :
    (now : ℕ) (output : Option Text) (status : DerivationStatus) (host : Option Text)
    (f : BuildForest)
    → IsWellFormed f
    → IsWellFormed (mark_transfer_node now output status host f)
unfolding mark_transfer_node
mark-IsWellFormed now output status host f w =
    touch_option-IsWellFormed f (bind output (get f.output_to_drv)) (mark_node now status host)
      (λ n h. h) w

start_build-IsWellFormed :
    (now : ℕ) (path : Text) (host : Option Text) (label : Text) (f : BuildForest)
    → IsWellFormed f
    → IsWellFormed (start_build now path host label f)
start_build-IsWellFormed now path host label f w =
    pending-IsWellFormed (touch f path (start_node now host label)) path
      (known_touch f.nodes path _)
      (touch-IsWellFormed f path (start_node now host label) (λ n h. h) w)

start_kind-IsWellFormed :
    (now : ℕ) (kind : ActivityType) (path host : Option Text) (label : Text) (f : BuildForest)
    → IsWellFormed f
    → IsWellFormed (start_kind now kind path host label f)
start_kind-IsWellFormed now build none host label f w = w
start_kind-IsWellFormed now build (some p) host label f w =
    elim (Bool-cases (ends_with (text ".drv") p)) [
      | inl e ↦ rw (e, start_kind) (start_build-IsWellFormed now p host label f w)
      | inr e ↦ rw (e, start_kind) w
    ]
start_kind-IsWellFormed now copy_path path host label f w = mark-IsWellFormed now path _ host f w
start_kind-IsWellFormed now file_transfer path host label f w =
    mark-IsWellFormed now path _ host f w
start_kind-IsWellFormed now substitute path host label f w = mark-IsWellFormed now path _ host f w
start_kind-IsWellFormed now _ path host label f w = w

count_unknown-IsWellFormed :
    (kind : ActivityType) (f : BuildForest) → IsWellFormed f → IsWellFormed (count_unknown kind f)
count_unknown-IsWellFormed (other code) f w = w
count_unknown-IsWellFormed _ f w = w

pub start-IsWellFormed :
    (now : ℕ) (m : NixMessage) (f : BuildForest) → IsWellFormed f → IsWellFormed (start now m f)
unfolding start
start-IsWellFormed now m f w = elim (Option-cases m.id) [
  | inl e ↦ rw (e, start) w
  | inr (id, e) ↦
      rw (e, start) (start_kind-IsWellFormed now _ _ _ _ _ (count_unknown-IsWellFormed _ f w))
]

stop_kind-IsWellFormed :
    (now : ℕ) (kind : ActivityType) (path : Option Text) (f : BuildForest)
    → IsWellFormed f
    → IsWellFormed (stop_kind now kind path f)
stop_kind-IsWellFormed now build path f w =
    touch_option-IsWellFormed f path (finish_if_live now) (finish_keeps now) w
stop_kind-IsWellFormed now copy_path path f w =
    touch_option-IsWellFormed f (bind path (get f.output_to_drv)) (finish_if_live now)
      (finish_keeps now) w
stop_kind-IsWellFormed now file_transfer path f w =
    touch_option-IsWellFormed f (bind path (get f.output_to_drv)) (finish_if_live now)
      (finish_keeps now) w
stop_kind-IsWellFormed now substitute path f w =
    touch_option-IsWellFormed f (bind path (get f.output_to_drv)) (finish_if_live now)
      (finish_keeps now) w
stop_kind-IsWellFormed now _ path f w = w

pub stop-IsWellFormed :
    (now : ℕ) (id : Option ℕ) (f : BuildForest) → IsWellFormed f → IsWellFormed (stop now id f)
unfolding stop
stop-IsWellFormed now none f w = w
stop-IsWellFormed now (some id) f w = elim (Option-cases (get f.activities id)) [
  | inl e ↦ rw (e, stop) w
  | inr (activity, e) ↦ rw (e, stop) (stop_kind-IsWellFormed now activity.kind activity.path _ w)
]

push_log-IsWellFormed :
    (path line : Text) (f : BuildForest) → IsWellFormed f → IsWellFormed (push_log path line f)
unfolding push_log
push_log-IsWellFormed path line f w =
    let touched =
      touch-IsWellFormed f path (log_node line)
        (λ n h. length-push_bounded n.log_tail line derivation_log_tail_limit (ground arith) h) w in
    record {
      pending_known = touched.pending_known;
      cached_known = touched.cached_known;
      owners_known = touched.owners_known;
      tails_bounded = touched.tails_bounded;
      recent_bounded =
          length-push_bounded f.recent_logs _ recent_log_limit (ground arith) w.recent_bounded;
    }

with_text-IsWellFormed :
    (path : Option Text) (fields : List Value) (change : Text → Text → BuildForest)
    (f : BuildForest)
    → ((p line : Text) → IsWellFormed (change p line))
    → IsWellFormed f
    → IsWellFormed (with_text path fields change f)
with_text-IsWellFormed none fields change f k w = w
with_text-IsWellFormed (some p) fields change f k w =
    elim (Option-cases (bind (get_elem? fields 0) as_str)) [
      | inl e ↦ rw (e, with_text) w
      | inr (line, e) ↦ rw (e, with_text) (k p line)
    ]

set_activity-IsWellFormed :
    (id : ℕ) (change : ActiveActivity → ActiveActivity) (f : BuildForest)
    → IsWellFormed f
    → IsWellFormed (set_activity id change f)
set_activity-IsWellFormed id change f w = elim (Option-cases (get f.activities id)) [
  | inl e ↦ rw (e, set_activity) w
  | inr (activity, e) ↦ rw (e, set_activity) w
]

result_kind-IsWellFormed :
    (r : Option ResultType) (id : ℕ) (path : Option Text) (fields : List Value) (f : BuildForest)
    → IsWellFormed f
    → IsWellFormed (result_kind r id path fields f)
result_kind-IsWellFormed (some build_log_line) id path fields f w =
    with_text-IsWellFormed path fields _ f (λ p l. push_log-IsWellFormed p l f w) w
result_kind-IsWellFormed (some post_build_log_line) id path fields f w =
    with_text-IsWellFormed path fields _ f (λ p l. push_log-IsWellFormed p l f w) w
result_kind-IsWellFormed (some set_phase) id path fields f w =
    with_text-IsWellFormed path fields (set_last_activity f) f
      (λ p l. touch-IsWellFormed f p (activity_node l) (λ n h. h) w) w
result_kind-IsWellFormed (some fetch_status) id path fields f w =
    with_text-IsWellFormed path fields (set_last_activity f) f
      (λ p l. touch-IsWellFormed f p (activity_node l) (λ n h. h) w) w
result_kind-IsWellFormed (some progress) id path fields f w =
    elim (Option-cases (activity_progress fields)) [
      | inl e ↦ rw (e, result_kind) w
      | inr (p, e) ↦ rw (e, result_kind) (set_activity-IsWellFormed id (set_progress p) f w)
    ]
result_kind-IsWellFormed (some set_expected) id path fields f w =
    elim (Option-cases (activity_expectation fields)) [
      | inl e ↦ rw (e, result_kind) w
      | inr (p, e) ↦ rw (e, result_kind) (set_activity-IsWellFormed id (expect p) f w)
    ]
result_kind-IsWellFormed _ id path fields f w = w

count_result-IsWellFormed :
    (r : Option ResultType) (f : BuildForest)
    → IsWellFormed f
    → IsWellFormed (count_unknown_result r f)
count_result-IsWellFormed (some (other_result code)) f w = w
count_result-IsWellFormed _ f w = w

pub result-IsWellFormed :
    (m : NixMessage) (f : BuildForest) → IsWellFormed f → IsWellFormed (result m f)
unfolding result
result-IsWellFormed m f w =
    let counted = count_result-IsWellFormed (result_type m) f w in
    elim (Option-cases (find_activity m.id (count_unknown_result (result_type m) f).activities)) [
      | inl e ↦ rw (e, result) counted
      | inr (p, e) ↦
          rw (e, result) (result_kind-IsWellFormed (result_type m) p.0 p.1.path m.fields _ counted)
    ]

fail_all-IsWellFormed :
    (now : ℕ) (paths : List Text) (f : BuildForest)
    → IsWellFormed f
    → IsWellFormed (fail_all now paths f)
unfolding fail_all
fail_all-IsWellFormed now [] f w = w
fail_all-IsWellFormed now (path ∷ paths) f w =
    fail_all-IsWellFormed now paths _ (touch-IsWellFormed f path (fail_node now) (λ n h. h) w)

plan_keeps : KeepsTail plan_node
plan_keeps n h = ground arith

plan_all-IsWellFormed :
    (paths : List Text) (f : BuildForest) → IsWellFormed f → IsWellFormed (plan_all paths f)
unfolding plan_all
plan_all-IsWellFormed [] f w = w
plan_all-IsWellFormed (path ∷ paths) f w = plan_all-IsWellFormed paths (plan_one path f) (
    pending-IsWellFormed (touch f path plan_node) path (known_touch f.nodes path _)
      (touch-IsWellFormed f path plan_node plan_keeps w))

pub message-IsWellFormed :
    (now : ℕ) (m : NixMessage) (f : BuildForest) → IsWellFormed f → IsWellFormed (message now m f)
unfolding message
message-IsWellFormed now m f w = elim (Option-cases (message_text m)) [
  | inl e ↦ rw (e, message) w
  | inr (label, e) ↦ elim (Bool-cases (is_error m)) [
    | inl t ↦ rw (e, message, t) (fail_all-IsWellFormed now (drv_paths label) _ w)
    | inr t ↦ rw (e, message, t) (plan_all-IsWellFormed (drv_paths label) f w)
  ]
]
