-- ===== src/Forest/Sticky.antt =====
-- A failed derivation stays failed until it is started again.
use mandala.Base.{
  ℕ, ◌≡◌, refl, Bool, true, false, ◌&&◌, ◌||◌, Option, none, some, List, [], ◌∷◌, arith, bind,
  map_or, unwrap_or, get_elem?, if◌then◌else◌, Bool-cases, Option-cases, inl, inr,
}
use mandala.Base.Order.{list_ord, nat_ord, beq, beq_iff}
use mandala.Base.Map.{Map, get, insert, get-insert}
use mandala.Base.Text.{Text, text}
use mandala.Base.Json.{Value, as_str}
use mandala.Forest.Message.{
  ActivityType, ResultType, NixMessage, result_type, build, copy_path, file_transfer, substitute,
  build_log_line, post_build_log_line, set_phase, fetch_status, progress, set_expected,
  other_result,
}
use mandala.Forest.State.{
  BuildForest, ActiveActivity, NodeState, new_node, touch, is_failed, finish_if_live,
}
use mandala.Forest.Activity.{
  stop, stop_kind, drop_activity, activity_progress, activity_expectation,
}
use mandala.Forest.Feed.{
  push_log, log_node, activity_node, set_last_activity, fail_node, plan_node, plan_one, result,
  result_kind, with_text, set_activity, set_progress, expect, count_unknown_result, find_activity,
  fail_all, plan_all,
}

unfoldable pub failed_at : Map Text NodeState → Text → Bool
failed_at nodes p = map_or (get nodes p) false (λ n. is_failed n.status)

-- The record starts an activity on the derivation, or on an output that it is known to own.
unfoldable pub names : BuildForest → Option Text → Text → Bool
names f path p =
    map_or path false λ q. beq q p || map_or (get f.output_to_drv q) false (λ d. beq d p)

unfoldable pub restarts : BuildForest → NixMessage → Text → Bool
restarts f m p = beq m.action (text "start") && names f (bind (get_elem? m.fields 0) as_str) p

abbrev KeepsFailed : (NodeState → NodeState) → Type 0
KeepsFailed change =
    (n : NodeState) → is_failed n.status ≡ true → is_failed (change n).status ≡ true

failed_insert :
    (nodes : Map Text NodeState) (q p : Text) (w : NodeState)
    → failed_at (insert nodes q w) p ≡ (if beq p q then is_failed w.status else failed_at nodes p)
unfolding failed_at
failed_insert nodes q p w = elim (Bool-cases (beq p q)) [
  | inl e ↦ rw (get-insert nodes q p w, e) refl
  | inr e ↦ rw (get-insert nodes q p w, e) refl
]

touch_failed :
    (f : BuildForest) (q p : Text) (change : NodeState → NodeState)
    → KeepsFailed change
    → failed_at f.nodes p ≡ true
    → failed_at (touch f q change).nodes p ≡ true
unfolding failed_at
touch_failed f q p change k h = elim (Bool-cases (beq p q)) [
  | inr e ↦ rw (failed_insert f.nodes q p (change (unwrap_or (get f.nodes q) new_node)), e) h
  | inl e ↦
      let same : p ≡ q = (beq_iff p q).0 e in
      elim (Option-cases (get f.nodes q)) [
        | inl g ↦ let h1 = rw (same, g) at h in absurd (ground arith)
        | inr (n, g) ↦
            rw (failed_insert f.nodes q p (change (unwrap_or (get f.nodes q) new_node)), e, g)
              (k n (rw (same, g) at h))
      ]
]

pub touch_other_failed :
    (f : BuildForest) (q p : Text) (change : NodeState → NodeState)
    → beq q p ≡ false
    → failed_at f.nodes p ≡ true
    → failed_at (touch f q change).nodes p ≡ true
touch_other_failed f q p change d h = ground (
  arith,
  failed_insert f.nodes q p (change (unwrap_or (get f.nodes q) new_node)),
  beq_iff p q,
  beq_iff q p,
)

touch_option_failed :
    (f : BuildForest) (o : Option Text) (p : Text) (change : NodeState → NodeState)
    → KeepsFailed change
    → failed_at f.nodes p ≡ true
    → failed_at (elim o as (λ _. BuildForest) [ none ↦ f | some q ↦ touch f q change ]).nodes p
      ≡ true
touch_option_failed f none p change k h = h
touch_option_failed f (some q) p change k h = touch_failed f q p change k h

finish_failed : (now : ℕ) → KeepsFailed (finish_if_live now)
finish_failed now n h = ground arith

plan_failed : KeepsFailed plan_node
plan_failed n h = ground arith

stop_kind_failed :
    (now : ℕ) (kind : ActivityType) (path : Option Text) (f : BuildForest) (p : Text)
    → failed_at f.nodes p ≡ true
    → failed_at (stop_kind now kind path f).nodes p ≡ true
stop_kind_failed now build path f p h =
    touch_option_failed f path p (finish_if_live now) (finish_failed now) h
stop_kind_failed now copy_path path f p h =
    touch_option_failed f (bind path (get f.output_to_drv)) p (finish_if_live now)
      (finish_failed now) h
stop_kind_failed now file_transfer path f p h =
    touch_option_failed f (bind path (get f.output_to_drv)) p (finish_if_live now)
      (finish_failed now) h
stop_kind_failed now substitute path f p h =
    touch_option_failed f (bind path (get f.output_to_drv)) p (finish_if_live now)
      (finish_failed now) h
stop_kind_failed now _ path f p h = h

pub stop_failed :
    (now : ℕ) (id : Option ℕ) (f : BuildForest) (p : Text)
    → failed_at f.nodes p ≡ true
    → failed_at (stop now id f).nodes p ≡ true
unfolding stop
stop_failed now none f p h = h
stop_failed now (some id) f p h = elim (Option-cases (get f.activities id)) [
  | inl e ↦ rw (e, stop) h
  | inr (a, e) ↦ rw (e, stop) (stop_kind_failed now a.kind a.path (drop_activity id f) p h)
]

push_log_failed :
    (path line : Text) (f : BuildForest) (p : Text)
    → failed_at f.nodes p ≡ true
    → failed_at (push_log path line f).nodes p ≡ true
unfolding push_log
push_log_failed path line f p h = touch_failed f path p (log_node line) (λ n k. k) h

with_text_failed :
    (path : Option Text) (fields : List Value) (change : Text → Text → BuildForest)
    (f : BuildForest) (p : Text)
    → ((q line : Text) → failed_at (change q line).nodes p ≡ true)
    → failed_at f.nodes p ≡ true
    → failed_at (with_text path fields change f).nodes p ≡ true
with_text_failed none fields change f p k h = h
with_text_failed (some q) fields change f p k h =
    elim (Option-cases (bind (get_elem? fields 0) as_str)) [
      | inl e ↦ rw (e, with_text) h
      | inr (line, e) ↦ rw (e, with_text) (k q line)
    ]

nodes_set_activity :
    (id : ℕ) (change : ActiveActivity → ActiveActivity) (f : BuildForest)
    → (set_activity id change f).nodes ≡ f.nodes
nodes_set_activity id change f = elim (Option-cases (get f.activities id)) [
  | inl e ↦ rw (e, set_activity) refl
  | inr (a, e) ↦ rw (e, set_activity) refl
]

result_kind_failed :
    (r : Option ResultType) (id : ℕ) (path : Option Text) (fields : List Value) (f : BuildForest)
    (p : Text)
    → failed_at f.nodes p ≡ true
    → failed_at (result_kind r id path fields f).nodes p ≡ true
result_kind_failed (some build_log_line) id path fields f p h =
    with_text_failed path fields _ f p (λ q l. push_log_failed q l f p h) h
result_kind_failed (some post_build_log_line) id path fields f p h =
    with_text_failed path fields _ f p (λ q l. push_log_failed q l f p h) h
result_kind_failed (some set_phase) id path fields f p h =
    with_text_failed path fields (set_last_activity f) f p
      (λ q l. touch_failed f q p (activity_node l) (λ n k. k) h) h
result_kind_failed (some fetch_status) id path fields f p h =
    with_text_failed path fields (set_last_activity f) f p
      (λ q l. touch_failed f q p (activity_node l) (λ n k. k) h) h
result_kind_failed (some progress) id path fields f p h =
    elim (Option-cases (activity_progress fields)) [
      | inl e ↦ rw (e, result_kind) h
      | inr (x, e) ↦ rw (e, result_kind, nodes_set_activity id (set_progress x) f) h
    ]
result_kind_failed (some set_expected) id path fields f p h =
    elim (Option-cases (activity_expectation fields)) [
      | inl e ↦ rw (e, result_kind) h
      | inr (x, e) ↦ rw (e, result_kind, nodes_set_activity id (expect x) f) h
    ]
result_kind_failed _ id path fields f p h = h

count_result_failed :
    (r : Option ResultType) (f : BuildForest) → (count_unknown_result r f).nodes ≡ f.nodes
count_result_failed (some (other_result code)) f = refl
count_result_failed _ f = refl

pub result_failed :
    (m : NixMessage) (f : BuildForest) (p : Text)
    → failed_at f.nodes p ≡ true
    → failed_at (result m f).nodes p ≡ true
unfolding result
result_failed m f p h =
    let g = count_unknown_result (result_type m) f in
    let counted : failed_at g.nodes p ≡ true = rw (count_result_failed (result_type m) f) h in
    elim (Option-cases (find_activity m.id g.activities)) [
      | inl e ↦ rw (e, result) counted
      | inr (x, e) ↦
          rw (e, result) (result_kind_failed (result_type m) x.0 x.1.path m.fields g p counted)
    ]

pub fail_all_failed :
    (now : ℕ) (paths : List Text) (f : BuildForest) (p : Text)
    → failed_at f.nodes p ≡ true
    → failed_at (fail_all now paths f).nodes p ≡ true
unfolding fail_all
fail_all_failed now [] f p h = h
fail_all_failed now (path ∷ paths) f p h =
    fail_all_failed now paths (touch f path (fail_node now)) p
      (touch_failed f path p (fail_node now) (λ n k. refl) h)

pub plan_all_failed :
    (paths : List Text) (f : BuildForest) (p : Text)
    → failed_at f.nodes p ≡ true
    → failed_at (plan_all paths f).nodes p ≡ true
unfolding plan_all
plan_all_failed [] f p h = h
plan_all_failed (path ∷ paths) f p h =
    plan_all_failed paths (plan_one path f) p (touch_failed f path p plan_node plan_failed h)
