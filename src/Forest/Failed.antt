-- ===== src/Forest/Failed.antt =====
-- What a record of the log does to the derivations that failed.
use mandala.Base.{
  ℕ, ◌≡◌, refl, true, false, Option, none, some, [], ◌∷◌, ◌++◌, arith, bind, get_elem?, Bool-cases,
  Option-cases, inl, inr, unwrap_or,
}
use mandala.Base.Order.{list_ord, beq}
use mandala.Base.Map.{get}
use mandala.Base.Text.{Text, text, ends_with}
use mandala.Base.Json.{as_str}
use mandala.Forest.Message.{
  ActivityType, NixMessage, message_text, activity_type, unknown, build, copy_path, file_transfer,
  substitute, other,
}
use mandala.Forest.State.{BuildForest, DerivationStatus}
use mandala.Forest.Paths.{drv_paths}
use mandala.Forest.Activity.{
  start, start_kind, start_node, mark_node, mark_transfer_node, count_unknown, activity_host,
}
use mandala.Forest.Feed.{message, is_error, feed_message, count_version}
use mandala.Forest.Sticky.{
  failed_at, names, restarts, touch_other_failed, stop_failed, result_failed, fail_all_failed,
  plan_all_failed,
}

mark_failed :
    (now : ℕ) (path : Option Text) (status : DerivationStatus) (host : Option Text)
    (f : BuildForest) (p : Text)
    → names f path p ≡ false
    → failed_at f.nodes p ≡ true
    → failed_at (mark_transfer_node now path status host f).nodes p ≡ true
unfolding mark_transfer_node names
mark_failed now none status host f p s h = h
mark_failed now (some q) status host f p s h = elim (Option-cases (get f.output_to_drv q)) [
  | inl e ↦ rw (e, mark_transfer_node) h
  | inr (d, e) ↦
      let s1 = rw (e, names) at s in
      rw (e, mark_transfer_node)
        (touch_other_failed f d p (mark_node now status host) (ground arith) h)
]

start_kind_failed :
    (now : ℕ) (kind : ActivityType) (path host : Option Text) (label : Text) (f : BuildForest)
    (p : Text)
    → names f path p ≡ false
    → failed_at f.nodes p ≡ true
    → failed_at (start_kind now kind path host label f).nodes p ≡ true
unfolding names
start_kind_failed now build none host label f p s h = h
start_kind_failed now build (some q) host label f p s h =
    elim (Bool-cases (ends_with (text ".drv") q)) [
      | inl e ↦
          rw (e, start_kind) (touch_other_failed f q p (start_node now host label) (ground arith) h)
      | inr e ↦ rw (e, start_kind) h
    ]
start_kind_failed now copy_path path host label f p s h = mark_failed now path _ host f p s h
start_kind_failed now file_transfer path host label f p s h = mark_failed now path _ host f p s h
start_kind_failed now substitute path host label f p s h = mark_failed now path _ host f p s h
start_kind_failed now _ path host label f p s h = h

names_count :
    (kind : ActivityType) (f : BuildForest) (path : Option Text) (p : Text)
    → (names (count_unknown kind f) path p ≡ names f path p)
      × ((count_unknown kind f).nodes ≡ f.nodes)
unfolding names
names_count (other code) f path p = (refl, refl)
names_count _ f path p = (refl, refl)

start_failed :
    (now : ℕ) (m : NixMessage) (f : BuildForest) (p : Text)
    → names f (bind (get_elem? m.fields 0) as_str) p ≡ false
    → failed_at f.nodes p ≡ true
    → failed_at (start now m f).nodes p ≡ true
unfolding start
start_failed now m f p s h = elim (Option-cases m.id) [
  | inl e ↦ rw (e, start) h
  | inr (id, e) ↦
      let kind = unwrap_or (activity_type m) unknown in
      let path = bind (get_elem? m.fields 0) as_str in
      let (same, nodes) = names_count kind f path p in
      rw (e, start)
        (start_kind_failed now kind path (activity_host kind m.fields) (unwrap_or m.label [])
          (count_unknown kind f) p (rw same s) (rw nodes h))
]

message_failed :
    (now : ℕ) (m : NixMessage) (f : BuildForest) (p : Text)
    → failed_at f.nodes p ≡ true
    → failed_at (message now m f).nodes p ≡ true
unfolding message
message_failed now m f p h = elim (Option-cases (message_text m)) [
  | inl e ↦ rw (e, message) h
  | inr (label, e) ↦ elim (Bool-cases (is_error m)) [
    | inl t ↦
        rw (e, t, message)
          (fail_all_failed now (drv_paths label) (record f { errors = f.errors ++ (label ∷ []) }) p
            h)
    | inr t ↦ rw (e, t, message) (plan_all_failed (drv_paths label) f p h)
  ]
]

-- A failed derivation stays failed through every record of the log, except one that starts an
-- activity whose first field is the derivation itself or an output that it is known to own.
pub feed_message_failed :
    (now : ℕ) (m : NixMessage) (f : BuildForest) (p : Text)
    → failed_at f.nodes p ≡ true
    → restarts f m p ≡ false
    → failed_at (feed_message now m f).nodes p ≡ true
unfolding feed_message restarts names
feed_message_failed now m f p h s = elim (Bool-cases (beq m.action (text "start"))) [
  | inl e ↦
      let g = count_version f in
      rw (e, feed_message) (start_failed now m g p (rw (e, restarts) at s) h)
  | inr e ↦ elim (Bool-cases (beq m.action (text "stop"))) [
    | inl e1 ↦ rw (e, e1, feed_message) (stop_failed now m.id (count_version f) p h)
    | inr e1 ↦ elim (Bool-cases (beq m.action (text "result"))) [
      | inl e2 ↦ rw (e, e1, e2, feed_message) (result_failed m (count_version f) p h)
      | inr e2 ↦ elim (Bool-cases (beq m.action (text "msg"))) [
        | inl e3 ↦ rw (e, e1, e2, e3, feed_message) (message_failed now m (count_version f) p h)
        | inr e3 ↦ rw (e, e1, e2, e3, feed_message) h
      ]
    ]
  ]
]
