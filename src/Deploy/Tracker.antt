-- ===== src/Deploy/Tracker.antt =====
-- crates/mandala-core/src/engines/deploy.rs: the counters of the batch build. A counter grows by
-- one for a line that was read, and so stays far below 2^63.
use mandala.Base.{
  ℕ, ◌+◌, Bool, true, false, ◌&&◌, ◌||◌, Option, none, some, List, [], ◌∷◌, ◌++◌, if◌then◌else◌,
  ltb, ◌==◌, bind, map_or, unwrap_or, is_some, get_elem?,
}
use mandala.Base.Order.{list_ord, beq}
use mandala.Base.Map.{Map, get, insert, remove, values}
use mandala.Base.Int.{ℤ, pos, int_eq, int_ord}
use mandala.Base.Text.{
  Text, text, is_empty, byte_len, strip_prefix, strip_suffix, after_last, split_once,
}
use mandala.Base.Json.{Value, number, string, field_of, as_str, as_i64, as_array}
use mandala.Base.Json.Number.{pos_int}

abbrev basename : Text → Text
basename path = unwrap_or (after_last b'/' path) path

abbrev named : Text → Option (Text × Text) → Text
named base none = base
named base (some (hash, name)) = if byte_len hash == 32 then name else base

unfoldable pub derivation_name : Text → Text
derivation_name path =
    let base = unwrap_or (strip_suffix (text ".drv") (basename path)) (basename path) in
    named base (split_once b'-' base)

pub record BuildTracker : Type 0 where
  pub built : ℕ
  pub finished : ℕ
  pub fetched : ℕ
  pub fetched_done : ℕ
  pub errors : ℕ
  pub current : Text
  pub running : Map ℤ Text
  pub error_messages : List Text

abbrev pub new_tracker : BuildTracker
new_tracker = record {
  built = 0;
  finished = 0;
  fetched = 0;
  fetched_done = 0;
  errors = 0;
  current = [];
  running = [];
  error_messages = [];
}

unfoldable pub int_at : Text → Value → Option ℤ
int_at key event = bind (field_of key event) as_i64

abbrev pub is_code : ℕ → Option ℤ → Bool
is_code code found = map_or found false (int_eq (pos code))

unfoldable pub first_field : Value → Text
first_field event =
    unwrap_or
      (bind (bind (bind (field_of (text "fields") event) as_array) (λ fs. get_elem? fs 0)) as_str)
      []

abbrev pub start_build : Value → ℤ → BuildTracker → BuildTracker
start_build event id t =
    let name = derivation_name (first_field event) in
    record t { current = name; running = insert t.running id name; built = t.built + 1 }

abbrev pub start_id : Value → Option ℤ → BuildTracker → BuildTracker × Bool
start_id event none t = (t, false)
start_id event (some id) t = (start_build event id t, true)

abbrev pub is_copy : Option ℤ → Bool
is_copy event_type = is_code 100 event_type || is_code 103 event_type

abbrev pub start_copy : Option ℤ → BuildTracker → BuildTracker × Bool
start_copy event_type t =
    if is_copy event_type then (record t { fetched = t.fetched + 1 }, true) else (t, false)

abbrev pub start : Value → BuildTracker → BuildTracker × Bool
start event t =
    if is_code 105 (int_at (text "type") event)
    then start_id event (int_at (text "id") event) t
    else start_copy (int_at (text "type") event) t

abbrev first_or : List Text → Text → Text
first_or [] current = current
first_or (name ∷ names) current = name

-- The two branches of a stop: of a build that runs, or of anything else.
abbrev pub stop_build : ℤ → BuildTracker → BuildTracker
stop_build id t =
    let rest = remove t.running id in
    record t {
      running = rest;
      finished = t.finished + 1;
      current = first_or (values rest) t.current;
    }

abbrev pub stop_other : BuildTracker → BuildTracker × Bool
stop_other t =
    if ltb t.fetched_done t.fetched
    then (record t { fetched_done = t.fetched_done + 1 }, true)
    else (t, false)

abbrev pub stop : Option ℤ → BuildTracker → BuildTracker × Bool
stop none t = stop_other t
stop (some id) t = if is_some (get t.running id) then (stop_build id t, true) else stop_other t

abbrev or_else : Option Value → Option Value → Option Value
or_else (some v) w = some v
or_else none w = w

unfoldable pub message_of : Value → Text
message_of event =
    unwrap_or
      (bind
        (or_else (or_else (field_of (text "raw_msg") event) (field_of (text "msg") event))
          (field_of (text "text") event))
        as_str)
      []

abbrev pub note_error : Text → BuildTracker → BuildTracker
note_error message t =
    if is_empty message
    then t
    else record t { errors = t.errors + 1; error_messages = t.error_messages ++ (message ∷ []) }

unfoldable pub action_of : Value → Text
action_of event = unwrap_or (bind (field_of (text "action") event) as_str) []

abbrev pub is_error : Value → Bool
is_error event = beq (action_of event) (text "msg") && is_code 0 (int_at (text "level") event)

abbrev pub feed_message : Value → BuildTracker → BuildTracker × Bool
feed_message event t =
    if is_error event then (note_error (message_of event) t, false) else (t, false)

abbrev pub feed_stop : Value → BuildTracker → BuildTracker × Bool
feed_stop event t =
    if beq (action_of event) (text "stop")
    then stop (int_at (text "id") event) t
    else feed_message event t

abbrev pub feed_event : Value → BuildTracker → BuildTracker × Bool
feed_event event t =
    if beq (action_of event) (text "start") then start event t else feed_stop event t

-- The Boolean says whether the counters of the build have moved; the parser of JSON is serde's.
unfoldable pub feed : (Text → Option Value) → Text → BuildTracker → BuildTracker × Bool
feed from_str line t = elim (bind (strip_prefix (text "@nix ") line) from_str) [
  | none ↦ (t, false)
  | some event ↦ feed_event event t
]

unfoldable pub feed_all : (Text → Option Value) → List Text → BuildTracker → BuildTracker
feed_all from_str [] t = t
feed_all from_str (line ∷ lines) t = feed_all from_str lines (feed from_str line t).0

-- The fields of a progress event, in key order.
unfoldable pub fields : BuildTracker → Map Text Value
fields t =
    (text "built", number (pos_int t.built))
    ∷ (text "current", string t.current)
    ∷ (text "errors", number (pos_int t.errors))
    ∷ (text "fetched", number (pos_int t.fetched))
    ∷ (text "fetched_done", number (pos_int t.fetched_done))
    ∷ (text "finished", number (pos_int t.finished))
    ∷ []
