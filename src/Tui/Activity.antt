-- ===== src/Tui/Activity.antt =====
-- crates/mandala-tui/src/state.rs: the activity of the context in the state. An event is the JSON
-- value that the subscription delivers.
use mandala.Base.{
  ℕ, Bool, true, false, not, ◌&&◌, ◌||◌, Option, none, some, [], ◌∷◌, ◌++◌, if◌then◌else◌, length,
  unwrap_or, bind, is_some, map_or,
}
use mandala.Base.Last.{trimmed}
use mandala.Base.Order.{beq, list_ord, nat_ord}
use mandala.Base.Map.{Map, insert, remove}
use mandala.Base.Text.{Text, text, is_empty}
use mandala.Base.Json.{Value, null, number, Number, as_str, as_u64, as_bool, field_of, json_truthy}
use mandala.Tui.Scroll.{update_content}
use mandala.Tui.State.{
  AppState, ContextRole, leader, observer, McpPending, McpLogEntry, McpFollowUp, attach,
  drift_landed, reload_landed,
}

abbrev pub mcp_log_max : ℕ
mcp_log_max = 2000

abbrev same_client : (origin client : Option Text) → Bool
same_client (some origin) (some client) = beq origin client
same_client _ _ = false

abbrev pub is_own_of : Option ContextRole → (client origin : Option Text) → Bool
is_own_of none client origin = false
is_own_of (some leader) client origin = not (is_some origin)
is_own_of (some observer) client origin = same_client origin client

abbrev pub is_own_call : AppState → Option Text → Bool
is_own_call s origin = is_own_of s.context_role s.mcp_client origin

abbrev pub str_at : Text → Value → Option Text
str_at key event = bind (field_of key event) as_str

abbrev pub origin_of : Value → Option Text
origin_of = str_at (text "origin")

abbrev pub tool_of : Value → Text
tool_of event = unwrap_or (str_at (text "tool") event) (text "?")

abbrev pub status_of : Value → Text
status_of event = unwrap_or (str_at (text "status") event) (text "?")

abbrev pub seq_of : Value → Option ℕ
seq_of event = bind (field_of (text "seq") event) as_u64

abbrev pub args_of : Value → Value
args_of event = unwrap_or (field_of (text "args") event) null

abbrev as_number : Value → Option Number
as_number (number n) = some n
as_number _ = none

abbrev filled : Text → Option Text
filled s = if is_empty s then none else some s

abbrev pub is_start : Value → Bool
is_start event = beq (status_of event) (text "start")

abbrev pub is_ok : Value → Bool
is_ok event = beq (status_of event) (text "ok")

abbrev pub pending_of : Value → McpPending
pending_of event = record { tool = tool_of event; origin = origin_of event; args = args_of event }

abbrev pub log_entry : Value → McpLogEntry
log_entry event = record {
  tool = tool_of event;
  origin = origin_of event;
  args = args_of event;
  label = (status_of event, bind (field_of (text "elapsed") event) as_number);
  ok = is_ok event;
  detail = bind (str_at (text "detail") event) filled;
}

-- `truthy`.
abbrev truthy : Option Value → Bool
truthy none = false
truthy (some v) = json_truthy v

abbrev is_true : Option Bool → Bool
is_true (some true) = true
is_true _ = false

-- The run that the result of a launch names.
abbrev attach_to : (kind : Text) → Option Value → Option McpFollowUp
attach_to kind none = some (attach kind none)
attach_to kind (some null) = some (attach kind none)
attach_to kind (some result) =
    if is_true (bind (field_of (text "ok") result) as_bool)
    then bind (bind (str_at (text "run_id") result) filled)
        (λ run_id. some (attach kind (some run_id)))
    else none

-- What the runtime must do once a call has ended well.
unfoldable pub follow_up : Value → Option McpFollowUp
follow_up event =
    let tool = tool_of event in
    let args = args_of event in
    if beq tool (text "deploy") || beq tool (text "reboot")
    then attach_to tool (field_of (text "result") event)
    else if beq tool (text "drift")
        && (truthy (field_of (text "refresh") args) || truthy (field_of (text "do_eval") args))
    then some drift_landed
    else if beq tool (text "reload")
    then some reload_landed
    else none

abbrev pub insert_pending : Value → Map ℕ McpPending → Map ℕ McpPending
insert_pending event pending =
    map_or (seq_of event) pending (λ seq. insert pending seq (pending_of event))

abbrev pub remove_pending : Value → Map ℕ McpPending → Map ℕ McpPending
remove_pending event pending = map_or (seq_of event) pending (remove pending)

abbrev pub push_log : McpLogEntry → AppState → AppState
push_log entry s =
    let log = trimmed mcp_log_max (s.mcp_log ++ (entry ∷ [])) in
    record s { mcp_log = log; mcp_scroll = update_content (length log) s.mcp_scroll }

unfoldable pub on_mcp_activity : Value → AppState → AppState × Option McpFollowUp
unfolding follow_up
on_mcp_activity event s =
    if is_own_call s (origin_of event)
    then (s, none)
    else if is_start event
    then (record s { mcp_pending = insert_pending event s.mcp_pending }, none)
    else (
      push_log (log_entry event) (record s { mcp_pending = remove_pending event s.mcp_pending }),
      if is_ok event then follow_up event else none,
    )
