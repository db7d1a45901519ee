-- ===== src/Mcp/Audit.antt =====
-- crates/mandala-mcp/src/activity.rs and server.rs: the events of a call, and the trail of the
-- calls that may change the fleet. What the clock says is a part of the call.
use mandala.Base.{
  ℕ, ◌+◌, ◌%◌, ◌^◌, Bool, false, not, ◌||◌, Option, none, some, List, [], ◌∷◌, ◌++◌, if◌then◌else◌,
  any, map_or, unwrap_or, bind,
}
use mandala.Base.Order.{list_ord, beq}
use mandala.Base.Map.{Map, insert, get}
use mandala.Base.Result.{Result, ok, err}
use mandala.Base.Text.{Text, text, is_empty}
use mandala.Base.Json.{
  Value, Number, null, number, string, object, of_entries, as_object, as_str, field_of,
}
use mandala.Base.Json.Number.{pos_int}
use mandala.Mcp.Tools.{
  Request, members_tool, resolve_tool, ping_tool, reload_tool, deploy_tool, restart_service_tool,
  reboot_tool, unknown_tool, bad_arguments, ToolError, Effects, Run,
}
use mandala.Mcp.Probe.{json}
use mandala.Mcp.Dispatch.{ServerState, dispatch}

abbrev audited_tools : List Text
audited_tools = text "deploy" ∷ text "reboot" ∷ text "restart_service" ∷ text "reload" ∷ []

unfoldable pub is_audited : (tool : Text) → Bool
is_audited tool = any (λ t. beq t tool) audited_tools

abbrev pub str_of : Text → Value → Option Text
str_of key event = bind (field_of key event) as_str

abbrev pub is_start : Option Text → Bool
is_start none = false
is_start (some status) = beq status (text "start")

abbrev add_all : Map Text Value → Map Text Value → Map Text Value
add_all [] line = line
add_all ((k, v) ∷ rest) line = add_all rest (insert line k v)

abbrev pub stamped : (ts : Number) → Option (Map Text Value) → Option Value
stamped ts none = none
stamped ts (some fields) =
    some (object (of_entries (add_all fields (insert [] (text "ts") (number ts)))))

-- `audit_event`: the line that is appended, if any.
unfoldable pub audit_event : (ts : Number) → Value → Option Value
unfolding is_audited
audit_event ts event =
    if is_start (str_of (text "status") event)
      || not (is_audited (unwrap_or (str_of (text "tool") event) []))
    then none
    else stamped ts (as_object event)

abbrev summary_fields : List Text → Map Text Value → Map Text Value → Map Text Value
summary_fields [] fields summary = summary
summary_fields (key ∷ keys) fields summary =
    summary_fields keys fields (map_or (get fields key) summary (insert summary key))

abbrev filled_object : Map Text Value → Option Value
filled_object summary = if is_empty summary then none else some (object (of_entries summary))

unfoldable pub result_summary : Value → Option Value
result_summary result = bind (as_object result) (λ fields.
    filled_object (summary_fields (text "ok" ∷ text "refused" ∷ text "run_id" ∷ []) fields []))

abbrev pub with_origin : Value → Option Text → Value
with_origin event none = event
with_origin event (some origin) =
    map_or (as_object event) event
      (λ fields. object (of_entries (insert fields (text "origin") (string origin))))

abbrev pub name_of : Request → Text
name_of (members_tool full) = text "members"
name_of (resolve_tool selector) = text "resolve"
name_of (ping_tool t) = text "ping"
name_of reload_tool = text "reload"
name_of (deploy_tool t) = text "deploy"
name_of (restart_service_tool t) = text "restart_service"
name_of (reboot_tool t) = text "reboot"
name_of (unknown_tool name) = name
name_of (bad_arguments name error) = name

-- A call as it arrives, with the seconds that it takes and the time at which it has settled.
pub record ToolCall : Type 0 where
  pub origin : Option Text
  pub request : Request
  pub args : Map Text Value
  pub elapsed : Number
  pub ts : Number

abbrev pub start_event : (seq : ℕ) → ToolCall → Value
start_event seq call =
    with_origin
      (json (
        (text "tool", string (name_of call.request))
        ∷ (text "args", object (of_entries call.args))
        ∷ (text "status", string (text "start"))
        ∷ (text "detail", null)
        ∷ (text "seq", number (pos_int seq))
        ∷ []))
      call.origin

-- `describe` is the text of an error.
abbrev pub settle_event :
    (describe : ToolError → Text) → (seq : ℕ) → ToolCall → Result Value ToolError → Value
settle_event describe seq call (ok value) =
    with_origin
      (json (
        (text "tool", string (name_of call.request))
        ∷ (text "args", object (of_entries call.args))
        ∷ (text "status", string (text "ok"))
        ∷ (text "detail", null)
        ∷ (text "seq", number (pos_int seq))
        ∷ (text "elapsed", number call.elapsed)
        ∷ (text "result", unwrap_or (result_summary value) null)
        ∷ []))
      call.origin
settle_event describe seq call (err e) =
    with_origin
      (json (
        (text "tool", string (name_of call.request))
        ∷ (text "args", object (of_entries call.args))
        ∷ (text "status", string (text "error"))
        ∷ (text "detail", string (describe e))
        ∷ (text "seq", number (pos_int seq))
        ∷ (text "elapsed", number call.elapsed)
        ∷ []))
      call.origin

-- The lines that the events of a call append.
abbrev pub trail_of : (ts : Number) → List Value → List Value
trail_of ts [] = []
trail_of ts (e ∷ es) =
    let more = trail_of ts es in map_or (audit_event ts e) more (λ line. line ∷ more)

module _ (fx : Effects) (dir : Text) (describe : ToolError → Text) where
  -- `call_tool_from`: the state, the events, and what the tool did.
  unfoldable pub call_tool_from : ToolCall → ServerState → ServerState × List Value × Run Value
  call_tool_from call s =
      let next = dispatch fx dir call.request (record s { seq = (s.seq + 1) % 2 ^ 64 }) in
      (next.0, start_event s.seq call ∷ settle_event describe s.seq call next.1.1 ∷ [], next.1)

  -- The calls, one after another: the events, and the lines of the trail.
  unfoldable pub call_all : List ToolCall → ServerState → List Value × List Value
  call_all [] s = ([], [])
  call_all (call ∷ calls) s =
      let here = call_tool_from call s in
      let rest = call_all calls here.0 in (here.1 ++ rest.0, trail_of call.ts here.1 ++ rest.1)
