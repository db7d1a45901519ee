-- ===== src/Mcp/Marked.antt =====
-- crates/mandala-mcp/src/server.rs and activity.rs: the events and the line of one call.
use mandala.Base.{
  ℕ, ◌+◌, ◌%◌, ◌^◌, ◌≡◌, refl, Bool, true, false, not, ◌||◌, Option, none, some, List, [], ◌∷◌,
  if◌then◌else◌, map, map_or, bind,
}
use mandala.Base.Order.{list_ord}
use mandala.Base.Map.{insert, get}
use mandala.Base.Result.{Result, ok, err}
use mandala.Base.Text.{Text, text}
use mandala.Base.Json.{Value, Number, as_u64, as_object, field_of}
use mandala.Mcp.Tools.{ToolError}
use mandala.Mcp.Audit.{
  is_audited, is_start, str_of, stamped, audit_event, name_of, ToolCall, start_event, settle_event,
}

abbrev pub seq_at : Value → Option ℕ
seq_at event = bind (field_of (text "seq") event) as_u64

-- The number of an event, and whether it is a start.
abbrev pub mark : Value → Option ℕ × Bool
mark event = (seq_at event, is_start (str_of (text "status") event))

-- The tool and the number of a line.
abbrev pub line_of : Value → Option Text × Option ℕ
line_of line = (str_of (text "tool") line, seq_at line)

abbrev pub next_seq : ℕ → ℕ
next_seq seq = (seq + 1) % 2 ^ 64

abbrev pub paired : (seq : ℕ) → List ToolCall → List (Option ℕ × Bool)
paired seq [] = []
paired seq (call ∷ calls) = (some seq, true) ∷ (some seq, false) ∷ paired (next_seq seq) calls

abbrev pub audited : (seq : ℕ) → List ToolCall → List (Option Text × Option ℕ)
audited seq [] = []
audited seq (call ∷ calls) =
    let rest = audited (next_seq seq) calls in
    let name = name_of call.request in
    if is_audited name then (some name, some seq) ∷ rest else rest

pub start-mark : (seq : ℕ) (call : ToolCall) → mark (start_event seq call) ≡ (some seq, true)
unfolding get insert
start-mark seq call = go call.origin
  where
    go :
        (origin : Option Text)
        → mark (start_event seq (record call { origin = origin })) ≡ (some seq, true)
    go none = refl
    go (some origin) = refl

pub settle-mark :
    (describe : ToolError → Text) (seq : ℕ) (call : ToolCall) (result : Result Value ToolError)
    → mark (settle_event describe seq call result) ≡ (some seq, false)
unfolding get insert
settle-mark describe seq call result = go result call.origin
  where
    go :
        (result : Result Value ToolError) (origin : Option Text)
        → mark (settle_event describe seq (record call { origin = origin }) result)
          ≡ (some seq, false)
    go (ok value) none = refl
    go (ok value) (some origin) = refl
    go (err e) none = refl
    go (err e) (some origin) = refl

-- The line of a settled call, if its tool is audited.
pub settle-line :
    (describe : ToolError → Text) (ts : Number) (seq : ℕ) (call : ToolCall)
    (result : Result Value ToolError)
    → map line_of
        (map_or (audit_event ts (settle_event describe seq call result)) [] (λ line. line ∷ []))
      ≡ (if is_audited (name_of call.request)
          then (some (name_of call.request), some seq) ∷ []
          else [])
unfolding audit_event get insert
settle-line describe ts seq call result = at result call.origin
  where
    name : Text
    name = name_of call.request

    noted : Bool → Value → List Value
    noted b event =
        map_or (if false || not b then none else stamped ts (as_object event)) []
          (λ line. line ∷ [])

    told :
        (b : Bool) (event : Value)
        → map line_of (noted true event) ≡ (some name, some seq) ∷ []
        → map line_of (noted b event) ≡ (if b then (some name, some seq) ∷ [] else [])
    told true event h = h
    told false event h = refl

    at :
        (result : Result Value ToolError) (origin : Option Text)
        → map line_of (
            map_or
              (audit_event ts (settle_event describe seq (record call { origin = origin }) result))
              []
              (λ line. line ∷ []))
          ≡ (if is_audited name then (some name, some seq) ∷ [] else [])
    at (ok value) none =
        told (is_audited name)
          (settle_event describe seq (record call { origin = none }) (ok value)) refl
    at (ok value) (some origin) =
        told (is_audited name)
          (settle_event describe seq (record call { origin = some origin }) (ok value)) refl
    at (err e) none =
        told (is_audited name) (settle_event describe seq (record call { origin = none }) (err e))
          refl
    at (err e) (some origin) =
        told (is_audited name)
          (settle_event describe seq (record call { origin = some origin }) (err e)) refl

pub start-line :
    (ts : Number) (seq : ℕ) (call : ToolCall) → audit_event ts (start_event seq call) ≡ none
unfolding audit_event get insert
start-line ts seq call = go call.origin
  where
    go :
        (origin : Option Text)
        → audit_event ts (start_event seq (record call { origin = origin })) ≡ none
    go none = refl
    go (some origin) = refl
