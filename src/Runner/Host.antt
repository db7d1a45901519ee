-- ===== src/Runner/Host.antt =====
-- crates/mandala-core/src/runner.rs: the state machine of one host.
use mandala.Base.{
  ℕ, Bool, true, false, not, ◌&&◌, Option, none, some, List, [], ◌∷◌, ◌++◌, if◌then◌else◌, leb,
  length, drop, bind, unwrap_or,
}
use mandala.Base.Order.{list_ord, beq}
use mandala.Base.Int.{ℤ, pos, int_eq}
use mandala.Base.Text.{Text, text}
use mandala.Base.Json.{Value, field_of, as_str, as_i64}

abbrev pub max_lines : ℕ
max_lines = 2000

pub data HostState : Type 0 where
  pending evaluating building copying activating waiting confirmed : HostState
  reboot_pending rolled_back failed : HostState

unfoldable pub milestone_state : Text → Option HostState
milestone_state name =
    if beq name (text "eval")
    then some evaluating
    else if beq name (text "build")
    then some building
    else if beq name (text "copy")
    then some copying
    else if beq name (text "activate")
    then some activating
    else if beq name (text "wait")
    then some waiting
    else if beq name (text "confirm")
    then some confirmed
    else if beq name (text "reboot-pending")
    then some reboot_pending
    else if beq name (text "rollback")
    then some rolled_back
    else none

abbrev pub is_terminal : HostState → Bool
is_terminal confirmed = true
is_terminal reboot_pending = true
is_terminal rolled_back = true
is_terminal failed = true
is_terminal _ = false

-- The front of the deque is at the head of the list.
abbrev pub push_capped : List Text → Text → ℕ → List Text
push_capped dq s cap = (if leb cap (length dq) then drop 1 dq else dq) ++ (s ∷ [])

pub record HostRun : Type 0 where
  pub name : Text
  pub state : HostState
  pub lines : List Text
  pub milestones : List Text
  pub rc : Option ℤ

abbrev pub new_host : Text → HostRun
new_host name = record { name = name; state = pending; lines = []; milestones = []; rc = none }

-- The string behind a key of an event.
unfoldable pub str_of : Text → Value → Option Text
str_of key event = bind (field_of key event) as_str

unfoldable pub int_of : Text → Value → Option ℤ
int_of key event = bind (field_of key event) as_i64

-- The arms of the match of `feed`.
pub data EventKind : Type 0 where
  line milestone done skipped : EventKind

unfoldable pub kind_of : Value → EventKind
kind_of event = elim (str_of (text "event") event) [
  | none ↦ skipped
  | some kind ↦
      if beq kind (text "line")
      then line
      else if beq kind (text "milestone")
      then milestone
      else if beq kind (text "status")
      then (elim (str_of (text "state") event) [
        | none ↦ skipped
        | some state ↦ if beq state (text "done") then done else skipped
      ])
      else skipped
]

abbrev pub line_of : Value → Text
line_of event = unwrap_or (str_of (text "line") event) []

abbrev pub milestone_of : Value → Text
milestone_of event = unwrap_or (str_of (text "milestone") event) []

abbrev pub reach : HostState → Option HostState → HostState
reach state none = state
reach state (some rolled_back) = rolled_back
reach state (some next) = if is_terminal state then state else next

-- `!matches!(rc, Some(0) | None)`.
abbrev pub is_failure : Option ℤ → Bool
is_failure none = false
is_failure (some rc) = not (int_eq rc (pos 0))

abbrev pub finish : HostState → Option ℤ → HostState
finish state rc = if is_failure rc && not (is_terminal state) then failed else state

abbrev pub feed_kind : EventKind → HostRun → Value → HostRun
feed_kind line host event = record host { lines = push_capped host.lines (line_of event) max_lines }
feed_kind milestone host event = record host {
  state = reach host.state (milestone_state (milestone_of event));
  milestones = host.milestones ++ (milestone_of event ∷ []);
}
feed_kind done host event = record host {
  state = finish host.state (int_of (text "rc") event);
  rc = int_of (text "rc") event;
}
feed_kind skipped host event = host

unfoldable pub feed : HostRun → Value → HostRun
feed host event = feed_kind (kind_of event) host event

unfoldable pub feed_all : HostRun → List Value → HostRun
feed_all host [] = host
feed_all host (event ∷ events) = feed_all (feed host event) events
