-- ===== src/Tui/State.antt =====
-- crates/mandala-tui/src/state.rs: `AppState` and its queries. A text that is made for the screen
-- is kept as what it is made of; the slot of the screens is not modelled.
use mandala.Base.{
  ℕ, ◌+◌, ◌%◌, ◌^◌, Bool, true, false, not, ◌&&◌, ◌||◌, Option, none, some, List, [], ◌∷◌, ◌++◌,
  if◌then◌else◌, ltb, map, ◌==◌,
}
use mandala.Base.Order.{list_ord, nat_ord}
use mandala.Base.Map.{Map, values}
use mandala.Base.Set.{Set}
use mandala.Base.Int.{ℤ}
use mandala.Base.Text.{Text, text, is_empty, join, split}
use mandala.Base.Json.{Value, Number}
use mandala.Inventory.Validate.{Inventory}
use mandala.Drift.Compare.{DriftStatus, Toplevels}
use mandala.Tui.Select.{SelectTable, reset_rows, selected_names, cursor_name}
use mandala.Tui.Scroll.{ScrollState, new_scroll}

pub data ContextRole : Type 0 where
  leader observer : ContextRole

pub record McpPending : Type 0 where
  pub tool : Text
  pub origin : Option Text
  pub args : Value

-- `label` is the status and the time, where the event has one.
pub record McpLogEntry : Type 0 where
  pub tool : Text
  pub origin : Option Text
  pub args : Value
  pub label : Text × Option Number
  pub ok : Bool
  pub detail : Option Text

pub data McpFollowUp : Type 0 where
  attach : (kind : Text) (run_id : Option Text) → McpFollowUp
  drift_landed reload_landed : McpFollowUp

pub data Tab : Type 0 where
  members groups drift_tab : Tab

abbrev pub next_tab : Tab → Tab
next_tab members = groups
next_tab groups = drift_tab
next_tab drift_tab = members

abbrev pub prev_tab : Tab → Tab
prev_tab members = drift_tab
prev_tab groups = members
prev_tab drift_tab = groups

pub record MemberRow : Type 0 where
  pub name : Text
  pub platform : Text
  pub arch : Text
  pub category : Text
  pub role : Text
  pub tags : Text
  pub surfaces : Text

pub record GroupRow : Type 0 where
  pub name : Text
  pub n : ℕ
  pub members : Text

pub record DriftRow : Type 0 where
  pub name : Text
  pub status : DriftStatus
  pub current : Text
  pub expected : Text
  pub booted : Text
  pub captured : Text

pub record LoadedInventory : Type 0 where
  pub inventory : Inventory
  pub rev : Option Text
  pub cached_rev : Option Text
  pub cached : Map Text Text

pub record LoadRequest : Type 0 where
  pub generation : ℕ
  pub fresh : Bool

-- The resting message of the status bar.
pub data Status : Type 0 where
  resting : Status
  loaded : (n_members n_groups : ℕ) → Status
  load_failed : Text → Status
  eval_failed_for : List Text → Status
  eval_failed_with : Text → Status
  drift_refreshed drift_refreshed_mcp : Status
  surveyed : ℕ → Status
  survey_failed : (rc : ℤ) (error : Text) → Status
  head_moved : Text → Status
  reloaded_mcp : Status

-- `drift_hint`.
pub data DriftHint : Type 0 where
  no_hint not_evaluated : DriftHint
  expected_at : Option Text → DriftHint
  contract_moved : (cached rev : Option Text) → DriftHint

pub record AppState : Type 0 where
  pub tab : Tab
  pub members_table : SelectTable
  pub member_rows : List MemberRow
  pub groups_table : SelectTable
  pub group_rows : List GroupRow
  pub drift_table : SelectTable
  pub drift_rows : List DriftRow
  pub drift_hint : DriftHint
  pub inventory : Option Inventory
  pub expected : Option Toplevels
  pub rev : Option Text
  pub cached_rev : Option Text
  pub generation : ℕ
  pub busy : Bool
  pub expected_eval_running : Bool
  pub expected_eval_pending : Bool
  pub reload_pending : Bool
  pub surveying : Bool
  pub survey_n : ℕ
  pub status : Status
  pub status_sticky : Bool
  pub spin : ℕ
  pub debug_mcp : Bool
  pub mcp_panel : Bool
  pub mcp_pending : Map ℕ McpPending
  pub mcp_log : List McpLogEntry
  pub mcp_scroll : ScrollState
  pub context_role : Option ContextRole
  pub mcp_client : Option Text
  pub auto_attached_runs : Set Text
  pub fresh_wanted : Bool

-- `AppState::new()`.
abbrev pub new_state : AppState
new_state = record {
  tab = members;
  members_table = reset_rows [];
  member_rows = [];
  groups_table = reset_rows [];
  group_rows = [];
  drift_table = reset_rows [];
  drift_rows = [];
  drift_hint = no_hint;
  inventory = none;
  expected = none;
  rev = none;
  cached_rev = none;
  generation = 0;
  busy = false;
  expected_eval_running = false;
  expected_eval_pending = false;
  reload_pending = false;
  surveying = false;
  survey_n = 0;
  status = resting;
  status_sticky = false;
  spin = 0;
  debug_mcp = false;
  mcp_panel = true;
  mcp_pending = [];
  mcp_log = [];
  mcp_scroll = new_scroll;
  context_role = none;
  mcp_client = none;
  auto_attached_runs = [];
  fresh_wanted = false;
}

abbrev pub table_of : Tab → AppState → SelectTable
table_of members s = s.members_table
table_of groups s = s.groups_table
table_of drift_tab s = s.drift_table

abbrev pub active_table : AppState → SelectTable
active_table s = table_of s.tab s

-- `target`: the selected names, or else the name at the cursor.
unfoldable pub target : AppState → Option Text
target s =
    let selected = selected_names (active_table s) in
    if not (is_empty selected)
    then some (join (text ",") selected)
    else cursor_name (active_table s)

abbrev pub in_groups : Tab → Bool
in_groups groups = true
in_groups _ = false

abbrev pub as_group : Text → Text
as_group group = b'@' ∷ group

abbrev pub deploy_target_of : Tab → Option Text → Option Text
deploy_target_of tab none = none
deploy_target_of tab (some target) =
    if not (in_groups tab)
    then some target
    else some (join (text ",") (map as_group (split (λ c. c == b',') target)))

-- `deploy_target`.
unfoldable pub deploy_target : AppState → Option Text
unfolding target
deploy_target s = deploy_target_of s.tab (target s)

unfoldable pub set_status : Status → (error : Bool) → AppState → AppState
set_status message error s =
    if error || not s.status_sticky then record s { status = message; status_sticky = error } else s

abbrev pub any_job_running : AppState → Bool
any_job_running s = s.busy || s.surveying || (s.debug_mcp && not (is_empty s.mcp_pending))

-- `tick_spinner`: `usize::wrapping_add`.
unfoldable pub tick_spinner : AppState → AppState × Bool
tick_spinner s =
    if any_job_running s then (record s { spin = (s.spin + 1) % 2 ^ 64 }, true) else (s, false)

-- The labels of `jobs`.
pub data Job : Type 0 where
  eval_job survey_job : Job
  survey_read : ℕ → Job
  mcp_job : Text → Job

unfoldable pub jobs : AppState → List Job
jobs s =
    (if s.busy then eval_job ∷ [] else [])
    ++ ((if s.surveying
          then (if ltb 0 s.survey_n then survey_read s.survey_n else survey_job) ∷ []
          else [])
        ++ (if s.debug_mcp then map (λ p. mcp_job p.tool) (values s.mcp_pending) else []))
