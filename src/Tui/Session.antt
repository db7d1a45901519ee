-- ===== src/Tui/Session.antt =====
-- crates/mandala-tui/src/app.rs: the part of `App` that starts the background jobs which the
-- transitions of the state ask for, and feeds their results back.
use mandala.Base.{ℕ, Bool, true, false, Option, none, some, List, [], ◌∷◌}
use mandala.Base.Map.{Map}
use mandala.Base.Int.{ℤ}
use mandala.Base.Result.{Result}
use mandala.Base.Text.{Text}
use mandala.Drift.Compare.{Snapshot, Toplevels}
use mandala.Tui.State.{
  AppState, ContextRole, new_state, LoadedInventory, LoadRequest, head_moved, reloaded_mcp,
  set_status,
}
use mandala.Tui.Activity.{on_mcp_activity}
use mandala.Base.Json.{Value}
use mandala.Tui.Load.{
  Step, request_load, request_reload, request_inventory_swap, on_load_finished,
  on_drift_eval_finished, on_survey_progress, on_survey_done, on_mcp_drift_landed,
  start_pending_eval_expected, refresh_drift, after_mutation,
}

-- The job that holds the slot of evaluations.
pub data Running : Type 0 where
  idle evaluating : Running
  loading : LoadRequest → Running

pub record Session : Type 0 where
  pub state : AppState
  pub running : Running

-- What reaches the application. A load comes back with the generation of its request. What an
-- activity asks for reaches it as an event of its own.
pub data Event : Type 0 where
  reload inventory_swapped refresh : Event
  repo_head_changed : Text → Event
  mutation_closed : Option ℤ → Event
  load_finished : Result LoadedInventory Text → Map Text Snapshot → Event
  drift_eval_finished : Result (Option Text × Toplevels) Text → Map Text Snapshot → Event
  survey_progress : ℕ → Event
  survey_done : ℕ → ℤ → Option Text → Map Text Snapshot → Event
  mcp_activity : Value → Event
  role_changed : ContextRole → Event
  mcp_drift_landed : (rev cached_rev : Option Text) → Map Text Text → Map Text Snapshot → Event

-- `start_load`, where a load is asked for.
abbrev pub started : Running → Step → Session
started running (s, some req) = record { state = s; running = loading req }
started running (s, none) = record { state = s; running = running }

abbrev pub evaluates : Running → Bool → Running
evaluates running true = evaluating
evaluates running false = running

abbrev pub pending_started : AppState × Bool → Session
pending_started (s, started) = record { state = s; running = evaluates idle started }

-- The end of `on_app_event` for a load that has settled.
abbrev pub load_settled : Step → Session
load_settled (s, some req) = record { state = s; running = loading req }
load_settled (s, none) = pending_started (start_pending_eval_expected s)

abbrev pub refreshed : Running → AppState × Bool × Bool → Session
refreshed running (s, eval, survey) = record { state = s; running = evaluates running eval }

module _ (max_age : ℤ) (age_of : Text → Option ℤ) where
  -- A load can finish only while one runs.
  abbrev pub load_done :
      Running → Result LoadedInventory Text → Map Text Snapshot → AppState → Session
  load_done (loading req) result snapshots s =
      load_settled (on_load_finished max_age age_of req.generation result snapshots s)
  load_done running result snapshots s = record { state = s; running = running }

  abbrev pub eval_done :
      Running → Result (Option Text × Toplevels) Text → Map Text Snapshot → AppState → Session
  eval_done evaluating result snapshots s =
      started idle (on_drift_eval_finished max_age age_of result snapshots s)
  eval_done running result snapshots s = record { state = s; running = running }

  unfoldable pub handle : Event → Session → Session
  handle reload a = started a.running (request_reload a.state)
  handle inventory_swapped a =
      let next = started a.running (request_inventory_swap a.state) in
      record next { state = set_status reloaded_mcp false next.state }
  handle (repo_head_changed head) a =
      started a.running (request_reload (set_status (head_moved head) false a.state))
  handle refresh a = refreshed a.running (refresh_drift a.state)
  handle (mutation_closed rc) a = refreshed a.running (after_mutation rc a.state)
  handle (load_finished result snapshots) a = load_done a.running result snapshots a.state
  handle (drift_eval_finished result snapshots) a = eval_done a.running result snapshots a.state
  handle (survey_progress n) a = record a { state = on_survey_progress n a.state }
  handle (survey_done n rc error snapshots) a = record a {
    state = on_survey_done max_age age_of n rc error snapshots a.state;
  }
  handle (mcp_activity event) a = record a { state = (on_mcp_activity event a.state).0 }
  handle (role_changed role) a = record a { state = record (a.state) { context_role = some role } }
  handle (mcp_drift_landed rev cached_rev cached snapshots) a = record a {
    state = on_mcp_drift_landed max_age age_of rev cached_rev cached snapshots a.state;
  }

  unfoldable pub handle_all : List Event → Session → Session
  handle_all [] a = a
  handle_all (e ∷ es) a = handle_all es (handle e a)

-- `start_initial_load`.
unfoldable pub new_session : Session
unfolding request_load
new_session = started idle (request_load new_state)
