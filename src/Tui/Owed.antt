-- ===== src/Tui/Owed.antt =====
-- crates/mandala-tui/src/app.rs: the events keep the flags in step with the job that runs.
use mandala.Base.{
  ℕ, ◌≡◌, refl, ap, ◌∙◌, Bool, true, false, Option, some, List, [], ◌∷◌, if◌then◌else◌, inl, inr,
  unwrap_or,
}
use mandala.Base.Map.{Map}
use mandala.Base.Int.{ℤ, int_eq, pos}
use mandala.Base.Result.{Result, ok, err}
use mandala.Base.Text.{Text}
use mandala.Drift.Compare.{Snapshot, Toplevels}
use mandala.Tui.State.{
  AppState, LoadedInventory, Status, set_status, surveyed, survey_failed, drift_refreshed_mcp,
  reloaded_mcp, head_moved,
}
use mandala.Tui.Load.{
  request_load, request_rebind, consume_pending_reload, fill_drift, adopt_cache, on_load_finished,
  adopt_eval, report, on_drift_eval_finished, on_survey_done, on_mcp_drift_landed,
}
use mandala.Tui.Session.{
  Running, idle, evaluating, loading, Session, Event, started, load_done, eval_done, handle,
  handle_all, new_session, reload, inventory_swapped, refresh, repo_head_changed, mutation_closed,
  load_finished, drift_eval_finished, survey_progress, survey_done, mcp_drift_landed, mcp_activity,
  role_changed,
}
use mandala.Base.Json.{Value}
use mandala.Tui.Activity.{on_mcp_activity, is_start}
use mandala.Tui.Logged.{stepped, own_of, activity-stepped}
use mandala.Tui.Consistent.{
  flags, IsEvaluating, AreConsistent, IsConsistent, flags-set_status, flags-adopt_cache,
  flags-report, consume-HasSettled, IsFree-of, evaluated-IsFree, on_load_finished-HasSettled,
  load_settled-IsConsistent,
}
use mandala.Tui.Requested.{
  AreConsistent-of, consume-eval_pending, idle_started-IsConsistent, rebind-IsConsistent,
  refresh_drift-IsConsistent, after_mutation-IsConsistent,
}

stepped-flags :
    (own start : Bool) (event : Value) (s : AppState) → flags (stepped own start event s) ≡ flags s
unfolding stepped
stepped-flags true start event s = refl
stepped-flags false true event s = refl
stepped-flags false false event s = refl

activity-flags : (event : Value) (s : AppState) → flags (on_mcp_activity event s).0 ≡ flags s
activity-flags event s =
    ap flags (activity-stepped event s) ∙ stepped-flags (own_of s event) (is_start event) event s

new_session-IsConsistent : IsConsistent new_session
unfolding new_session request_load
new_session-IsConsistent = record {
  taken = refl;
  no_eval = refl;
  current = inr refl;
  fresh_queued = inl refl;
}

module _ (max_age : ℤ) (age_of : Text → Option ℤ) where
  on_survey_done-flags :
      (n : ℕ) (rc : ℤ) (error : Option Text) (snapshots : Map Text Snapshot) (s : AppState)
      → flags (on_survey_done max_age age_of n rc error snapshots s) ≡ flags s
  unfolding on_survey_done fill_drift
  on_survey_done-flags n rc error snapshots s = go (int_eq rc (pos 0))
    where
      painted : AppState
      painted = fill_drift max_age age_of snapshots (record s { surveying = false; survey_n = n })

      go :
          (b : Bool)
          → flags (
              if b
              then set_status (surveyed n) false painted
              else set_status (survey_failed rc (unwrap_or error [])) true painted)
            ≡ flags s
      go true = flags-set_status (surveyed n) false painted
      go false = flags-set_status (survey_failed rc (unwrap_or error [])) true painted

  on_mcp_drift_landed-flags :
      (rev cached_rev : Option Text) (cached : Map Text Text) (snapshots : Map Text Snapshot)
      (s : AppState)
      → flags (on_mcp_drift_landed max_age age_of rev cached_rev cached snapshots s) ≡ flags s
  unfolding on_mcp_drift_landed fill_drift
  on_mcp_drift_landed-flags rev cached_rev cached snapshots s =
      let known = adopt_cache cached (record s { rev = rev; cached_rev = cached_rev }) in
      flags-set_status drift_refreshed_mcp false (fill_drift max_age age_of snapshots known)
      ∙ flags-adopt_cache cached (record s { rev = rev; cached_rev = cached_rev })

  abbrev adopted : Result (Option Text × Toplevels) Text → AppState → AppState × Option Status
  adopted result s = adopt_eval result (record s { busy = false; expected_eval_running = false })

  abbrev reported : Result (Option Text × Toplevels) Text → Map Text Snapshot → AppState → AppState
  reported result snapshots s =
      report (adopted result s).1 (fill_drift max_age age_of snapshots (adopted result s).0)

  flags-reported :
      (result : Result (Option Text × Toplevels) Text) (snapshots : Map Text Snapshot)
      (s : AppState)
      → flags (reported result snapshots s)
        ≡ flags (record s { busy = false; expected_eval_running = false })
  unfolding fill_drift
  flags-reported result snapshots s =
      flags-report (adopted result s).1 (fill_drift max_age age_of snapshots (adopted result s).0)
      ∙ go result
    where
      go :
          (result : Result (Option Text × Toplevels) Text)
          → flags (adopted result s).0
            ≡ flags (record s { busy = false; expected_eval_running = false })
      go (ok (rev, expected)) = refl
      go (err error) = refl

  eval_finished-IsConsistent :
      (result : Result (Option Text × Toplevels) Text) (snapshots : Map Text Snapshot)
      (s : AppState)
      → IsEvaluating (flags s)
      → IsConsistent (started idle (on_drift_eval_finished max_age age_of result snapshots s))
  unfolding on_drift_eval_finished
  eval_finished-IsConsistent result snapshots s h =
      idle_started-IsConsistent (consume_pending_reload (reported result snapshots s))
        (consume-HasSettled (reported result snapshots s) (
          IsFree-of (reported result snapshots s)
            (record s { busy = false; expected_eval_running = false })
            (flags-reported result snapshots s) (evaluated-IsFree (flags s) h)))
        (consume-eval_pending (reported result snapshots s)
          ∙ (ap (λ f. f.eval_pending) (flags-reported result snapshots s) ∙ h.no_eval_owed))

  load_done-IsConsistent :
      (running : Running) (result : Result LoadedInventory Text) (snapshots : Map Text Snapshot)
      (s : AppState)
      → AreConsistent running (flags s)
      → IsConsistent (load_done max_age age_of running result snapshots s)
  load_done-IsConsistent (loading req) result snapshots s h =
      load_settled-IsConsistent (on_load_finished max_age age_of req.generation result snapshots s)
        (on_load_finished-HasSettled max_age age_of req result snapshots s h)
  load_done-IsConsistent idle result snapshots s h = h
  load_done-IsConsistent evaluating result snapshots s h = h

  eval_done-IsConsistent :
      (running : Running) (result : Result (Option Text × Toplevels) Text)
      (snapshots : Map Text Snapshot) (s : AppState)
      → AreConsistent running (flags s)
      → IsConsistent (eval_done max_age age_of running result snapshots s)
  eval_done-IsConsistent evaluating result snapshots s h =
      eval_finished-IsConsistent result snapshots s h
  eval_done-IsConsistent (loading req) result snapshots s h = h
  eval_done-IsConsistent idle result snapshots s h = h

  handle-IsConsistent :
      (e : Event) (a : Session) → IsConsistent a → IsConsistent (handle max_age age_of e a)
  unfolding handle
  handle-IsConsistent reload a h = rebind-IsConsistent true a.running a.state h
  handle-IsConsistent inventory_swapped a h =
      let next = started a.running (request_rebind false a.state) in
      AreConsistent-of next.running (set_status reloaded_mcp false next.state) next.state
        (flags-set_status reloaded_mcp false next.state)
        (rebind-IsConsistent false a.running a.state h)
  handle-IsConsistent (repo_head_changed head) a h =
      rebind-IsConsistent true a.running (set_status (head_moved head) false a.state) (
        AreConsistent-of a.running (set_status (head_moved head) false a.state) a.state
          (flags-set_status (head_moved head) false a.state) h)
  handle-IsConsistent refresh a h = refresh_drift-IsConsistent a.running a.state h
  handle-IsConsistent (mutation_closed rc) a h = after_mutation-IsConsistent a.running rc a.state h
  handle-IsConsistent (load_finished result snapshots) a h =
      load_done-IsConsistent a.running result snapshots a.state h
  handle-IsConsistent (drift_eval_finished result snapshots) a h =
      eval_done-IsConsistent a.running result snapshots a.state h
  handle-IsConsistent (survey_progress n) a h = h
  handle-IsConsistent (survey_done n rc error snapshots) a h =
      AreConsistent-of a.running (on_survey_done max_age age_of n rc error snapshots a.state)
        a.state (on_survey_done-flags n rc error snapshots a.state) h
  handle-IsConsistent (mcp_activity event) a h =
      AreConsistent-of a.running (on_mcp_activity event a.state).0 a.state
        (activity-flags event a.state) h
  handle-IsConsistent (role_changed role) a h =
      AreConsistent-of a.running (record (a.state) { context_role = some role }) a.state refl h
  handle-IsConsistent (mcp_drift_landed rev cached_rev cached snapshots) a h =
      AreConsistent-of a.running
        (on_mcp_drift_landed max_age age_of rev cached_rev cached snapshots a.state) a.state
        (on_mcp_drift_landed-flags rev cached_rev cached snapshots a.state) h

  -- The start and every event after it keep the flags in step with the job that runs: when none
  -- runs, no load, evaluation or fresh read is owed; a load that runs is of the current
  -- generation unless another waits behind it; and an evaluation never runs with one owed.
  pub handle_all-IsConsistent :
      (es : List Event) → IsConsistent (handle_all max_age age_of es new_session)
  unfolding handle_all
  handle_all-IsConsistent es = go es new_session new_session-IsConsistent
    where
      go :
          (es : List Event) (a : Session)
          → IsConsistent a
          → IsConsistent (handle_all max_age age_of es a)
      go [] a h = h
      go (e ∷ es) a h = go es (handle max_age age_of e a) (handle-IsConsistent e a h)
