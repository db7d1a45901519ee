-- ===== src/Tui/Stale.antt =====
-- crates/mandala-tui/src/state.rs: an evaluation that settles after a reload was asked for.
use mandala.Base.{
  ◌≡◌, refl, ap, ◌∙◌, Bool, true, false, not, ◌+◌, ◌%◌, ◌^◌, ◌&&◌, ◌||◌, Option, none, some, [],
  ◌∷◌, if◌then◌else◌, is_some, ==_iff,
}
use mandala.Base.Map.{Map}
use mandala.Base.Int.{ℤ}
use mandala.Base.Result.{Result, ok}
use mandala.Base.Text.{Text}
use mandala.Drift.Compare.{Snapshot, Toplevels, cache_fresh}
use mandala.Tui.State.{
  AppState, LoadedInventory, Status, set_status, expected_at, DriftHint, drift_refreshed,
}
use mandala.Tui.Load.{
  Step, painted, loaded_status, request_load, request_rebind, consume_pending_reload, fill_drift,
  fill, on_load_finished, on_drift_eval_finished, report, start_pending_eval_expected, adopt_cache,
  adopt_eval, settle_load, hint_of, of_cached,
}
use mandala.Tui.Session.{
  Session, evaluating, reload, drift_eval_finished, load_finished, handle, handle_all, load_settled,
  started, idle, load_done,
}

set_status_lem :
    (m : Status) (e : Bool) (s : AppState)
    → set_status m e s ≡ record s {
      status = (set_status m e s).status;
      status_sticky = (set_status m e s).status_sticky;
    }
unfolding set_status
set_status_lem m e s = go (e || not s.status_sticky)
  where
    told : Bool → AppState
    told b = if b then record s { status = m; status_sticky = e } else s

    go :
        (b : Bool)
        → told b ≡ record s { status = (told b).status; status_sticky = (told b).status_sticky }
    go true = refl
    go false = refl

report_lem :
    (m : Option Status) (s : AppState)
    → report m s
      ≡ record s { status = (report m s).status; status_sticky = (report m s).status_sticky }
report_lem none s = set_status_lem drift_refreshed false s
report_lem (some m) s = set_status_lem m true s

-- What the views say of the expected set.
abbrev pub shown : AppState → Option Toplevels × DriftHint
shown s = (s.expected, s.drift_hint)

shown-set_status : (m : Status) (e : Bool) (s : AppState) → shown (set_status m e s) ≡ shown s
shown-set_status m e s = ap shown (set_status_lem m e s)

shown-pending : (s : AppState) → shown (start_pending_eval_expected s).0 ≡ shown s
unfolding start_pending_eval_expected
shown-pending s = go (s.busy || not s.expected_eval_pending)
  where
    step : Bool → AppState × Bool
    step b = if b then (s, false) else (
      record s { expected_eval_pending = false; busy = true; expected_eval_running = true },
      true,
    )

    go : (b : Bool) → shown (step b).0 ≡ shown s
    go true = refl
    go false = refl

shown-load_settled : (r : Step) → shown (load_settled r).state ≡ shown r.0
shown-load_settled (s, some req) = refl
shown-load_settled (s, none) = shown-pending s

shown-consume : (s : AppState) → shown (consume_pending_reload s).0 ≡ shown s
unfolding consume_pending_reload request_load
shown-consume s = go (s.reload_pending && not s.busy) s.busy
  where
    step : (queued busy : Bool) → Step
    step queued busy =
        if queued
        then (if busy then (record s { reload_pending = true }, none) else (
          record s { reload_pending = false; busy = true; fresh_wanted = false },
          some (record { generation = s.generation; fresh = s.fresh_wanted }),
        ))
        else (s, none)

    go : (queued busy : Bool) → shown (step queued busy).0 ≡ shown s
    go true true = refl
    go true false = refl
    go false busy = refl

shown_of : AppState → Option Toplevels × DriftHint
shown_of s = (s.expected, hint_of (is_some s.expected) s.rev s.cached_rev)

shown_of-adopt_cache :
    (cached : Map Text Text) (s : AppState) (expected : Toplevels)
    → cache_fresh s.cached_rev s.rev ≡ false
    → s.expected ≡ some expected
    → shown_of (adopt_cache cached s) ≡ (some expected, expected_at s.rev)
unfolding shown_of
shown_of-adopt_cache cached s expected h e =
    ap (λ b. shown_of (if b then record s { expected = some (of_cached cached) } else s)) h
    ∙ ap (λ x. (x, hint_of (is_some x) s.rev s.cached_rev)) e

abbrev pub evaluating_in : AppState → Session
evaluating_in s = record {
  state = record s { busy = true; expected_eval_running = true };
  running = evaluating;
}

module _ (max_age : ℤ) (age_of : Text → Option ℤ) where
  on_load_finished-current :
      (result : Result LoadedInventory Text) (snapshots : Map Text Snapshot) (s : AppState)
      → on_load_finished max_age age_of s.generation result snapshots s
        ≡ settle_load max_age age_of result snapshots s
  unfolding on_load_finished
  on_load_finished-current result snapshots s =
      ap
        (λ b.
          if not b
          then consume_pending_reload (record s { busy = false })
          else settle_load max_age age_of result snapshots s)
        ((==_iff s.generation s.generation).1 refl)

  -- A load of the current generation whose cache is of another revision keeps the expected set.
  loaded-shown :
      (l : LoadedInventory) (snapshots : Map Text Snapshot) (s : AppState) (expected : Toplevels)
      → cache_fresh l.cached_rev l.rev ≡ false
      → s.expected ≡ some expected
      → shown (load_settled (on_load_finished max_age age_of s.generation (ok l) snapshots s)).state
        ≡ (some expected, expected_at l.rev)
  unfolding fill fill_drift shown_of
  loaded-shown l snapshots s expected h e =
      let p = record (painted max_age age_of l snapshots s) { busy = false } in
      let told = set_status (loaded_status l) false p in
      shown-load_settled (on_load_finished max_age age_of s.generation (ok l) snapshots s)
      ∙ (ap (λ (r : Step). shown r.0) (on_load_finished-current (ok l) snapshots s)
          ∙ (shown-consume told
              ∙ (shown-set_status (loaded_status l) false p
                  ∙ shown_of-adopt_cache l.cached
                      (record s { rev = l.rev; cached_rev = l.cached_rev }) expected h e)))

  -- A queued reload starts once the evaluation has settled, beside what it found.
  requeued :
      (rev : Option Text) (expected : Toplevels) (before : Map Text Snapshot) (s : AppState)
      → (t : AppState) × (fresh : Bool) × (on_drift_eval_finished max_age age_of
            (ok (rev, expected))
            before
            (record s { reload_pending = true })
          ≡ (t, some (record { generation = t.generation; fresh = fresh })))
        × (t.expected ≡ some expected)
  unfolding on_drift_eval_finished fill_drift consume_pending_reload request_load
  requeued rev expected before s =
      let r =
        adopt_eval (ok (rev, expected))
          (record s { reload_pending = true; busy = false; expected_eval_running = false }) in
      let p = fill_drift max_age age_of before r.0 in
      let told = record p {
        status = (report r.1 p).status;
        status_sticky = (report r.1 p).status_sticky;
      } in
      (
        record told { reload_pending = false; busy = true; fresh_wanted = false },
        told.fresh_wanted,
        ap consume_pending_reload (report_lem r.1 p),
        refl,
      )

  -- When a reload is asked for while an evaluation runs, and the load that follows finds the
  -- cache of another revision than its own, then the set that the evaluation made before the
  -- reload stays the expected one, and the drift names the loaded revision beside it.
  pub stale_eval-shown :
      (s : AppState) (rev : Option Text) (expected : Toplevels) (l : LoadedInventory)
      (before after : Map Text Snapshot)
      → cache_fresh l.cached_rev l.rev ≡ false
      → shown
          (handle_all max_age age_of
            (reload
              ∷ drift_eval_finished (ok (rev, expected)) before
              ∷ load_finished (ok l) after
              ∷ [])
            (evaluating_in s)).state
        ≡ (some expected, expected_at l.rev)
  unfolding handle_all handle request_rebind request_load
  stale_eval-shown s rev expected l before after h =
      let next = record s {
        inventory = none;
        expected = none;
        generation = (s.generation + 1) % 2 ^ 64;
        busy = true;
        expected_eval_running = true;
        fresh_wanted = s.fresh_wanted || true;
      } in
      let (t, fresh, step, e) = requeued rev expected before next in
      ap
        (λ (r : Step).
          shown
            (load_done max_age age_of (started idle r).running (ok l) after
              (started idle r).state).state)
        step
      ∙ loaded-shown l after t expected h e
