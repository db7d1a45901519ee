-- ===== src/Tui/Requested.antt =====
-- crates/mandala-tui/src/state.rs and app.rs: the requests keep the flags in step with the job that
-- runs.
use mandala.Base.{
  ◌≡◌, refl, Bool, true, false, not, ◌&&◌, ◌||◌, Option, none, some, if◌then◌else◌, inl, inr, ◌+◌,
  ◌%◌, ◌^◌,
}
use mandala.Base.Int.{ℤ}
use mandala.Tui.State.{AppState}
use mandala.Tui.Load.{
  Step, request_load, request_rebind, consume_pending_reload, request_eval_expected, request_survey,
  refresh_drift, after_mutation,
}
use mandala.Tui.Session.{Running, idle, evaluating, loading, started, evaluates, refreshed}
use mandala.Tui.Consistent.{flags, AreConsistent, IsConsistent, HasSettled}

pub AreConsistent-of :
    (running : Running) (s t : AppState)
    → flags s ≡ flags t
    → AreConsistent running (flags t)
    → AreConsistent running (flags s)
AreConsistent-of running s t e h = rw e h

pub consume-eval_pending :
    (s : AppState) → (consume_pending_reload s).0.expected_eval_pending ≡ s.expected_eval_pending
unfolding consume_pending_reload request_load
consume-eval_pending s = go s.reload_pending s.busy s.busy
  where
    step : (queued busy other : Bool) → Step
    step queued busy other =
        if queued && not busy
        then (if other then (record s { reload_pending = true }, none) else (
          record s { reload_pending = false; busy = true; fresh_wanted = false },
          some (record { generation = s.generation; fresh = s.fresh_wanted }),
        ))
        else (s, none)

    go :
        (queued busy other : Bool)
        → (step queued busy other).0.expected_eval_pending ≡ s.expected_eval_pending
    go true false true = refl
    go true false false = refl
    go true true other = refl
    go false busy other = refl

pub idle_started-IsConsistent :
    (r : Step) → HasSettled r → r.0.expected_eval_pending ≡ false → IsConsistent (started idle r)
idle_started-IsConsistent (s, some req) h e = h
idle_started-IsConsistent (s, none) (free, no_eval, no_reload, not_stale) e = record {
  free = free;
  no_eval = no_eval;
  no_eval_owed = e;
  no_reload_owed = no_reload;
  not_stale = not_stale;
}

-- A load that is asked for starts, or waits behind the job that runs.
pub rebind-IsConsistent :
    (fresh : Bool) (running : Running) (s : AppState)
    → AreConsistent running (flags s)
    → IsConsistent (started running (request_rebind fresh s))
unfolding request_rebind request_load
rebind-IsConsistent fresh running s h = go running s.busy refl h
  where
    next : AppState
    next = record s {
      generation = (s.generation + 1) % 2 ^ 64;
      inventory = none;
      expected = none;
      fresh_wanted = s.fresh_wanted || fresh;
    }

    go :
        (running : Running) (busy : Bool)
        → s.busy ≡ busy
        → AreConsistent running (flags s)
        → IsConsistent (
            started running (
              if busy then (record next { reload_pending = true }, none) else (
                record next { busy = true; fresh_wanted = false },
                some (record { generation = next.generation; fresh = next.fresh_wanted }),
              )))
    go idle true e h = absurd (cc (e, h.free))
    go idle false e h = record {
      taken = refl;
      no_eval = h.no_eval;
      current = inr refl;
      fresh_queued = inl refl;
    }
    go (loading req) true e h = record {
      taken = e;
      no_eval = h.no_eval;
      current = inl refl;
      fresh_queued = inr refl;
    }
    go (loading req) false e h = absurd (cc (e, h.taken))
    go evaluating true e h = record {
      taken = e;
      running = h.running;
      no_eval_owed = h.no_eval_owed;
      fresh_queued = inr refl;
    }
    go evaluating false e h = absurd (cc (e, h.taken))

request_survey-flags : (s : AppState) → flags (request_survey s).0 ≡ flags s
unfolding request_survey
request_survey-flags s = go s.surveying
  where
    survey : Bool → AppState × Bool
    survey b = if b then (s, false) else (record s { surveying = true; survey_n = 0 }, true)

    go : (b : Bool) → flags (survey b).0 ≡ flags s
    go true = refl
    go false = refl

request_eval-IsConsistent :
    (running : Running) (s : AppState)
    → AreConsistent running (flags s)
    → AreConsistent
        (evaluates running (request_eval_expected s).1)
        (flags (request_eval_expected s).0)
unfolding request_eval_expected
request_eval-IsConsistent running s h = go running s.busy refl h
  where
    eval : Bool → AppState × Bool
    eval busy =
        if busy
        then (
          record s {
            expected_eval_pending = s.expected_eval_pending || not s.expected_eval_running;
          },
          false,
        )
        else (record s { busy = true; expected_eval_running = true }, true)

    go :
        (running : Running) (busy : Bool)
        → s.busy ≡ busy
        → AreConsistent running (flags s)
        → AreConsistent (evaluates running (eval busy).1) (flags (eval busy).0)
    go idle true e h = absurd (cc (e, h.free))
    go idle false e h = record {
      taken = refl;
      running = refl;
      no_eval_owed = h.no_eval_owed;
      fresh_queued = inl h.not_stale;
    }
    go (loading req) true e h = record {
      taken = h.taken;
      no_eval = h.no_eval;
      current = h.current;
      fresh_queued = h.fresh_queued;
    }
    go (loading req) false e h = absurd (cc (e, h.taken))
    go evaluating true e h = record {
      taken = h.taken;
      running = h.running;
      no_eval_owed = simp (h.running, h.no_eval_owed);
      fresh_queued = h.fresh_queued;
    }
    go evaluating false e h = absurd (cc (e, h.taken))

pub refresh_drift-IsConsistent :
    (running : Running) (s : AppState)
    → AreConsistent running (flags s)
    → IsConsistent (refreshed running (refresh_drift s))
unfolding refresh_drift
refresh_drift-IsConsistent running s h =
    let first = request_eval_expected (record s { status_sticky = false }) in
    AreConsistent-of (evaluates running first.1) (request_survey first.0).0 first.0
      (request_survey-flags first.0)
      (request_eval-IsConsistent running (record s { status_sticky = false }) h)

pub after_mutation-IsConsistent :
    (running : Running) (rc : Option ℤ) (s : AppState)
    → AreConsistent running (flags s)
    → IsConsistent (refreshed running (after_mutation rc s))
unfolding after_mutation
after_mutation-IsConsistent running (some rc) s h = refresh_drift-IsConsistent running s h
after_mutation-IsConsistent running none s h = h
