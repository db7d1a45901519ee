-- ===== src/Tui/Consistent.antt =====
-- crates/mandala-tui/src/state.rs and app.rs: the flags of the state and the job that runs.
use mandala.Base.{
  ℕ, ◌⊎◌, ◌≡◌, refl, ap, Bool, true, false, not, ◌&&◌, ◌||◌, Option, none, some, [], if◌then◌else◌,
  ◌==◌, arith, inl, inr,
}
use mandala.Base.Map.{Map}
use mandala.Base.Int.{ℤ}
use mandala.Base.Result.{Result, ok, err}
use mandala.Base.Text.{Text}
use mandala.Drift.Compare.{Snapshot, cache_fresh}
use mandala.Tui.State.{AppState, LoadedInventory, LoadRequest, Status, load_failed, set_status}
use mandala.Tui.Load.{
  Step, painted, loaded_status, request_load, consume_pending_reload, fill_drift, fill, adopt_cache,
  settle_load, on_load_finished, report, start_pending_eval_expected,
}
use mandala.Tui.Session.{Running, idle, evaluating, loading, Session, pending_started, load_settled}

-- What a state says of the jobs and of what is owed.
pub record Flags : Type 0 where
  pub generation : ℕ
  pub busy : Bool
  pub eval_running : Bool
  pub eval_pending : Bool
  pub reload_pending : Bool
  pub fresh_wanted : Bool

abbrev pub flags : AppState → Flags
flags s = record {
  generation = s.generation;
  busy = s.busy;
  eval_running = s.expected_eval_running;
  eval_pending = s.expected_eval_pending;
  reload_pending = s.reload_pending;
  fresh_wanted = s.fresh_wanted;
}

-- Nothing runs, and nothing is owed.
pub record IsIdle (f : Flags) : Type 0 where
  pub free : f.busy ≡ false
  pub no_eval : f.eval_running ≡ false
  pub no_eval_owed : f.eval_pending ≡ false
  pub no_reload_owed : f.reload_pending ≡ false
  pub not_stale : f.fresh_wanted ≡ false

-- A load runs, and if no reload waits behind it, it is of the current generation.
pub record IsLoading (req : LoadRequest) (f : Flags) : Type 0 where
  pub taken : f.busy ≡ true
  pub no_eval : f.eval_running ≡ false
  pub current : f.reload_pending ≡ true ⊎ req.generation ≡ f.generation
  pub fresh_queued : f.fresh_wanted ≡ false ⊎ f.reload_pending ≡ true

pub record IsEvaluating (f : Flags) : Type 0 where
  pub taken : f.busy ≡ true
  pub running : f.eval_running ≡ true
  pub no_eval_owed : f.eval_pending ≡ false
  pub fresh_queued : f.fresh_wanted ≡ false ⊎ f.reload_pending ≡ true

abbrev pub AreConsistent : Running → Flags → Type 0
AreConsistent idle f = IsIdle f
AreConsistent (loading req) f = IsLoading req f
AreConsistent evaluating f = IsEvaluating f

abbrev pub IsConsistent : Session → Type 0
IsConsistent a = AreConsistent a.running (flags a.state)

pub flags-set_status : (m : Status) (e : Bool) (s : AppState) → flags (set_status m e s) ≡ flags s
unfolding set_status
flags-set_status m e s = go (e || not s.status_sticky)
  where
    go : (b : Bool) → flags (if b then record s { status = m; status_sticky = e } else s) ≡ flags s
    go true = refl
    go false = refl

pub flags-adopt_cache :
    (cached : Map Text Text) (s : AppState) → flags (adopt_cache cached s) ≡ flags s
flags-adopt_cache cached s = go (cache_fresh s.cached_rev s.rev)
  where
    go :
        (b : Bool)
        → flags
            (if b then record s { expected = some (record { paths = cached; errors = [] }) } else s)
          ≡ flags s
    go true = refl
    go false = refl

pub flags-report : (m : Option Status) (s : AppState) → flags (report m s) ≡ flags s
flags-report none s = flags-set_status _ false s
flags-report (some m) s = flags-set_status m true s

-- What a settled job leaves: a load that was queued runs, or none was.
abbrev pub HasSettled : Step → Type 0
HasSettled (s, some req) = IsLoading req (flags s)
HasSettled (s, none) =
    (s.busy ≡ false)
    × (s.expected_eval_running ≡ false)
    × (s.reload_pending ≡ false)
    × (s.fresh_wanted ≡ false)

-- The slot is free, and if a fresh load is owed, it is queued.
pub record IsFree (f : Flags) : Type 0 where
  pub free : f.busy ≡ false
  pub no_eval : f.eval_running ≡ false
  pub fresh_queued : f.fresh_wanted ≡ false ⊎ f.reload_pending ≡ true

pub consume-HasSettled : (s : AppState) → IsFree (flags s) → HasSettled (consume_pending_reload s)
unfolding consume_pending_reload request_load
consume-HasSettled s h = go s.reload_pending s.busy refl refl h
  where
    go :
        (queued busy : Bool)
        → s.reload_pending ≡ queued
        → s.busy ≡ busy
        → IsFree (flags s)
        → HasSettled (
            if queued && not busy
            then (if busy then (record s { reload_pending = true }, none) else (
              record s { reload_pending = false; busy = true; fresh_wanted = false },
              some (record { generation = s.generation; fresh = s.fresh_wanted }),
            ))
            else (s, none))
    go true false e f h = record {
      taken = refl;
      no_eval = h.no_eval;
      current = inr refl;
      fresh_queued = inl refl;
    }
    go true true e f h = absurd (cc (f, h.free))
    go false busy e f h = ground (arith, e, h.fresh_queued, h.free, h.no_eval)

pub IsFree-of : (s t : AppState) → flags s ≡ flags t → IsFree (flags t) → IsFree (flags s)
IsFree-of s t e h = rw e h

abbrev pub slot_freed : Flags → Flags
slot_freed f = record f { busy = false }

-- Finishing a load or an evaluation keeps the rest of the flags.
freed-IsFree :
    (req : LoadRequest) (f : Flags) → IsLoading req f → IsFree (record f { busy = false })
freed-IsFree req f h = record { free = refl; no_eval = h.no_eval; fresh_queued = h.fresh_queued }

pub evaluated-IsFree :
    (f : Flags) → IsEvaluating f → IsFree (record f { busy = false; eval_running = false })
evaluated-IsFree f h = record { free = refl; no_eval = refl; fresh_queued = h.fresh_queued }

consume_status-HasSettled :
    (m : Status) (e : Bool) (s : AppState)
    → IsFree (flags s)
    → HasSettled (consume_pending_reload (set_status m e s))
consume_status-HasSettled m e s h =
    consume-HasSettled (set_status m e s)
      (IsFree-of (set_status m e s) s (flags-set_status m e s) h)

module _ (max_age : ℤ) (age_of : Text → Option ℤ) where
  fill-HasSettled :
      (l : LoadedInventory) (snapshots : Map Text Snapshot) (s : AppState)
      → IsFree (record (flags s) { busy = false })
      → HasSettled (fill max_age age_of l snapshots s)
  unfolding fill fill_drift
  fill-HasSettled l snapshots s h =
      consume_status-HasSettled (loaded_status l) false
        (record (painted max_age age_of l snapshots s) { busy = false })
        (IsFree-of (record (painted max_age age_of l snapshots s) { busy = false })
          (record s { busy = false })
          (ap slot_freed
            (flags-adopt_cache l.cached (record s { rev = l.rev; cached_rev = l.cached_rev })))
          h)

  pub on_load_finished-HasSettled :
      (req : LoadRequest) (result : Result LoadedInventory Text) (snapshots : Map Text Snapshot)
      (s : AppState)
      → IsLoading req (flags s)
      → HasSettled (on_load_finished max_age age_of req.generation result snapshots s)
  unfolding on_load_finished
  on_load_finished-HasSettled req result snapshots s h =
      go (not (req.generation == s.generation)) result
    where
      free : IsFree (record (flags s) { busy = false })
      free = freed-IsFree req (flags s) h

      go :
          (b : Bool) (result : Result LoadedInventory Text)
          → HasSettled (
              if b
              then consume_pending_reload (record s { busy = false })
              else settle_load max_age age_of result snapshots s)
      go true result = consume-HasSettled (record s { busy = false }) free
      go false (err error) =
          consume_status-HasSettled (load_failed error) true (record s { busy = false }) free
      go false (ok l) = fill-HasSettled l snapshots s free

pub load_settled-IsConsistent : (r : Step) → HasSettled r → IsConsistent (load_settled r)
unfolding start_pending_eval_expected
load_settled-IsConsistent (s, some req) h = h
load_settled-IsConsistent (s, none) (free, no_eval, no_reload, not_stale) =
    go s.busy s.expected_eval_pending free refl
  where
    go :
        (busy pending : Bool)
        → busy ≡ false
        → s.expected_eval_pending ≡ pending
        → IsConsistent (
            pending_started (
              if busy || not pending then (s, false) else (
                record s {
                  expected_eval_pending = false;
                  busy = true;
                  expected_eval_running = true;
                },
                true,
              )))
    go true pending f e = absurd (cc f)
    go false true f e = record {
      taken = refl;
      running = refl;
      no_eval_owed = refl;
      fresh_queued = inl not_stale;
    }
    go false false f e = record {
      free = free;
      no_eval = no_eval;
      no_eval_owed = e;
      no_reload_owed = no_reload;
      not_stale = not_stale;
    }
