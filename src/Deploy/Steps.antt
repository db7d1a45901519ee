-- ===== src/Deploy/Steps.antt =====
-- The pipeline of one host: actions that leave it where it stands, and milestones.
use mandala.Base.{ℕ, ◌+◌, ◌≡◌, Bool, false, Option, none, some, List, ◌++◌, refl}
use mandala.Base.Order.{list_ord}
use mandala.Base.Text.{Text, text}
use mandala.Runner.Host.{feed, HostRun, HostState, failed, is_terminal, new_host, milestone_state}
use mandala.Runner.Writer.{EventRecord}
use mandala.Deploy.Settle.{HostDeployResult}
use mandala.Deploy.Stream.{
  Call, HostStream, Disk, Task, modify, value_of, emit, written_by, event_at, milestone_fields,
  note_line, or_fail, reach_milestone, check_sink, prefixed, Write, kept, left_out, refused,
  write_at, error_of, is_build,
}
use mandala.Deploy.Observed.{
  read_back, feed_all-append, IsRunning, HasReached, milestone-HasReached, milestone-KeepsRunning,
  write_at-IsKept, IsKept,
}
use mandala.Deploy.Triple.{After, Holds}
use mandala.Deploy.Agreed.{Earned, Ended, Stopped, IsAt}
use mandala.Deploy.Ending.{note_line-IsAt, failed_host-Ended}

module _ (host : Text) (disk : Disk) (dry : Bool) where
  abbrev pub Stays : List Call → Task (Unit {0}) → Type 0
  Stays calls m = Holds (IsAt host calls) m (λ _. IsAt host calls) (Stopped host dry)

  -- What a task that gives the result has to leave.
  abbrev pub Ends : (HostStream → Type 0) → Task HostDeployResult → Type 0
  Ends P m = Holds P m (Ended host dry) (Stopped host dry)

  -- The milestone of a terminal state has been written.
  abbrev pub HasCome : HostState → List Call → HostStream → Type 0
  HasCome state calls s =
      (is_build host ≡ false → HasReached state (read_back host s.written)) × (s.calls ≡ calls)

  pub or_fail-Stays :
      (error : Option Text) (calls : List Call)
      → Earned dry failed calls
      → Stays calls (or_fail host disk error)
  or_fail-Stays none calls failing s at = at
  or_fail-Stays (some error) calls failing s at =
      failed_host-Ended host disk dry error calls s failing at

  pub check_sink-Stays :
      (what : Text) (calls : List Call)
      → Earned dry failed calls
      → Stays calls (check_sink host disk what)
  check_sink-Stays what calls failing s at =
      or_fail-Stays (prefixed what s.sink_error) calls failing s at

  pub note_line-Stays :
      (message : Text) (calls : List Call) → Stays calls (modify (note_line host disk message))
  note_line-Stays message calls s at = note_line-IsAt host disk dry message calls s at

  -- A milestone that brings a host that runs to `Q`, when it is put and when it is left out.
  milestone-Holds :
      (name what : Text) (calls : List Call) (Q : HostRun → Type 0)
      → ((n : ℕ) (h : HostRun)
          → IsRunning h
          → Q (feed h (value_of (event_at host disk n (text "milestone") (milestone_fields name)))))
      → ((n : ℕ) (h : HostRun) → IsRunning h → write_at host disk n ≡ left_out → Q h)
      → Earned dry failed calls
      → Holds
          (IsAt host calls)
          (reach_milestone host disk name what)
          (λ _ s. Q (read_back host s.written) × (s.calls ≡ calls))
          (Stopped host dry)
  unfolding emit
  milestone-Holds name what calls Q brings misses failing s at =
      go (write_at host disk s.attempts) refl
    where
      r : EventRecord
      r = event_at host disk s.attempts (text "milestone") (milestone_fields name)

      next : Write → HostStream
      next w = record s { written = written_by w r s.written; attempts = s.attempts + 1 }

      go :
          (w : Write)
          → write_at host disk s.attempts ≡ w
          → After
              (λ _ s'. Q (read_back host s'.written) × (s'.calls ≡ calls))
              (Stopped host dry)
              (or_fail host disk (prefixed what (error_of w)) (next w))
      go kept e = (
        rw (feed_all-append (new_host host) s.written r)
            (brings s.attempts (read_back host s.written) at.0),
        at.1,
      )
      go left_out e = (misses s.attempts (read_back host s.written) at.0 e, at.1)
      go (refused error) e =
          failed_host-Ended host disk dry (what ++ error) calls (next (refused error)) failing at

  pub milestone-Stays :
      (name what : Text) (next : HostState) (calls : List Call)
      → milestone_state name ≡ some next
      → is_terminal next ≡ false
      → Earned dry failed calls
      → Stays calls (reach_milestone host disk name what)
  milestone-Stays name what next calls e open_state failing =
      milestone-Holds name what calls IsRunning
        (λ n h. milestone-KeepsRunning host disk n name next e open_state h) (λ n h at missed. at)
        failing

  pub milestone-HasCome :
      (name what : Text) (next : HostState) (calls : List Call)
      → milestone_state name ≡ some next
      → Earned dry failed calls
      → Holds
          (IsAt host calls)
          (reach_milestone host disk name what)
          (λ _. HasCome next calls)
          (Stopped host dry)
  milestone-HasCome name what next calls e failing =
      milestone-Holds name what calls (λ h. is_build host ≡ false → HasReached next h)
        (λ n h at named. milestone-HasReached host disk n name next h e at)
        (λ n h at missed named.
          let put : IsKept left_out = rw missed at (write_at-IsKept host disk n named) in
          absurd put)
        failing
