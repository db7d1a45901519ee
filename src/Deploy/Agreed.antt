-- ===== src/Deploy/Agreed.antt =====
-- What the pipeline of a host says of it, and what a reader of its stream does.
use mandala.Base.{
  ℕ, ◌≡◌, ◌⊎◌, inl, inr, ◌∙◌, ap, refl, Bool, true, false, ◌||◌, Option, none, some, List, [], ◌∷◌,
  is_some, if◌then◌else◌, arith,
}
use mandala.Base.Int.{ℤ, pos}
use mandala.Base.Text.{Text, text}
use mandala.Base.Result.{Result, ok, err}
use mandala.Runner.Host.{
  HostRun, HostState, confirmed, reboot_pending, rolled_back, failed, is_terminal, finish, new_host,
}
use mandala.Runner.Writer.{EventRecord}
use mandala.Deploy.Settle.{HostDeployResult, is_failed, is_rolled_back, host_result}
use mandala.Deploy.Stream.{
  ActivationDisposition, boot_staging, DeployProfileError, Call, pushed, resolved, staged,
  activated, HostStream, Disk, Stop, returned, panicked, emit, written_by, event_at, done_fields,
  settle_host, prefixed, Write, kept, left_out, refused, write_at, is_build, error_of,
}
use mandala.Deploy.Pipeline.{is_reboot_pending}
use mandala.Deploy.Observed.{
  read_back, feed_all-append, IsRunning, HasReached, done_reads, write_at-IsKept, IsKept,
}

abbrev pub rc_of : Option Text → ℤ
rc_of error = pos (if is_some error then 1 else 0)

-- A reader finds the state of the result, and the code that goes with its error; or the stream
-- has no end, and then the result is `failed`.
abbrev pub Agrees : HostDeployResult → HostRun → Type 0
Agrees r h =
    ((h.state ≡ r.state) × (h.rc ≡ some (rc_of r.error))) ⊎ ((r.state ≡ failed) × (h.rc ≡ none))

abbrev pub ended_badly : HostState → Bool
ended_badly state = is_failed state || is_rolled_back state

-- A result of the host is terminal, and has an error exactly if it failed or rolled back.
abbrev pub IsReported : Text → HostDeployResult → Type 0
IsReported host r =
    (r.host ≡ host) × (is_terminal r.state ≡ true) × (is_some r.error ≡ ended_badly r.state)

-- What the end of a run reads as, behind the records there are.
abbrev pub CanEnd : HostState → Option Text → HostRun → Type 0
CanEnd state error h = (finish h.state (some (rc_of error)) ≡ state) × (h.rc ≡ none)

module _ (host : Text) (disk : Disk) where
  pub settle_host-Agrees :
      (state : HostState) (error : Option Text) (s : HostStream)
      → is_build host ≡ false
      → CanEnd state error (read_back host s.written)
      → let (r, s') = settle_host host disk state error s in Agrees r (read_back host s'.written)
  unfolding settle_host host_result emit
  settle_host-Agrees state error s named can =
      go (write_at host disk s.attempts) (write_at-IsKept host disk s.attempts named)
    where
      code : ℕ
      code = if is_some error then 1 else 0

      ending : EventRecord
      ending = event_at host disk s.attempts (text "status") (done_fields code)

      result : Write → HostDeployResult
      result w =
          (host_result host state error
            (prefixed (text "writing terminal host status: ") (error_of w))).1

      go :
          (w : Write)
          → IsKept w
          → Agrees (result w) (read_back host (written_by w ending s.written))
      go left_out k = elim k [ ]
      go (refused e) k = inr (refl, can.1)
      go kept k =
          let ended = feed_all-append (new_host host) s.written ending in
          let reads = done_reads host disk s.attempts (is_some error) (read_back host s.written) in
          inl (ap (λ h. h.state) ended ∙ reads.0 ∙ can.0, ap (λ h. h.rc) ended ∙ reads.1)

  pub settle_host-IsReported :
      (state : HostState) (error : Option Text) (s : HostStream)
      → is_terminal state ≡ true
      → is_some error ≡ ended_badly state
      → let (r, s') = settle_host host disk state error s in
        IsReported host r × (s'.calls ≡ s.calls)
  unfolding settle_host host_result emit
  settle_host-IsReported state error s terminal reported =
      (go (error_of (write_at host disk s.attempts)), refl)
    where
      go :
          (e : Option Text)
          → IsReported host
              (host_result host state error (prefixed (text "writing terminal host status: ") e)).1
      go (some e) = (refl, refl, refl)
      go none = (refl, terminal, reported)

  -- The result has the state that was asked for, unless the end could not be written.
  pub settle_host-either :
      (state : HostState) (error : Option Text) (s : HostStream)
      → let r = (settle_host host disk state error s).0 in (r.state ≡ state) ⊎ (r.state ≡ failed)
  unfolding settle_host host_result emit
  settle_host-either state error s = go (error_of (write_at host disk s.attempts))
    where
      go :
          (e : Option Text)
          → ((if is_some (prefixed (text "writing terminal host status: ") e)
                then failed
                else state)
              ≡ state)
            ⊎ ((if is_some (prefixed (text "writing terminal host status: ") e)
                  then failed
                  else state)
                ≡ failed)
      go none = inl refl
      go (some e) = inr refl

pub running-CanEnd : (h : HostRun) (error : Text) → IsRunning h → CanEnd failed (some error) h
running-CanEnd h error running = (go h.state running.0, running.1)
  where
    go : (s : HostState) → is_terminal s ≡ false → finish s (some (pos 1)) ≡ failed
    go s e = ground arith

pub reached-CanEnd :
    (state : HostState) (error : Option Text) (h : HostRun)
    → is_terminal state ≡ true
    → HasReached state h
    → CanEnd state error h
reached-CanEnd state error h terminal reached = (
  ap (λ s. finish s (some (rc_of error))) reached.0 ∙ go (is_some error) state terminal,
  reached.1,
)
  where
    go :
        (b : Bool) (s : HostState)
        → is_terminal s ≡ true
        → finish s (some (pos (if b then 1 else 0))) ≡ s
    go b s e = ground arith

-- The calls of the fork, under a dry run or not, that lead to a state.
abbrev pub after : HostState → Option DeployProfileError → HostState
after state none = state
after state (some error) = if error.rolled_back then rolled_back else failed

abbrev Previews : Bool → Result ActivationDisposition Text → HostState → Type 0
Previews dry (err error) state = ⊥
Previews dry (ok found) state =
    (dry ≡ true) × (is_reboot_pending found ≡ true) × (state ≡ reboot_pending)

abbrev pub Earned : Bool → HostState → List Call → Type 0
Earned dry state [] = state ≡ failed
Earned dry state (pushed e ∷ []) = state ≡ failed
Earned dry state (pushed none ∷ resolved r ∷ []) = (state ≡ failed) ⊎ Previews dry r state
Earned dry state (pushed none ∷ resolved (ok found) ∷ staged e ∷ []) =
    (dry ≡ false) × (found ≡ boot_staging) × ((state ≡ failed) ⊎ (state ≡ after reboot_pending e))
Earned dry state (pushed none ∷ resolved (ok found) ∷ activated as_dry e ∷ []) =
    (as_dry ≡ dry)
    × (is_reboot_pending found ≡ false)
    × ((state ≡ failed) ⊎ (state ≡ after confirmed e))
Earned dry state _ = ⊥

-- What a pipeline comes to when it ends, early or not.
abbrev pub Ended : Text → Bool → HostDeployResult → HostStream → Type 0
Ended host dry r s =
    (is_build host ≡ false → Agrees r (read_back host s.written))
    × IsReported host r
    × Earned dry r.state s.calls

abbrev pub Stopped : Text → Bool → Stop → HostStream → Type 0
Stopped host dry (returned r) s = Ended host dry r s
Stopped host dry panicked s = IsRunning (read_back host s.written) × Earned dry failed s.calls

-- The host runs, and these are the calls.
abbrev pub IsAt : Text → List Call → HostStream → Type 0
IsAt host calls s = IsRunning (read_back host s.written) × (s.calls ≡ calls)
