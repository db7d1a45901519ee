-- ===== src/Deploy/Deployed.antt =====
-- The pipeline of one host: its first records, the copy, the preflight and an abnormal end.
use mandala.Base.{ℕ, inl, inr, refl, Bool, Option, none, some, List, [], ◌∷◌, ◌++◌}
use mandala.Base.Order.{list_ord}
use mandala.Base.Text.{Text, text}
use mandala.Base.Result.{Result, ok, err}
use mandala.Runner.Host.{failed, copying, milestone_state}
use mandala.Deploy.Settle.{HostDeployResult}
use mandala.Deploy.Stream.{
  ActivationDisposition, Call, pushed, resolved, HostStream, Disk, Task, modify, pure, failed_host,
  ◌>>=◌, ◌>>◌, emit, event_at, start_fields, or_fail, reach_milestone, check_sink, call_fork,
  prefixed, write_at, error_of,
}
use mandala.Deploy.Pipeline.{
  Fork, some_or_fail, ok_or_fail, unwritten, unwritten_or, write_start, emit_start, copy, preflight,
  abnormal_host,
}
use mandala.Deploy.Observed.{written_by-IsRunning, start-KeepsRunning}
use mandala.Deploy.Triple.{Holds, >>-Holds}
use mandala.Deploy.Agreed.{Earned, Ended, Stopped, IsAt}
use mandala.Deploy.Ending.{call_fork-IsAt, failed_host-Ended}
use mandala.Deploy.Steps.{Stays, check_sink-Stays, milestone-Stays}
use mandala.Deploy.Activated.{readied}

module _ (host : Text) (disk : Disk) (dry : Bool) where
  pub unwritten_or-Stays :
      (error : Option Text) → Stays host disk dry [] (unwritten_or host disk error)
  unwritten_or-Stays none s at = at
  unwritten_or-Stays (some error) s at =
      ((λ named. inr (refl, at.0.1)), (refl, refl, refl), rw at.1 refl)

  pub write_start-Stays : Stays host disk dry [] (write_start host disk)
  unfolding emit
  write_start-Stays s at =
      unwritten_or-Stays
        (prefixed (text "writing host start status: ") (error_of (write_at host disk s.attempts)))
        (emit_start host disk s).1
        (
          written_by-IsRunning host (write_at host disk s.attempts)
              (event_at host disk s.attempts (text "status") (start_fields host)) s.written
              (start-KeepsRunning host disk s.attempts) at.0,
          at.1,
        )

  pub some_or_fail-Holds :
      {A : Type 0} (found : Option A) (error : Text) (calls : List Call)
      → Earned dry failed calls
      → Holds
          (IsAt host calls)
          (some_or_fail host disk found error)
          (λ _. IsAt host calls)
          (Stopped host dry)
  some_or_fail-Holds none error calls failing s at =
      failed_host-Ended host disk dry error calls s failing at
  some_or_fail-Holds (some a) error calls failing s at = at

  pub ok_or_fail-Holds :
      {A : Type 0} (found : Result A Text) (what : Text) (calls : List Call)
      → Earned dry failed calls
      → Holds
          (IsAt host calls)
          (ok_or_fail host disk found what)
          (λ _. IsAt host calls)
          (Stopped host dry)
  ok_or_fail-Holds (err error) what calls failing s at =
      failed_host-Ended host disk dry (what ++ error) calls s failing at
  ok_or_fail-Holds (ok a) what calls failing s at = at

  pub copy-Holds :
      (fork : Fork)
      → Holds
          (IsAt host [])
          (copy host disk fork)
          (λ _. IsAt host (pushed none ∷ []))
          (Stopped host dry)
  unfolding copy milestone_state
  copy-Holds fork =
      let name = text "copy" in
      let what = text "writing copy milestone: " in
      >>-Holds (Stopped host dry) (IsAt host []) (λ _. IsAt host (pushed none ∷ []))
        (reach_milestone host disk name what) (after_milestone fork.push_profile.1)
        (milestone-Stays host disk dry name what copying [] refl refl refl) (go fork.push_profile.1)
    where
      sink : Text
      sink = text "writing copied output: "

      after_milestone : Option Text → Task (Unit {0})
      after_milestone e =
          modify (call_fork host disk (pushed e) fork.push_profile.0)
          >> (or_fail host disk e >> check_sink host disk sink)

      called : Option Text → HostStream → HostStream
      called e = call_fork host disk (pushed e) fork.push_profile.0

      called-IsAt :
          (e : Option Text) (s : HostStream)
          → IsAt host [] s
          → IsAt host (pushed e ∷ []) (called e s)
      called-IsAt e s at = call_fork-IsAt host disk dry (pushed e) fork.push_profile.0 [] s at

      go :
          (e : Option Text)
          → Holds
              (IsAt host [])
              (after_milestone e)
              (λ _. IsAt host (pushed none ∷ []))
              (Stopped host dry)
      go none = λ s at.
          check_sink-Stays host disk dry sink (pushed none ∷ []) refl (called none s)
            (called-IsAt none s at)
      go (some e) = λ s at.
          failed_host-Ended host disk dry e (pushed (some e) ∷ []) (called (some e) s) refl
            (called-IsAt (some e) s at)

  pub preflight-Holds :
      (fork : Fork) (wants_boot : Bool)
      → Holds
          (IsAt host (pushed none ∷ []))
          (preflight host disk fork dry wants_boot)
          (λ found. IsAt host (readied found))
          (Stopped host dry)
  unfolding preflight
  preflight-Holds fork wants_boot = go (fork.resolve_activation_disposition dry wants_boot).1
    where
      messages : List Text
      messages = (fork.resolve_activation_disposition dry wants_boot).0

      sink : Text
      sink = text "writing preflight output: "

      called : Result ActivationDisposition Text → HostStream → HostStream
      called r = call_fork host disk (resolved r) messages

      called-IsAt :
          (r : Result ActivationDisposition Text) (s : HostStream)
          → IsAt host (pushed none ∷ []) s
          → IsAt host (pushed none ∷ resolved r ∷ []) (called r s)
      called-IsAt r s at =
          call_fork-IsAt host disk dry (resolved r) messages (pushed none ∷ []) s at

      checked : ActivationDisposition → Task ActivationDisposition
      checked found = check_sink host disk sink >> pure found

      go :
          (r : Result ActivationDisposition Text)
          → Holds
              (IsAt host (pushed none ∷ []))
              (modify (call_fork host disk (resolved r) messages)
                >> (ok_or_fail host disk r [] >>= checked))
              (λ found. IsAt host (readied found))
              (Stopped host dry)
      go (err e) = λ s at.
          failed_host-Ended host disk dry e (pushed none ∷ resolved (err e) ∷ []) (called (err e) s)
            (inl refl) (called-IsAt (err e) s at)
      go (ok found) = λ s at.
          >>-Holds (Stopped host dry) (IsAt host (readied found)) (λ d. IsAt host (readied d))
            (check_sink host disk sink) (pure found)
            (check_sink-Stays host disk dry sink (readied found) (inl refl)) (λ s' at'. at')
            (called (ok found) s) (called-IsAt (ok found) s at)

  pub abnormal_host-Ended :
      (n : ℕ) (error : Text) (calls : List Call) (s : HostStream)
      → Earned dry failed calls
      → IsAt host calls s
      → let (r, s') = abnormal_host host disk n error s in Ended host dry r s'
  unfolding abnormal_host emit
  abnormal_host-Ended n error calls s failing at = go (disk.opening n)
    where
      started : HostStream
      started = (emit_start host disk s).1

      reopened : Option Text → HostDeployResult × HostStream
      reopened e = elim e [
        | some failure ↦
            (unwritten host disk (error ++ text "; opening host event stream: " ++ failure), s)
        | none ↦ failed_host host disk error started
      ]

      go : (e : Option Text) → Ended host dry (reopened e).0 (reopened e).1
      go (some failure) = ((λ named. inr (refl, at.0.1)), (refl, refl, refl), rw at.1 failing)
      go none = failed_host-Ended host disk dry error calls started failing (
        written_by-IsRunning host (write_at host disk s.attempts)
            (event_at host disk s.attempts (text "status") (start_fields host)) s.written
            (start-KeepsRunning host disk s.attempts) at.0,
        at.1,
      )
