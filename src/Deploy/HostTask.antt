-- ===== src/Deploy/HostTask.antt =====
-- The pipeline of one host, from its first record to its end, as a task of the fan-out.
use mandala.Base.{false, ◌≡◌, refl, true, ◌||◌, none, List, [], ◌∷◌, ◌++◌, unwrap_or}
use mandala.Base.Order.{list_ord}
use mandala.Base.Map.{get}
use mandala.Base.Text.{Text, text}
use mandala.Base.Json.{Value}
use mandala.Base.Result.{Result, ok, err}
use mandala.Runner.Host.{feed_all}
use mandala.Deploy.Plan.{DeployPlan}
use mandala.Deploy.Settle.{HostDeployResult}
use mandala.Deploy.Stream.{
  Call, pushed, HostStream, Disk, Stop, returned, panicked, Task, ◌>>=◌, ◌>>◌, or_fail, prefixed,
  new_stream, is_build,
}
use mandala.Deploy.Pipeline.{
  FlattenedDeploySettings, BuiltProfiles, Fork, is_boot, some_or_fail, ok_or_fail, open_writer,
  write_start, copy, preflight, activate_as, deploy_host_with, abnormal_host, host_task,
}
use mandala.Deploy.Observed.{read_back}
use mandala.Deploy.Triple.{After, >>=-Holds, >>-Holds}
use mandala.Deploy.Agreed.{Agrees, IsReported, Earned, Ended, Stopped, IsAt}
use mandala.Deploy.Steps.{Ends, or_fail-Stays}
use mandala.Deploy.Activated.{readied, activate_as-Ends}
use mandala.Deploy.Deployed.{
  copy-Holds, preflight-Holds, abnormal_host-Ended, unwritten_or-Stays, write_start-Stays,
  some_or_fail-Holds, ok_or_fail-Holds,
}

pub new_stream-IsAt : (host : Text) → IsAt host [] new_stream
unfolding feed_all
new_stream-IsAt host = ((refl, refl), refl)

module _ (host : Text) (disk : Disk) (from_value : Value → Result FlattenedDeploySettings Text)
    (make_deploy_data : FlattenedDeploySettings → (profile_path : Text) → Fork) (plan : DeployPlan)
    (built : BuiltProfiles) where
  abbrev Completes : List Call → Task HostDeployResult → Type 0
  Completes calls m = Ends host disk plan.dry_activate (IsAt host calls) m

  abbrev acting : FlattenedDeploySettings → Text → Task HostDeployResult
  acting settings path =
      let fork = make_deploy_data settings path in
      preflight host disk fork plan.dry_activate (plan.boot || is_boot settings.activation)
      >>= activate_as host disk fork plan.dry_activate (unwrap_or settings.magic_rollback true)

  acting-Completes :
      (settings : FlattenedDeploySettings) (path : Text)
      → Completes (pushed none ∷ []) (acting settings path)
  acting-Completes settings path =
      let fork = make_deploy_data settings path in
      let magic = unwrap_or settings.magic_rollback true in
      let dry = plan.dry_activate in
      let wants_boot = plan.boot || is_boot settings.activation in
      >>=-Holds (Stopped host dry) (λ found. IsAt host (readied found)) (Ended host dry)
        (preflight host disk fork dry wants_boot) (activate_as host disk fork dry magic)
        (preflight-Holds host disk dry fork wants_boot)
        (λ found. activate_as-Ends host disk dry fork magic found)

  abbrev deploying : FlattenedDeploySettings → Text → Task HostDeployResult
  deploying settings path =
      let fork = make_deploy_data settings path in
      or_fail host disk fork.defs >> (copy host disk fork >> acting settings path)

  deploying-Completes :
      (settings : FlattenedDeploySettings) (path : Text) → Completes [] (deploying settings path)
  deploying-Completes settings path =
      let fork = make_deploy_data settings path in
      let dry = plan.dry_activate in
      >>-Holds (Stopped host dry) (IsAt host []) (Ended host dry) (or_fail host disk fork.defs)
        (copy host disk fork >> acting settings path)
        (or_fail-Stays host disk dry fork.defs [] refl)
        (>>-Holds (Stopped host dry) (IsAt host (pushed none ∷ [])) (Ended host dry)
          (copy host disk fork) (acting settings path) (copy-Holds host disk dry fork)
          (acting-Completes settings path))

  abbrev with_settings : FlattenedDeploySettings → Task HostDeployResult
  with_settings settings =
      some_or_fail host disk (get built.paths host) (text "prebuilt profile path is missing")
      >>= deploying settings

  with_settings-Completes :
      (settings : FlattenedDeploySettings) → Completes [] (with_settings settings)
  with_settings-Completes settings =
      let missing = text "prebuilt profile path is missing" in
      let dry = plan.dry_activate in
      >>=-Holds (Stopped host dry) (λ _. IsAt host []) (Ended host dry)
        (some_or_fail host disk (get built.paths host) missing) (deploying settings)
        (some_or_fail-Holds host disk dry (get built.paths host) missing [] refl)
        (deploying-Completes settings)

  abbrev with_projected : Value → Task HostDeployResult
  with_projected projected =
      ok_or_fail host disk (from_value projected) (text "invalid flattened deploy settings: ")
      >>= with_settings

  with_projected-Completes : (projected : Value) → Completes [] (with_projected projected)
  with_projected-Completes projected =
      let invalid = text "invalid flattened deploy settings: " in
      let dry = plan.dry_activate in
      >>=-Holds (Stopped host dry) (λ _. IsAt host []) (Ended host dry)
        (ok_or_fail host disk (from_value projected) invalid) with_settings
        (ok_or_fail-Holds host disk dry (from_value projected) invalid [] refl)
        with_settings-Completes

  abbrev with_stream : Task HostDeployResult
  with_stream =
      some_or_fail host disk (get plan.settings host) (text "flattened deploy settings are missing")
      >>= with_projected

  with_stream-Completes : Completes [] with_stream
  with_stream-Completes =
      let missing = text "flattened deploy settings are missing" in
      let dry = plan.dry_activate in
      >>=-Holds (Stopped host dry) (λ _. IsAt host []) (Ended host dry)
        (some_or_fail host disk (get plan.settings host) missing) with_projected
        (some_or_fail-Holds host disk dry (get plan.settings host) missing [] refl)
        with_projected-Completes

  deploy_host_with-Completes :
      Completes [] (deploy_host_with host disk from_value make_deploy_data plan built)
  unfolding deploy_host_with
  deploy_host_with-Completes =
      let what = text "opening host event stream: " in
      let dry = plan.dry_activate in
      >>-Holds (Stopped host dry) (IsAt host []) (Ended host dry) (open_writer host disk 0 what)
        (write_start host disk >> with_stream)
        (unwritten_or-Stays host disk dry (prefixed what (disk.opening 0)))
        (>>-Holds (Stopped host dry) (IsAt host []) (Ended host dry) (write_start host disk)
          with_stream (write_start-Stays host disk dry) with_stream-Completes)

  pub host_task-Ended :
      (message : Text)
      → let (r, s) =
          host_task host disk from_value make_deploy_data plan built message new_stream in
        Ended host plan.dry_activate r s
  unfolding host_task
  host_task-Ended message =
      go (deploy_host_with host disk from_value make_deploy_data plan built new_stream)
        (deploy_host_with-Completes new_stream (new_stream-IsAt host))
    where
      settled : Result HostDeployResult Stop × HostStream → HostDeployResult × HostStream
      settled ended = elim ended.0 [
        | ok r ↦ (r, ended.1)
        | err (returned r) ↦ (r, ended.1)
        | err panicked ↦
            abnormal_host host disk 1 (text "host task failed abnormally: " ++ message) ended.1
      ]

      go :
          (ended : Result HostDeployResult Stop × HostStream)
          → After (Ended host plan.dry_activate) (Stopped host plan.dry_activate) ended
          → Ended host plan.dry_activate (settled ended).0 (settled ended).1
      go (ok r, s) h = h
      go (err (returned r), s) h = h
      go (err panicked, s) h =
          abnormal_host-Ended host disk plan.dry_activate 1
            (text "host task failed abnormally: " ++ message) s.calls s h.1 (h.0, refl)

  -- For a host that is not named `build`, a reader of its stream finds the state of its result, and a
  -- code that is 0 exactly if the result has no error; or the stream has no end, and then the result
  -- is `failed`. The result is of the host, its state is terminal, and it has an error exactly if the
  -- host failed or rolled back.
  pub host_task-Agrees :
      (message : Text)
      → is_build host ≡ false
      → let (r, s) =
          host_task host disk from_value make_deploy_data plan built message new_stream in
        Agrees r (read_back host s.written) × IsReported host r
  host_task-Agrees message named = let ended = host_task-Ended message in (ended.0 named, ended.1)

  -- The fork is called to copy, then for the preflight, then to stage or to activate, once at most
  -- and each only after the one before it succeeded. Under a dry run nothing is staged, and the
  -- activation is a dry one. A host is confirmed only by an activation that succeeded, reboot
  -- pending only by a staging that succeeded or by the preview of a dry run, and rolled back only by
  -- an error that says so.
  pub host_task-Earned :
      (message : Text)
      → let (r, s) =
          host_task host disk from_value make_deploy_data plan built message new_stream in
        Earned plan.dry_activate r.state s.calls
  host_task-Earned message = let ended = host_task-Ended message in ended.2
