-- ===== src/Deploy/HostTests.antt =====
-- Runs of the pipeline of a host, and of a fan-out.
use mandala.Base.{◌≡◌, ◌↔◌, refl, true, false, Option, none, some, [], ◌∷◌, All, arith, ◌==◌}
use mandala.Base.Order.{list_ord}
use mandala.Base.Map.{get, insert}
use mandala.Base.Set.{contains}
use mandala.Base.Int.{pos}
use mandala.Base.Text.{Text, text}
use mandala.Base.Json.{Value, object, of_entries}
use mandala.Base.Json.Number.{pos_int}
use mandala.Base.Result.{Result, ok}
use mandala.Runner.Host.{
  rolled_back, confirmed, waiting, feed_all, feed, kind_of, str_of, int_of, milestone_state,
}
use mandala.Runner.Writer.{record_entries, first_fields, other_fields}
use mandala.Deploy.Plan.{DeployPlan}
use mandala.Deploy.Settle.{DeployOutcome, build_failed, host_result, HostDeployResult}
use mandala.Deploy.Stream.{
  live_switch, DeployProfileError, Disk, new_stream, emit, sink_all, settle_host, failed_host,
  HostStream, value_of,
}
use mandala.Deploy.Pipeline.{
  FlattenedDeploySettings, switch, BuiltProfiles, Fork, copy, preflight, settle_activation,
  activate, activate_as, deploy_host_with, host_task,
}
use mandala.Deploy.FanOut.{host_outcome, fan_out_with}
use mandala.Deploy.Observed.{read_back}
use mandala.Deploy.Agreed.{Agrees, IsReported, Earned}
use mandala.Deploy.HostTask.{host_task-Agrees, host_task-Earned}
use mandala.Deploy.Told.{IsDeployed}
use mandala.Deploy.FannedOut.{fan_out_with_rc}

-- A disk on which every write succeeds.
abbrev disk : Disk
disk = record {
  opening = λ n. none;
  writing = λ n. none;
  now = λ n. pos_int n;
  capped = λ n. false;
}

abbrev settings : FlattenedDeploySettings
settings = record {
  activation = switch;
  hostname = text "web.example";
  ssh_user = text "root";
  ssh_port = 22;
  identity_file = none;
  ssh_opts = [];
  auto_rollback = true;
  fast_connection = false;
  magic_rollback = none;
  confirm_timeout = none;
  activation_timeout = none;
  temp_path = none;
  sudo = none;
  user = none;
}

abbrev from_value : Value → Result FlattenedDeploySettings Text
from_value value = ok settings

-- A live switch that is confirmed, or is rolled back.
abbrev fork_that : Option DeployProfileError → Fork
fork_that e = record {
  defs = none;
  push_profile = (text "copying" ∷ [], none);
  resolve_activation_disposition = λ dry wants_boot. ([], ok live_switch);
  stage_profile_for_boot = ([], none);
  deploy_profile = λ dry. (text "activating" ∷ [], e);
}

abbrev canary : DeployProfileError
canary = record { message = text "not confirmed"; rolled_back = true }

abbrev plan : DeployPlan
plan = record {
  limit = text "web";
  targets = text "web" ∷ [];
  skipped = [];
  settings = (text "web", object (of_entries [])) ∷ [];
  dry_activate = false;
  boot = false;
  halt_on_build_failure = false;
  throttle = pos 2;
}

abbrev built : BuiltProfiles
built = record { paths = (text "web", text "/nix/store/web") ∷ []; failures = [] }

rolls_back :
    (host_task
      (text "web")
      disk
      from_value
      (λ found path. fork_that (some canary))
      plan
      built
      []
      new_stream).0.state
    ≡ rolled_back
unfolding host_task deploy_host_with get copy preflight activate_as activate settle_activation
    settle_host failed_host host_result sink_all emit
rolls_back = refl

-- The log of the build is full when a host of that name is confirmed.
abbrev full_log : Disk
full_log = record disk { capped = λ n. n == 6 }

abbrev for_build : HostDeployResult × HostStream
for_build =
    host_task (text "build") full_log from_value (λ found path. fork_that none)
      (record plan { settings = (text "build", object (of_entries [])) ∷ [] })
      (record built { paths = (text "build", text "/nix/store/build") ∷ [] }) [] new_stream

build_unseen :
    (for_build.0.state ≡ confirmed)
    × ((read_back (text "build") for_build.1.written).state ≡ waiting)
unfolding host_task deploy_host_with get copy preflight activate_as activate settle_activation
    settle_host failed_host host_result sink_all emit feed_all feed kind_of str_of int_of value_of
    record_entries first_fields other_fields contains insert milestone_state
build_unseen = (refl, refl)

host_task-Agrees_example :
    let (r, s) =
      host_task
        (text "web")
        disk
        from_value
        (λ found path. fork_that (some canary))
        plan
        built
        []
        new_stream in
    Agrees r (read_back (text "web") s.written) × IsReported (text "web") r
host_task-Agrees_example =
    host_task-Agrees (text "web") disk from_value (λ found path. fork_that (some canary)) plan built
      [] refl

host_task-Earned_example :
    let (r, s) =
      host_task
        (text "web")
        disk
        from_value
        (λ found path. fork_that none)
        plan
        built
        []
        new_stream in
    Earned false r.state s.calls
host_task-Earned_example =
    host_task-Earned (text "web") disk from_value (λ found path. fork_that none) plan built []

fan_out_with_rc_example :
    (outcome : DeployOutcome) × (fan_out_with
        (λ host. disk)
        from_value
        (λ host found path. fork_that none)
        (λ host. [])
        plan
        built
        (text "web" ∷ [])
        (some (pos 0))
      ≡ ok outcome)
    × ((outcome.rc ≡ 0) ↔ (
        (build_failed (some (pos 0)) ≡ false)
        × All
            (λ host.
              let (r, s) =
                host_outcome
                  (λ host. disk)
                  from_value
                  (λ host found path. fork_that none)
                  (λ host. [])
                  plan
                  built
                  host in
              IsDeployed (read_back host s.written))
            plan.targets))
unfolding get contains
fan_out_with_rc_example =
    fan_out_with_rc (λ host. disk) from_value (λ host found path. fork_that none) (λ host. []) plan
      built (text "web" ∷ []) (some (pos 0)) refl refl (λ host. ground arith)
