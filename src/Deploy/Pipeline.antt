-- ===== src/Deploy/Pipeline.antt =====
-- crates/mandala-core/src/engines/deploy.rs: the copy and the activation of one host. The
-- deploy-rs fork is a parameter, as is the typed reader of the settings.
use mandala.Base.{
  ℕ, Bool, true, false, ◌&&◌, ◌||◌, Option, none, some, List, [], ◌++◌, if◌then◌else◌, unwrap_or,
}
use mandala.Base.Order.{list_ord}
use mandala.Base.Map.{Map, get}
use mandala.Base.Text.{Text, text}
use mandala.Base.Json.{Value}
use mandala.Base.Result.{Result, ok, err}
use mandala.Runner.Host.{HostState, confirmed, reboot_pending, rolled_back, failed}
use mandala.Deploy.Plan.{DeployPlan}
use mandala.Deploy.Settle.{HostDeployResult}
use mandala.Deploy.Stream.{
  ActivationDisposition, dry_preview, live_switch, boot_staging, DeployProfileError, pushed,
  resolved, staged, activated, HostStream, Disk, Task, pure, stop, modify, returned, panicked,
  ◌>>=◌, ◌>>◌, emit, start_fields, note_line, settle_host, failed_host, return_failed, or_fail,
  reach_milestone, check_sink, call_fork, prefixed,
}

pub data ActivationMode : Type 0 where
  switch boot : ActivationMode

pub record FlattenedDeploySettings : Type 0 where
  pub activation : ActivationMode
  pub hostname : Text
  pub ssh_user : Text
  pub ssh_port : ℕ
  pub identity_file : Option Text
  pub ssh_opts : List Text
  pub auto_rollback : Bool
  pub fast_connection : Bool
  pub magic_rollback : Option Bool
  pub confirm_timeout : Option ℕ
  pub activation_timeout : Option ℕ
  pub temp_path : Option Text
  pub sudo : Option Text
  pub user : Option Text

pub record BuiltProfiles : Type 0 where
  pub paths : Map Text Text
  pub failures : Map Text Text

-- What the fork makes of a deployment: the messages that an operation sends to the sink, and
-- what it comes to.
pub record Fork : Type 0 where
  pub defs : Option Text
  pub push_profile : List Text × Option Text
  pub resolve_activation_disposition :
      (dry_activate wants_boot : Bool) → List Text × Result ActivationDisposition Text
  pub stage_profile_for_boot : List Text × Option DeployProfileError
  pub deploy_profile : (dry_activate : Bool) → List Text × Option DeployProfileError

abbrev pub is_reboot_pending : ActivationDisposition → Bool
is_reboot_pending boot_staging = true
is_reboot_pending (dry_preview pending) = pending
is_reboot_pending live_switch = false

abbrev pub is_live_switch : ActivationDisposition → Bool
is_live_switch live_switch = true
is_live_switch _ = false

abbrev pub is_boot : ActivationMode → Bool
is_boot boot = true
is_boot switch = false

module _ (host : Text) (disk : Disk) where
  -- The value behind `let Some(value) = ... else`.
  abbrev pub some_or_fail {ℓ} : {A : Type ℓ} → Option A → Text → Task A
  some_or_fail none error = return_failed host disk error
  some_or_fail (some a) error = pure a

  abbrev pub ok_or_fail {ℓ} : {A : Type ℓ} → Result A Text → Text → Task A
  ok_or_fail (ok a) what = pure a
  ok_or_fail (err error) what = return_failed host disk (what ++ error)

  -- The end of the pipeline: the result that `host_result` makes.
  abbrev pub conclude : HostState → Option Text → Task HostDeployResult
  conclude state error s = let (r, s') = settle_host host disk state error s in (ok r, s')

  -- A result that is returned before any record of the end could be written.
  abbrev pub unwritten : Text → HostDeployResult
  unwritten error = record { host = host; state = failed; error = some error }

  abbrev pub unwritten_or : Option Text → Task (Unit {0})
  unwritten_or none = pure tt
  unwritten_or (some error) = stop (returned (unwritten error))

  -- `EventWriter::new`; `n` is which opening of the stream this is.
  abbrev pub open_writer : ℕ → (what : Text) → Task (Unit {0})
  open_writer n what = unwritten_or (prefixed what (disk.opening n))

  abbrev pub emit_start : HostStream → Option Text × HostStream
  emit_start = emit host disk (text "status") (start_fields host)

  abbrev pub write_start : Task (Unit {0})
  write_start s =
      let (error, s') = emit_start s in
      unwritten_or (prefixed (text "writing host start status: ") error) s'

  unfoldable pub copy : Fork → Task (Unit {0})
  copy fork = do
    reach_milestone host disk (text "copy") (text "writing copy milestone: ")
    modify (call_fork host disk (pushed fork.push_profile.1) fork.push_profile.0)
    or_fail host disk fork.push_profile.1
    check_sink host disk (text "writing copied output: ")

  unfoldable pub preflight : Fork → (dry_activate wants_boot : Bool) → Task ActivationDisposition
  preflight fork dry_activate wants_boot =
      let found = fork.resolve_activation_disposition dry_activate wants_boot in
      do
        modify (call_fork host disk (resolved found.1) found.0)
        disposition ← ok_or_fail found.1 []
        check_sink host disk (text "writing preflight output: ")
        pure disposition

  -- The end of a dry run of a deployment that would be staged.
  unfoldable pub preview : Task HostDeployResult
  preview = do
    modify
        (note_line host disk (text "dry activation: a real deployment would be staged for reboot"))
    reach_milestone host disk (text "reboot-pending") (text "writing reboot-pending milestone: ")
    conclude reboot_pending none

  -- The milestone `wait`, of a live switch that would be rolled back.
  abbrev pub await_rollback : Bool → Task (Unit {0})
  await_rollback true =
      reach_milestone host disk (text "wait") (text "writing activation-wait milestone: ")
  await_rollback false = pure tt

  -- The match on the result of the activation.
  unfoldable pub settle_activation :
      (milestone : Text) → HostState → Option DeployProfileError → Task HostDeployResult
  settle_activation name state none = do
    check_sink host disk (text "writing activation output: ")
    reach_milestone host disk name (text "writing " ++ name ++ text " milestone: ")
    conclude state none
  settle_activation name state (some error) =
      if error.rolled_back
      then (do
        modify (note_line host disk error.message)
        reach_milestone host disk (text "rollback") (text "writing rollback milestone: ")
        conclude rolled_back (some error.message))
      else return_failed host disk error.message

  unfoldable pub activate :
      Fork → (dry_activate : Bool) → ActivationDisposition → Task HostDeployResult
  activate fork dry_activate boot_staging = do
    modify
        (call_fork host disk (staged fork.stage_profile_for_boot.1) fork.stage_profile_for_boot.0)
    settle_activation (text "reboot-pending") reboot_pending fork.stage_profile_for_boot.1
  activate fork dry_activate (dry_preview true) = stop panicked
  activate fork dry_activate _ =
      let found = fork.deploy_profile dry_activate in
      do
        modify (call_fork host disk (activated dry_activate found.1) found.0)
        settle_activation (text "confirm") confirmed found.1

  -- From the preflight on.
  unfoldable pub activate_as :
      Fork → (dry_activate magic_rollback : Bool) → ActivationDisposition → Task HostDeployResult
  activate_as fork dry_activate magic_rollback disposition =
      if is_reboot_pending disposition && dry_activate then preview else (do
        reach_milestone host disk (text "activate") (text "writing activation milestone: ")
        await_rollback (is_live_switch disposition && magic_rollback)
        activate fork dry_activate disposition)

  -- `n` is which opening of the stream this is.
  unfoldable pub abnormal_host : ℕ → Text → HostStream → HostDeployResult × HostStream
  abnormal_host n error s = elim (disk.opening n) [
    | some failure ↦ (unwritten (error ++ text "; opening host event stream: " ++ failure), s)
    | none ↦ failed_host host disk error (emit_start s).1
  ]

module _ (host : Text) (disk : Disk) (from_value : Value → Result FlattenedDeploySettings Text)
    (make_deploy_data : FlattenedDeploySettings → (profile_path : Text) → Fork) where
  unfoldable pub deploy_host_with : DeployPlan → BuiltProfiles → Task HostDeployResult
  deploy_host_with plan built = do
    open_writer host disk 0 (text "opening host event stream: ")
    write_start host disk
    projected ←
        some_or_fail host disk (get plan.settings host)
          (text "flattened deploy settings are missing")
    settings ←
        ok_or_fail host disk (from_value projected) (text "invalid flattened deploy settings: ")
    profile_path ←
        some_or_fail host disk (get built.paths host) (text "prebuilt profile path is missing")
    or_fail host disk (make_deploy_data settings profile_path).defs
    copy host disk (make_deploy_data settings profile_path)
    disposition ←
        preflight host disk (make_deploy_data settings profile_path) plan.dry_activate
          (plan.boot || is_boot settings.activation)
    activate_as host disk (make_deploy_data settings profile_path) plan.dry_activate
        (unwrap_or settings.magic_rollback true) disposition

  -- The task of a host in the fan-out, and what stands for it when it panics with `message`.
  unfoldable pub host_task :
      DeployPlan → BuiltProfiles → (message : Text) → HostStream → HostDeployResult × HostStream
  host_task plan built message s =
      let (found, s') = deploy_host_with plan built s in
      elim found [
        | ok r ↦ (r, s')
        | err (returned r) ↦ (r, s')
        | err panicked ↦
            abnormal_host host disk 1 (text "host task failed abnormally: " ++ message) s'
      ]
