-- ===== src/Deploy/FanOut.antt =====
-- crates/mandala-core/src/engines/deploy.rs: the fan-out over the targets of a run. The tasks end
-- in any order, and each writes the stream of its own host.
use mandala.Base.{zero, suc, Bool, Option, none, some, List, [], ◌∷◌, map, if◌then◌else◌, not, ◌&&◌}
use mandala.Base.Order.{list_ord}
use mandala.Base.Map.{Map, get, insert, contains_key}
use mandala.Base.Set.{contains}
use mandala.Base.Int.{ℤ, pos, negsuc}
use mandala.Base.Text.{Text, text}
use mandala.Base.Json.{Value}
use mandala.Base.Result.{Result, ok, err}
use mandala.Deploy.Plan.{DeployPlan}
use mandala.Deploy.Settle.{HostDeployResult, DeployOutcome, collect, settle_fan_out}
use mandala.Deploy.Stream.{HostStream, Disk, new_stream}
use mandala.Deploy.Pipeline.{FlattenedDeploySettings, BuiltProfiles, Fork, abnormal_host, host_task}

-- What is said of a throttle that is not positive.
abbrev pub throttle_error : ℤ → Option Text
throttle_error (negsuc n) = some (text "validated deploy throttle is outside usize")
throttle_error (pos zero) = some (text "validated deploy throttle is zero")
throttle_error (pos (suc n)) = none

-- A target for which the first loop starts a task.
abbrev pub is_spawned : DeployPlan → BuiltProfiles → Text → Bool
is_spawned plan built host = contains plan.targets host && not (contains_key built.failures host)

module _ (disks : Text → Disk) (from_value : Value → Result FlattenedDeploySettings Text)
    (make_deploy_data : (host : Text) → FlattenedDeploySettings → (profile_path : Text) → Fork)
    (panic_message : Text → Text) (plan : DeployPlan) (built : BuiltProfiles) where
  -- A host's part of the fan-out: its task, or the result of a profile that was not built.
  unfoldable pub host_outcome : Text → HostDeployResult × HostStream
  host_outcome host = elim (get built.failures host) [
    | some error ↦ abnormal_host host (disks host) 0 error new_stream
    | none ↦
        host_task host (disks host) from_value (make_deploy_data host) plan built
          (panic_message host) new_stream
  ]

  -- The results of the first loop, for the targets without a profile.
  unfoldable pub refuse_unbuilt : List Text → Map Text HostDeployResult → Map Text HostDeployResult
  refuse_unbuilt [] results = results
  refuse_unbuilt (host ∷ hosts) results =
      if contains_key built.failures host
      then refuse_unbuilt hosts (insert results host (host_outcome host).0)
      else refuse_unbuilt hosts results

  -- The tasks that have ended, in the order in which they do.
  abbrev pub joined : List Text → List (Text × HostDeployResult)
  joined order = map (λ host. ((host_outcome host).0.host, (host_outcome host).0)) order

  -- `order` is the order in which the tasks end, and `build_rc` what the metadata says of the build.
  unfoldable pub fan_out_with : (order : List Text) → Option ℤ → Result DeployOutcome Text
  fan_out_with order build_rc = elim (throttle_error plan.throttle) [
    | some error ↦ err error
    | none ↦ ok (settle_fan_out build_rc (collect (joined order) (refuse_unbuilt plan.targets [])))
  ]
