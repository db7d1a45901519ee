-- ===== src/Deploy/FannedOut.antt =====
-- What the code of a fan-out says of the streams of its hosts.
use mandala.Base.{
  ◌≡◌, ◌↔◌, ◌∙◌, ap, sym, refl, Bool, true, false, ◌&&◌, Option, none, some, List, [], ◌∷◌, any,
  All, if◌then◌else◌, arith, Bool-cases, inl, inr,
}
use mandala.Base.Order.{list_ord, beq, beq_iff}
use mandala.Base.Map.{Map, get, insert, values, contains_key, get-insert}
use mandala.Base.Set.{contains, All-contains, contains-All}
use mandala.Base.Int.{ℤ}
use mandala.Base.Text.{Text, text}
use mandala.Base.Json.{Value}
use mandala.Base.Result.{Result, ok}
use mandala.Deploy.Plan.{DeployPlan}
use mandala.Deploy.Settle.{HostDeployResult, DeployOutcome, build_failed, settle_fan_out, collect}
use mandala.Deploy.Settled.{settle_fan_out_rc, is_unsuccessful}
use mandala.Deploy.Stream.{HostStream, Disk, new_stream, is_build}
use mandala.Deploy.Pipeline.{FlattenedDeploySettings, BuiltProfiles, Fork, abnormal_host, host_task}
use mandala.Deploy.FanOut.{
  host_outcome, refuse_unbuilt, is_spawned, joined, fan_out_with, throttle_error,
}
use mandala.Deploy.Observed.{read_back}
use mandala.Deploy.Agreed.{Ended}
use mandala.Deploy.Deployed.{abnormal_host-Ended}
use mandala.Deploy.HostTask.{host_task-Ended, new_stream-IsAt}
use mandala.Deploy.Told.{IsDeployed, any-insert, any-get, IsDeployed-iff}

module _ (disks : Text → Disk) (from_value : Value → Result FlattenedDeploySettings Text)
    (make_deploy_data : (host : Text) → FlattenedDeploySettings → (profile_path : Text) → Fork)
    (panic_message : Text → Text) (plan : DeployPlan) (built : BuiltProfiles) where
  abbrev out : Text → HostDeployResult
  out host = (host_outcome disks from_value make_deploy_data panic_message plan built host).0

  abbrev seen : Text → HostStream
  seen host = (host_outcome disks from_value make_deploy_data panic_message plan built host).1

  abbrev ended_tasks : List Text → List (Text × HostDeployResult)
  ended_tasks = joined disks from_value make_deploy_data panic_message plan built

  abbrev refused : List Text → Map Text HostDeployResult → Map Text HostDeployResult
  refused = refuse_unbuilt disks from_value make_deploy_data panic_message plan built

  host_outcome-Ended :
      (host : Text)
      → let (r, s) = host_outcome disks from_value make_deploy_data panic_message plan built host in
        Ended host plan.dry_activate r s
  unfolding host_outcome
  host_outcome-Ended host = go (get built.failures host)
    where
      outcome : Option Text → HostDeployResult × HostStream
      outcome e = elim e [
        | some error ↦ abnormal_host host (disks host) 0 error new_stream
        | none ↦
            host_task host (disks host) from_value (make_deploy_data host) plan built
              (panic_message host) new_stream
      ]

      go : (e : Option Text) → Ended host plan.dry_activate (outcome e).0 (outcome e).1
      go none =
          host_task-Ended host (disks host) from_value (make_deploy_data host) plan built
            (panic_message host)
      go (some error) =
          abnormal_host-Ended host (disks host) plan.dry_activate 0 error [] new_stream refl
            (new_stream-IsAt host)

  out-host : (host : Text) → (out host).host ≡ host
  out-host host = (host_outcome-Ended host).1.0

  get-insert-out :
      (m : Map Text HostDeployResult) (host q : Text) (key : Text)
      → key ≡ host
      → get (insert m key (out host)) q ≡ (if beq q host then some (out q) else get m q)
  get-insert-out m host q key e = rw e (get-insert m host q (out host) ∙ go (beq q host) refl)
    where
      go :
          (b : Bool)
          → beq q host ≡ b
          → (if b then some (out host) else get m q) ≡ (if b then some (out q) else get m q)
      go true same = ap (λ x. some (out x)) (sym ((beq_iff q host).0 same))
      go false other = refl

  get-collect_ended :
      (order : List Text) (m : Map Text HostDeployResult) (q : Text)
      → get (collect (ended_tasks order) m) q ≡ (if contains order q then some (out q) else get m q)
  unfolding contains
  get-collect_ended [] m q = refl
  get-collect_ended (host ∷ order) m q = ground (
    arith,
    get-collect_ended order (insert m (out host).host (out host)) q,
    get-insert-out m host q (out host).host (out-host host),
  )

  get-refused :
      (hosts : List Text) (m : Map Text HostDeployResult) (q : Text)
      → get (refused hosts m) q
        ≡ (if contains hosts q && contains_key built.failures q then some (out q) else get m q)
  unfolding contains refuse_unbuilt
  get-refused [] m q = refl
  get-refused (host ∷ hosts) m q = ground (
    arith,
    get-refused hosts (insert m host (out host)) q,
    get-refused hosts m q,
    get-insert-out m host q host refl,
    beq_iff q host,
  )

  any-collect_ended :
      (order : List Text) (m : Map Text HostDeployResult)
      → any is_unsuccessful (values m) ≡ false
      → ((q : Text) → contains order q ≡ true → is_unsuccessful (out q) ≡ false)
      → any is_unsuccessful (values (collect (ended_tasks order) m)) ≡ false
  unfolding contains
  any-collect_ended [] m none_of good = none_of
  any-collect_ended (host ∷ order) m none_of good =
      any-collect_ended order (insert m (out host).host (out host))
        (any-insert is_unsuccessful m (out host).host (out host) none_of
          (good host (ground (arith, beq_iff host host))))
        (λ q held. good q (ground (arith, held)))

  any-refused :
      (hosts : List Text) (m : Map Text HostDeployResult)
      → any is_unsuccessful (values m) ≡ false
      → ((q : Text) → contains hosts q ≡ true → is_unsuccessful (out q) ≡ false)
      → any is_unsuccessful (values (refused hosts m)) ≡ false
  unfolding contains refuse_unbuilt
  any-refused [] m none_of good = none_of
  any-refused (host ∷ hosts) m none_of good =
      let rest : (q : Text) → contains hosts q ≡ true → is_unsuccessful (out q) ≡ false =
        λ q held. good q (ground (arith, held)) in
      let here = good host (ground (arith, beq_iff host host)) in
      go (contains_key built.failures host)
        (any-refused hosts (insert m host (out host))
          (any-insert is_unsuccessful m host (out host) none_of here) rest)
        (any-refused hosts m none_of rest)
    where
      go :
          (b : Bool)
          → any is_unsuccessful (values (refused hosts (insert m host (out host)))) ≡ false
          → any is_unsuccessful (values (refused hosts m)) ≡ false
          → any is_unsuccessful
              (values (if b then refused hosts (insert m host (out host)) else refused hosts m))
            ≡ false
      go true inserted kept = inserted
      go false inserted kept = kept

  told :
      (host : Text)
      → is_build host ≡ false
      → (is_unsuccessful (out host) ≡ false) ↔ IsDeployed (read_back host (seen host).written)
  told host named =
      let ended = host_outcome-Ended host in
      IsDeployed-iff host (out host) (read_back host (seen host).written) (ended.0 named) ended.1

  abbrev settled : List Text → Map Text HostDeployResult
  settled order = collect (ended_tasks order) (refused plan.targets [])

  abbrev AllDeployed : Type 0
  AllDeployed = All (λ host. IsDeployed (read_back host (seen host).written)) plan.targets

  target_named :
      (host : Text)
      → contains plan.targets (text "build") ≡ false
      → contains plan.targets host ≡ true
      → is_build host ≡ false
  target_named host named target = elim (Bool-cases (is_build host)) [
    | inl e ↦
        let held : contains plan.targets (text "build") ≡ true =
          rw ((beq_iff host (text "build")).0 e) at target in
        ground (arith, held, named)
    | inr e ↦ e
  ]

  any-settled :
      (order : List Text)
      → contains plan.targets (text "build") ≡ false
      → ((host : Text) → contains order host ≡ is_spawned plan built host)
      → (any is_unsuccessful (values (settled order)) ≡ false) ↔ AllDeployed
  unfolding get
  any-settled order named spawned = (
    λ none_of.
        All-contains (λ host. IsDeployed (read_back host (seen host).written)) plan.targets
          (λ host target.
            let found : get (settled order) host ≡ some (out host) = ground (
              arith,
              get-collect_ended order (refused plan.targets []) host,
              get-refused plan.targets [] host,
              spawned host,
              target,
            ) in
            (told host (target_named host named target)).0
              (any-get is_unsuccessful (settled order) host (out host) none_of found)),
    λ deployed.
        let good : (q : Text) → contains plan.targets q ≡ true → is_unsuccessful (out q) ≡ false =
          λ q target. (told q (target_named q named target)).1 (
            contains-All (λ host. IsDeployed (read_back host (seen host).written)) plan.targets q
              deployed target) in
        any-collect_ended order (refused plan.targets []) (any-refused plan.targets [] refl good)
          (λ q held. good q (ground (arith, spawned q, held))),
  )

  -- The tasks of a fan-out are for the targets whose profile did not fail to build. In whatever order
  -- they end, a run whose throttle is positive and that has no target named `build` has an outcome, and its code is 0 exactly if the build
  -- did not fail and, in the stream of every target, a reader finds a host that is confirmed or
  -- reboot pending, and the code 0.
  pub fan_out_with_rc :
      (order : List Text) (build_rc : Option ℤ)
      → throttle_error plan.throttle ≡ none
      → contains plan.targets (text "build") ≡ false
      → ((host : Text) → contains order host ≡ is_spawned plan built host)
      → (outcome : DeployOutcome) × (fan_out_with disks from_value make_deploy_data panic_message
            plan built order build_rc
          ≡ ok outcome)
        × ((outcome.rc ≡ 0) ↔ (
            (build_failed build_rc ≡ false)
            × All
                (λ host.
                  let (r, s) =
                    host_outcome disks from_value make_deploy_data panic_message plan built host in
                  IsDeployed (read_back host s.written))
                plan.targets))
  unfolding fan_out_with
  fan_out_with_rc order build_rc throttled named spawned =
      let code = settle_fan_out_rc build_rc (settled order) in
      let all = any-settled order named spawned in
      (
        settle_fan_out build_rc (settled order),
        rw (throttled, fan_out_with) refl,
        (
          λ zero_rc. (ground (arith, code, zero_rc), all.0 (ground (arith, code, zero_rc))),
          λ both. let none_of = all.1 both.1 in ground (arith, code, both.0, none_of),
        ),
      )
