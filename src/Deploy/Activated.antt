-- ===== src/Deploy/Activated.antt =====
-- The pipeline of one host: the activation and its ends.
use mandala.Base.{
  ◌≡◌, inl, inr, refl, Bool, true, false, ◌&&◌, none, List, [], ◌∷◌, ◌++◌, if◌then◌else◌, arith,
}
use mandala.Base.Order.{list_ord}
use mandala.Base.Text.{Text, text}
use mandala.Base.Result.{ok}
use mandala.Runner.Host.{confirmed, reboot_pending, failed, milestone_state, activating, waiting}
use mandala.Deploy.Settle.{HostDeployResult}
use mandala.Deploy.Stream.{
  ActivationDisposition, dry_preview, live_switch, boot_staging, Call, pushed, resolved, staged,
  activated, Disk, Task, modify, ◌>>◌, reach_milestone, call_fork,
}
use mandala.Deploy.Pipeline.{
  Fork, is_reboot_pending, is_live_switch, preview, await_rollback, settle_activation, activate,
  activate_as,
}
use mandala.Deploy.Agreed.{Earned, IsAt}
use mandala.Deploy.Ending.{call_fork-IsAt}
use mandala.Deploy.Steps.{Stays, Ends, milestone-Stays}
use mandala.Deploy.Concluded.{Stays->>-Ends, preview-Ends, settle_activation-Ends}

-- The calls before an activation.
abbrev pub readied : ActivationDisposition → List Call
readied found = pushed none ∷ resolved (ok found) ∷ []

module _ (host : Text) (disk : Disk) (dry : Bool) where
  -- A call of the fork, and the rest.
  call_fork->>-Ends :
      (call : Call) (messages : List Text) (k : Task HostDeployResult) (calls : List Call)
      → Ends host disk dry (IsAt host (calls ++ (call ∷ []))) k
      → Ends host disk dry (IsAt host calls) (modify (call_fork host disk call messages) >> k)
  call_fork->>-Ends call messages k calls rest s at =
      rest (call_fork host disk call messages s)
        (call_fork-IsAt host disk dry call messages calls s at)

  -- The activation of a deployment that is not staged.
  deploy_profile-Ends :
      (fork : Fork) (found : ActivationDisposition)
      → is_reboot_pending found ≡ false
      → let e = (fork.deploy_profile dry).1 in
        Ends host disk dry (IsAt host (readied found)) (
          modify (call_fork host disk (activated dry e) (fork.deploy_profile dry).0)
          >> settle_activation host disk (text "confirm") confirmed e)
  unfolding milestone_state
  deploy_profile-Ends fork found live =
      let e = (fork.deploy_profile dry).1 in
      call_fork->>-Ends (activated dry e) (fork.deploy_profile dry).0
        (settle_activation host disk (text "confirm") confirmed e) (readied found)
        (settle_activation-Ends host disk dry (text "confirm") confirmed e
          (readied found ++ (activated dry e ∷ [])) refl refl refl (refl, live, inr refl)
          (refl, live, inl refl))

  -- The rest of the pipeline of a deployment that is not previewed.
  activate-Ends :
      (fork : Fork) (found : ActivationDisposition)
      → is_reboot_pending found && dry ≡ false
      → Ends host disk dry (IsAt host (readied found)) (activate host disk fork dry found)
  unfolding activate milestone_state
  activate-Ends fork boot_staging real =
      let e = fork.stage_profile_for_boot.1 in
      call_fork->>-Ends (staged e) fork.stage_profile_for_boot.0
        (settle_activation host disk (text "reboot-pending") reboot_pending e)
        (readied boot_staging)
        (settle_activation-Ends host disk dry (text "reboot-pending") reboot_pending e
          (readied boot_staging ++ (staged e ∷ [])) refl refl refl (real, refl, inr refl)
          (real, refl, inl refl))
  activate-Ends fork (dry_preview true) real = λ s at. (at.0, rw at.1 (inl refl))
  activate-Ends fork (dry_preview false) real = deploy_profile-Ends fork (dry_preview false) refl
  activate-Ends fork live_switch real = deploy_profile-Ends fork live_switch refl

  await_rollback-Stays :
      (awaits : Bool) (calls : List Call)
      → Earned dry failed calls
      → Stays host disk dry calls (await_rollback host disk awaits)
  unfolding milestone_state
  await_rollback-Stays true calls failing =
      milestone-Stays host disk dry (text "wait") (text "writing activation-wait milestone: ")
        waiting calls refl refl failing
  await_rollback-Stays false calls failing = λ s at. at

  pub activate_as-Ends :
      (fork : Fork) (magic_rollback : Bool) (found : ActivationDisposition)
      → Ends host disk dry
          (IsAt host (readied found))
          (activate_as host disk fork dry magic_rollback found)
  unfolding activate_as milestone_state
  activate_as-Ends fork magic_rollback found = go (is_reboot_pending found && dry) refl
    where
      what : Text
      what = text "writing activation milestone: "

      awaits : Bool
      awaits = is_live_switch found && magic_rollback

      activation : Task HostDeployResult
      activation = await_rollback host disk awaits >> activate host disk fork dry found

      go :
          (b : Bool)
          → (is_reboot_pending found && dry) ≡ b
          → Ends host disk dry (IsAt host (readied found)) (
              if b
              then preview host disk
              else (reach_milestone host disk (text "activate") what >> activation))
      go true e =
          preview-Ends host disk dry (readied found)
            (inr (ground (arith, e), ground (arith, e), refl)) (inl refl)
      go false e =
          Stays->>-Ends host disk dry (reach_milestone host disk (text "activate") what) activation
            (readied found)
            (milestone-Stays host disk dry (text "activate") what activating (readied found) refl
              refl (inl refl))
            (Stays->>-Ends host disk dry (await_rollback host disk awaits)
              (activate host disk fork dry found) (readied found)
              (await_rollback-Stays awaits (readied found) (inl refl)) (activate-Ends fork found e))
