-- ===== src/Deploy/Concluded.antt =====
-- The pipeline of one host: the ends of an activation.
use mandala.Base.{
  ◌≡◌, refl, sym, Bool, true, false, Option, none, some, List, ◌++◌, is_some, if◌then◌else◌,
}
use mandala.Base.Order.{list_ord}
use mandala.Base.Text.{Text, text}
use mandala.Runner.Host.{
  HostState, reboot_pending, rolled_back, failed, is_terminal, milestone_state,
}
use mandala.Deploy.Settle.{HostDeployResult}
use mandala.Deploy.Stream.{
  DeployProfileError, Call, Disk, Task, modify, ◌>>◌, note_line, return_failed, reach_milestone,
  check_sink,
}
use mandala.Deploy.Pipeline.{conclude, preview, settle_activation}
use mandala.Deploy.Observed.{read_back}
use mandala.Deploy.Triple.{>>-Holds}
use mandala.Deploy.Agreed.{Earned, Ended, Stopped, IsAt, ended_badly, after, reached-CanEnd}
use mandala.Deploy.Ending.{settle_host-Ended, failed_host-Ended}
use mandala.Deploy.Steps.{
  Stays, Ends, HasCome, check_sink-Stays, note_line-Stays, milestone-HasCome,
}

module _ (host : Text) (disk : Disk) (dry : Bool) where
  pub conclude-Ends :
      (state : HostState) (error : Option Text) (calls : List Call)
      → is_terminal state ≡ true
      → is_some error ≡ ended_badly state
      → Earned dry state calls
      → Earned dry failed calls
      → Ends host disk dry (HasCome host disk dry state calls) (conclude host disk state error)
  conclude-Ends state error calls terminal reported earned failing s come =
      settle_host-Ended host disk dry state error calls s
        (λ named. reached-CanEnd state error (read_back host s.written) terminal (come.0 named))
        come.1 terminal reported earned failing

  -- A milestone of a terminal state, and the end.
  pub milestone_conclude-Ends :
      (name what : Text) (state : HostState) (error : Option Text) (calls : List Call)
      → milestone_state name ≡ some state
      → is_terminal state ≡ true
      → is_some error ≡ ended_badly state
      → Earned dry state calls
      → Earned dry failed calls
      → Ends host disk dry
          (IsAt host calls)
          (reach_milestone host disk name what >> conclude host disk state error)
  milestone_conclude-Ends name what state error calls e terminal reported earned failing =
      >>-Holds (Stopped host dry) (HasCome host disk dry state calls) (Ended host dry)
        (reach_milestone host disk name what) (conclude host disk state error)
        (milestone-HasCome host disk dry name what state calls e failing)
        (conclude-Ends state error calls terminal reported earned failing)

  pub return_failed-Ends :
      (error : Text) (calls : List Call)
      → Earned dry failed calls
      → Ends host disk dry (IsAt host calls) (return_failed host disk error)
  return_failed-Ends error calls failing s at =
      failed_host-Ended host disk dry error calls s failing at

  -- An action that leaves the host where it stands, and the rest.
  pub Stays->>-Ends :
      (m : Task (Unit {0})) (k : Task HostDeployResult) (calls : List Call)
      → Stays host disk dry calls m
      → Ends host disk dry (IsAt host calls) k
      → Ends host disk dry (IsAt host calls) (m >> k)
  Stays->>-Ends m k calls first rest =
      >>-Holds (Stopped host dry) (IsAt host calls) (Ended host dry) m k first rest

  pub preview-Ends :
      (calls : List Call)
      → Earned dry reboot_pending calls
      → Earned dry failed calls
      → Ends host disk dry (IsAt host calls) (preview host disk)
  unfolding preview milestone_state
  preview-Ends calls earned failing =
      let said = text "dry activation: a real deployment would be staged for reboot" in
      let name = text "reboot-pending" in
      let what = text "writing reboot-pending milestone: " in
      Stays->>-Ends (modify (note_line host disk said))
        (reach_milestone host disk name what >> conclude host disk reboot_pending none) calls
        (note_line-Stays host disk dry said calls)
        (milestone_conclude-Ends name what reboot_pending none calls refl refl refl earned failing)

  pub rollback-Ends :
      (message : Text) (calls : List Call)
      → Earned dry rolled_back calls
      → Earned dry failed calls
      → Ends host disk dry (IsAt host calls) (do
        modify (note_line host disk message)
        reach_milestone host disk (text "rollback") (text "writing rollback milestone: ")
        conclude host disk rolled_back (some message))
  unfolding milestone_state
  rollback-Ends message calls earned failing =
      let what = text "writing rollback milestone: " in
      Stays->>-Ends (modify (note_line host disk message))
        (reach_milestone host disk (text "rollback") what
          >> conclude host disk rolled_back (some message))
        calls (note_line-Stays host disk dry message calls)
        (milestone_conclude-Ends (text "rollback") what rolled_back (some message) calls refl refl
          refl earned failing)

  -- The match on what an activation came to; `succeeds` is that the calls earn its state.
  pub settle_activation-Ends :
      (name : Text) (state : HostState) (e : Option DeployProfileError) (calls : List Call)
      → milestone_state name ≡ some state
      → is_terminal state ≡ true
      → ended_badly state ≡ false
      → Earned dry (after state e) calls
      → Earned dry failed calls
      → Ends host disk dry (IsAt host calls) (settle_activation host disk name state e)
  unfolding settle_activation
  settle_activation-Ends name state none calls reads terminal succeeds earned failing =
      let what = text "writing " ++ name ++ text " milestone: " in
      let sink = text "writing activation output: " in
      Stays->>-Ends (check_sink host disk sink)
        (reach_milestone host disk name what >> conclude host disk state none) calls
        (check_sink-Stays host disk dry sink calls failing)
        (milestone_conclude-Ends name what state none calls reads terminal (sym succeeds) earned
          failing)
  settle_activation-Ends name state (some e) calls reads terminal succeeds earned failing =
      go e.rolled_back earned
    where
      go :
          (b : Bool)
          → Earned dry (if b then rolled_back else failed) calls
          → Ends host disk dry (IsAt host calls) (
              if b
              then (do
                modify (note_line host disk e.message)
                reach_milestone host disk (text "rollback") (text "writing rollback milestone: ")
                conclude host disk rolled_back (some e.message))
              else return_failed host disk e.message)
      go false earned' = return_failed-Ends e.message calls failing
      go true earned' = rollback-Ends e.message calls earned' failing
