-- ===== src/Mcp/Actions.antt =====
-- crates/mandala-mcp/src/server.rs: the tools that act on the fleet.
use mandala.Base.{
  ℕ, Bool, true, false, not, ◌&&◌, ◌||◌, Option, none, some, List, [], ◌∷◌, ◌++◌, if◌then◌else◌,
  all, unwrap_or, ◌==◌,
}
use mandala.Base.Order.{list_ord}
use mandala.Base.Map.{Map}
use mandala.Base.Int.{pos, int_eq}
use mandala.Base.Result.{Result, ok, err}
use mandala.Base.Text.{
  Text, text, is_empty, is_ascii_alphanumeric, is_ascii_digit, strip_suffix, trim,
}
use mandala.Base.Json.{Value, bool, string, object, of_entries}
use mandala.Inventory.Validate.{Inventory}
use mandala.Inventory.Select.{to_limit}
use mandala.Mcp.Tools.{
  DeployTool, RestartServiceTool, RebootTool, ToolError, io_error, reboot_unavailable, not_a_unit,
  not_a_serial, Arg, word, count, AdhocOutput, DeployLaunch, CommandLaunch, Effects, deployed,
  launched, Run,
}
use mandala.Mcp.Output.{lines, restarted_in}
use mandala.Mcp.Probe.{
  insert_all, json, of_int, at_least_one, is_confirmed, after_limit, run_adhoc_with, diagnostics,
}

abbrev pub deploy_throttle : ℕ
deploy_throttle = 4

abbrev is_unit_char : ℕ → Bool
is_unit_char c =
    is_ascii_alphanumeric c || (c == b'@' || c == b':' || c == b'.' || c == b'_' || c == b'-')

unfoldable pub valid_unit : Text → Bool
valid_unit [] = false
valid_unit (first ∷ rest) = is_ascii_alphanumeric first && all is_unit_char rest

unfoldable pub valid_serial : Text → Bool
valid_serial serial =
    let digits = unwrap_or (strip_suffix (b'%' ∷ []) serial) serial in
    not (is_empty digits) && all is_ascii_digit digits

-- A refusal, with the text that `confirm` must be and what else the tool says.
abbrev pub refusal : (reason target : Text) → List (Text × Value) → Value
refusal reason target more = json (
    (text "ok", bool false)
    ∷ (text "refused", bool true)
    ∷ (text "reason", string reason)
    ∷ (text "required_confirm", string target)
    ∷ more)

abbrev deploy_told :
    (target : Text) (dry_activate boot : Bool) → Result DeployLaunch Text → Result Value ToolError
deploy_told target dry_activate boot (err message) = err (io_error message)
deploy_told target dry_activate boot (ok launch) = ok (
    json (
      (text "ok", bool true)
      ∷ (text "run_id", string launch.run_id)
      ∷ (text "limit", string target)
      ∷ (text "dry_activate", bool dry_activate)
      ∷ (text "boot", bool boot)
      ∷ (text "events_dir", string launch.events_dir)
      ∷ []))

abbrev pub refused_deploy : DeployTool → (target : Text) → Run Value
refused_deploy t target = (
  [],
  ok (
      refusal (text "real activation requires `confirm` to equal the resolved target") target (
        (text "dry_activate", bool (unwrap_or t.dry_activate true))
        ∷ (text "boot", bool (unwrap_or t.boot false))
        ∷ [])),
)

abbrev pub launched_deploy : Effects → (flake : Text) → DeployTool → (target : Text) → Run Value
launched_deploy fx flake t target =
    let dry_activate = unwrap_or t.dry_activate true in
    let boot = unwrap_or t.boot false in
    (
      deployed flake target dry_activate boot deploy_throttle ∷ [],
      deploy_told target dry_activate boot
          (fx.launch_deploy flake target dry_activate boot deploy_throttle),
    )

abbrev pub deploy_target_to : Effects → (flake : Text) → DeployTool → (target : Text) → Run Value
deploy_target_to fx flake t target =
    if not (unwrap_or t.dry_activate true) && not (is_confirmed t.confirm target)
    then refused_deploy t target
    else launched_deploy fx flake t target

unfoldable pub tool_deploy : Effects → (flake : Text) → DeployTool → Inventory → Run Value
tool_deploy fx flake t inv = after_limit (to_limit inv t.selector) (deploy_target_to fx flake t)

abbrev pub restart_argv : RestartServiceTool → (target : Text) → List Arg
restart_argv t target =
    word (text "ansible")
    ∷ word target
    ∷ word (text "-m")
    ∷ word (text "ansible.builtin.systemd_service")
    ∷ word (text "-a")
    ∷ word (text "name=" ++ (t.unit ++ text " state=restarted"))
    ∷ word (text "-f")
    ∷ count (at_least_one t.forks 4)
    ∷ []

abbrev restart_value : RestartServiceTool → (target : Text) → AdhocOutput → Value
restart_value t target out =
    let done = int_eq out.code (pos 0) in
    json (
      (text "ok", bool done)
      ∷ (text "limit", string target)
      ∷ (text "unit", string t.unit)
      ∷ (text "restarted", object (of_entries (restarted_in (lines out.stdout) [])))
      ∷ (text "exit_code", of_int out.code)
      ∷ ((if done then [] else (text "output", string (trim out.stdout)) ∷ []) ++ diagnostics out))

abbrev pub refused_unit : RestartServiceTool → Run Value
refused_unit t = ([], err (not_a_unit t.unit))

abbrev pub refused_restart : RestartServiceTool → (target : Text) → Run Value
refused_restart t target = (
  [],
  ok (
      refusal (text "restart_service requires `confirm` to equal the resolved target") target
        ((text "unit", string t.unit) ∷ [])),
)

abbrev pub restarted : Effects → RestartServiceTool → (target : Text) → Run Value
restarted fx t target = run_adhoc_with fx (restart_argv t target) (restart_value t target)

abbrev pub restart_target : Effects → RestartServiceTool → (target : Text) → Run Value
restart_target fx t target =
    if not (valid_unit t.unit)
    then refused_unit t
    else if not (is_confirmed t.confirm target)
    then refused_restart t target
    else restarted fx t target

unfoldable pub tool_restart_service : Effects → RestartServiceTool → Inventory → Run Value
unfolding valid_unit
tool_restart_service fx t inv = after_limit (to_limit inv t.selector) (restart_target fx t)

abbrev pub reboot_meta : (target serial : Text) (drain : Bool) → Map Text Value
reboot_meta target serial drain =
    insert_all
      ((text "limit", string target)
        ∷ (text "serial", string serial)
        ∷ (text "drain", bool drain)
        ∷ [])
      []

abbrev reboot_told :
    (program target serial : Text) (drain : Bool)
    → Result CommandLaunch Text
    → Result Value ToolError
reboot_told program target serial drain (err message) = err (io_error message)
reboot_told program target serial drain (ok launch) =
    if not launch.launched
    then ok (
        json (
          (text "ok", bool false)
          ∷ (text "error", string (text "failed to launch " ++ (program ++ text " — see log")))
          ∷ (text "run_id", string launch.run_id)
          ∷ (text "log", string launch.log)
          ∷ []))
    else ok (
        json (
          (text "ok", bool true)
          ∷ (text "run_id", string launch.run_id)
          ∷ (text "limit", string target)
          ∷ (text "serial", string serial)
          ∷ (text "drain", bool drain)
          ∷ (text "log", string launch.log)
          ∷ []))

abbrev program_of : List Text → Text
program_of [] = []
program_of (program ∷ args) = program

-- The launch of a command line, where the wrapper is there. `dir` is the directory of ansible.
abbrev pub launch_reboot :
    Effects → (dir target serial : Text) (drain : Bool) → Option (List Text) → Run Value
launch_reboot fx dir target serial drain none = ([], err reboot_unavailable)
launch_reboot fx dir target serial drain (some argv) =
    let meta = reboot_meta target serial drain in
    (
      launched argv (text "reboot") (some dir) meta ∷ [],
      reboot_told (program_of argv) target serial drain
          (fx.launch_command argv (text "reboot") (some dir) meta),
    )

abbrev pub serial_of : RebootTool → Text
serial_of t = unwrap_or t.serial (text "1")

abbrev pub drain_of : RebootTool → Bool
drain_of t = unwrap_or t.drain true

abbrev pub refused_serial : RebootTool → Run Value
refused_serial t = ([], err (not_a_serial (serial_of t)))

abbrev pub refused_reboot : (target : Text) → Run Value
refused_reboot target =
    ([], ok (refusal (text "reboot requires `confirm` to equal the resolved target") target []))

abbrev pub rebooted : Effects → (dir : Text) → RebootTool → (target : Text) → Run Value
rebooted fx dir t target =
    launch_reboot fx dir target (serial_of t) (drain_of t)
      (fx.reboot_argv target (serial_of t) (drain_of t))

abbrev pub reboot_target : Effects → (dir : Text) → RebootTool → (target : Text) → Run Value
reboot_target fx dir t target =
    if not (valid_serial (serial_of t))
    then refused_serial t
    else if not (is_confirmed t.confirm target)
    then refused_reboot target
    else rebooted fx dir t target

unfoldable pub tool_reboot : Effects → (dir : Text) → RebootTool → Inventory → Run Value
unfolding valid_serial
tool_reboot fx dir t inv = after_limit (to_limit inv t.selector) (reboot_target fx dir t)
