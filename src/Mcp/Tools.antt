-- ===== src/Mcp/Tools.antt =====
-- crates/mandala-mcp/src/tools.rs and effects.rs: the arguments of the tools, and the effects that
-- the tools have. The text of an error is kept as what it is made of.
use mandala.Base.{ℕ, Bool, Option, List}
use mandala.Base.Map.{Map}
use mandala.Base.Int.{ℤ}
use mandala.Base.Result.{Result}
use mandala.Base.Text.{Text}
use mandala.Base.Json.{Value}
use mandala.Inventory.Validate.{Inventory, InventoryError}

pub record PingTool : Type 0 where
  pub selector : Text
  pub forks : Option ℤ
  pub connect_timeout : Option ℤ

pub record DeployTool : Type 0 where
  pub selector : Text
  pub dry_activate : Option Bool
  pub boot : Option Bool
  pub confirm : Option Text

pub record RestartServiceTool : Type 0 where
  pub selector : Text
  pub unit : Text
  pub confirm : Option Text
  pub forks : Option ℤ

pub record RebootTool : Type 0 where
  pub selector : Text
  pub serial : Option Text
  pub drain : Option Bool
  pub confirm : Option Text

-- A call whose arguments have been parsed, or could not be.
pub data Request : Type 0 where
  members_tool : (full : Option Bool) → Request
  resolve_tool : (selector : Text) → Request
  ping_tool : PingTool → Request
  reload_tool : Request
  deploy_tool : DeployTool → Request
  restart_service_tool : RestartServiceTool → Request
  reboot_tool : RebootTool → Request
  unknown_tool : (name : Text) → Request
  bad_arguments : (name error : Text) → Request

pub data ToolError : Type 0 where
  refused_by_inventory : InventoryError → ToolError
  io_error : Text → ToolError
  ansible_not_found reload_unavailable reboot_unavailable : ToolError
  not_a_unit not_a_serial no_such_tool arguments_error : Text → ToolError

-- A word of a command line, and a number that is printed into one.
pub data Arg : Type 0 where
  word : Text → Arg
  count : ℕ → Arg

pub record AdhocOutput : Type 0 where
  pub stdout : Text
  pub stderr : Text
  pub code : ℤ

pub data AdhocError : Type 0 where
  not_found : AdhocError
  other : Text → AdhocError

pub record DeployLaunch : Type 0 where
  pub run_id : Text
  pub events_dir : Text

pub record CommandLaunch : Type 0 where
  pub run_id : Text
  pub log : Text
  pub launched : Bool

-- The effects that the tools here use, as what each comes to.
pub record Effects : Type 0 where
  pub fresh_inventory : (flake : Text) → Result Inventory InventoryError
  pub run_adhoc : List Arg → Result AdhocOutput AdhocError
  pub launch_deploy :
      (flake limit : Text) (dry_activate boot : Bool) (throttle : ℕ) → Result DeployLaunch Text
  pub launch_command :
      (argv : List Text) (kind : Text) (cwd : Option Text) (extra : Map Text Value)
      → Result CommandLaunch Text
  pub reboot_argv : (target serial : Text) (drain : Bool) → Option (List Text)

-- An effect that was run.
pub data Call : Type 0 where
  evaluated : (flake : Text) → Call
  adhoc : List Arg → Call
  deployed : (flake limit : Text) (dry_activate boot : Bool) (throttle : ℕ) → Call
  launched : (argv : List Text) (kind : Text) (cwd : Option Text) (extra : Map Text Value) → Call

-- What a tool does, and its result.
abbrev pub Run {ℓ} : Type ℓ → Type ℓ
Run A = List Call × Result A ToolError
