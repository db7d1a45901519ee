-- ===== src/Runner/Build.antt =====
-- crates/mandala-core/src/runner.rs: the model of the build pane.
use mandala.Base.{ℕ, Bool, true, false, Option, none, some, List, [], if◌then◌else◌, unwrap_or}
use mandala.Base.Order.{list_ord, beq}
use mandala.Base.Int.{ℤ, pos}
use mandala.Base.Text.{Text, text}
use mandala.Base.Json.{Value}
use mandala.Runner.Host.{str_of, int_of, push_capped, line_of, kind_of, EventKind, line, done}

abbrev pub build_max_lines : ℕ
build_max_lines = 200

pub record BuildModel : Type 0 where
  pub built : ℤ
  pub finished : ℤ
  pub fetched : ℤ
  pub fetched_done : ℤ
  pub errors : ℤ
  pub current : Text
  pub lines : List Text
  pub is_done : Bool
  pub rc : Option ℤ

abbrev pub new_build : BuildModel
new_build = record {
  built = pos 0;
  finished = pos 0;
  fetched = pos 0;
  fetched_done = pos 0;
  errors = pos 0;
  current = [];
  lines = [];
  is_done = false;
  rc = none;
}

-- A counter keeps its value where the event has none.
abbrev pub copy_progress : BuildModel → Value → BuildModel
copy_progress b event = record b {
  built = unwrap_or (int_of (text "built") event) b.built;
  finished = unwrap_or (int_of (text "finished") event) b.finished;
  fetched = unwrap_or (int_of (text "fetched") event) b.fetched;
  fetched_done = unwrap_or (int_of (text "fetched_done") event) b.fetched_done;
  errors = unwrap_or (int_of (text "errors") event) b.errors;
  current = unwrap_or (str_of (text "current") event) b.current;
}

-- The `line` and `status` arms test what those of `HostRun::feed` test.
abbrev pub feed_build_kind : EventKind → BuildModel → Value → BuildModel
feed_build_kind line b event = record b {
  lines = push_capped b.lines (line_of event) build_max_lines;
}
feed_build_kind done b event = record b { is_done = true; rc = int_of (text "rc") event }
feed_build_kind _ b event = b

abbrev pub is_progress : Value → Bool
is_progress event = elim (str_of (text "event") event) [
  | none ↦ false
  | some kind ↦ beq kind (text "progress")
]

unfoldable pub feed_build : BuildModel → Value → BuildModel
feed_build b event =
    if is_progress event then copy_progress b event else feed_build_kind (kind_of event) b event
