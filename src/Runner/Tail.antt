-- ===== src/Runner/Tail.antt =====
-- crates/mandala-core/src/runner.rs: `EventTailer`, the incremental reader of the streams of a run.
-- serde's parsers are parameters, and so is what the thread that reads `.drv` files has sent back.
use mandala.Base.{
  ℕ, ◌+◌, Bool, true, false, not, ◌&&◌, ◌||◌, Option, none, some, List, [], ◌∷◌, ◌++◌,
  if◌then◌else◌, map_or, unwrap_or, length, drop, any,
}
use mandala.Base.Order.{list_ord, beq}
use mandala.Base.Map.{Map, get, insert, upsert, values}
use mandala.Base.Int.{ℤ, pos, int_eq}
use mandala.Base.Text.{Text, text, is_empty}
use mandala.Base.Utf8.{is_utf8, complete_lines}
use mandala.Base.Json.{Value}
use mandala.Base.Result.{Result, ok, err}
use mandala.Forest.Message.{NixMessage}
use mandala.Forest.State.{BuildForest, Derivation, with_duration_estimates}
use mandala.Forest.Feed.{feed_line}
use mandala.Forest.Resolver.{apply_derivation, apply_derivation_error, take_pending_derivations}
use mandala.Runner.Host.{HostRun, new_host, feed, str_of, int_of, failed, rolled_back}
use mandala.Runner.Build.{BuildModel, new_build, feed_build}

abbrev pub version_supported : Option ℤ → Bool
version_supported v = map_or v false (λ n. int_eq n (pos 1) || int_eq n (pos 2))

-- `sink` is what `nixlog_sink` was called with, where there is one.
pub record EventTailer : Type 0 where
  pub offsets : Map Text ℕ
  pub hosts : Map Text HostRun
  pub build : BuildModel
  pub forest : BuildForest
  pub sink : Option (List Text)

abbrev pub new_tailer : Map Text ℕ → EventTailer
new_tailer estimates = record {
  offsets = [];
  hosts = [];
  build = new_build;
  forest = with_duration_estimates estimates;
  sink = none;
}

-- The body of the drain of the resolver's results.
abbrev pub receive : Text × Result Derivation Text → BuildForest → BuildForest
receive (path, ok drv) f = apply_derivation path drv f
receive (path, err note) f = apply_derivation_error path note f

unfoldable pub receive_all : List (Text × Result Derivation Text) → BuildForest → BuildForest
receive_all [] f = f
receive_all (r ∷ rs) f = receive_all rs (receive r f)

-- The paths that cannot be sent, as the resolver has stopped.
unfoldable pub refuse_all : List Text → BuildForest → BuildForest
refuse_all [] f = f
refuse_all (path ∷ paths) f =
    refuse_all paths (apply_derivation_error path (text "drv unavailable: resolver stopped") f)

-- The forest, and what is requested of the resolver.
unfoldable pub poll_forest_resolver :
    (received : List (Text × Result Derivation Text))
    → (alive : Bool) → BuildForest
    → BuildForest × List Text
poll_forest_resolver received alive f =
    let taken = take_pending_derivations (receive_all received f) in
    if alive then taken else (refuse_all taken.1 taken.0, [])

unfoldable pub has_unsuccessful_host : Map Text HostRun → Bool
has_unsuccessful_host hosts =
    any (λ host. elim host.state [ failed ↦ true | rolled_back ↦ true | _ ↦ false ]) (values hosts)

-- The variables of the loop over the lines of a file.
pub record Reading : Type 0 where
  pub offset : ℕ
  pub count : ℕ
  pub tailer : EventTailer

module _ (from_str : List ℕ → Option Value) (parse : Text → Option NixMessage) (now : ℕ) where
  abbrev pub route_nixlog : Text → EventTailer → EventTailer
  route_nixlog l t = record t {
    forest = (feed_line parse now l t.forest).0;
    sink = elim t.sink [ none ↦ none | some ls ↦ some (ls ++ (l ∷ [])) ];
  }

  abbrev pub is_str : Text → Text → Value → Bool
  is_str key expected event = map_or (str_of key event) false (beq expected)

  abbrev pub route_host : Value → Option Text → EventTailer → EventTailer
  route_host event none t = t
  route_host event (some host) t =
      if is_empty host
      then t
      else record t { hosts = upsert t.hosts host (new_host host) (λ run. feed run event) }

  abbrev pub route_event : Value → EventTailer → EventTailer
  route_event event t =
      if not (version_supported (int_of (text "v") event))
      then t
      else if is_str (text "event") (text "nixlog") event
      then route_nixlog (unwrap_or (str_of (text "line") event) []) t
      else if is_str (text "plugin") (text "build") event
      then record t { build = feed_build t.build event }
      else route_host event (str_of (text "host") event) t

  unfoldable pub route : List ℕ → EventTailer → EventTailer
  route line t = elim (from_str line) [ none ↦ t | some event ↦ route_event event t ]

  -- The loop over the lines of one file; a line that is not UTF-8 ends it.
  unfoldable pub read_lines : List (List ℕ) → Reading → Reading
  read_lines [] r = r
  read_lines (line ∷ lines) r = elim (is_utf8 line) [
    | false ↦ r
    | true ↦ read_lines lines (record {
      offset = r.offset + length line;
      count = r.count + 1;
      tailer = route line r.tailer;
    })
  ]

  -- What the body of the loop over the files does with the content of one.
  unfoldable pub read_file : (content : List ℕ) → Reading → Reading
  read_file content r = read_lines (complete_lines (drop r.offset content)) r

  abbrev pub poll_file : Text → List ℕ → ℕ × EventTailer → ℕ × EventTailer
  poll_file path content (count, t) =
      let start : Reading = record {
        offset = unwrap_or (get t.offsets path) 0;
        count = count;
        tailer = t;
      } in
      let read = read_file content start in
      (read.count, record read.tailer { offsets = insert read.tailer.offsets path read.offset })

  -- The files that can be opened, in the order of their paths.
  unfoldable pub poll_files : Map Text (List ℕ) → ℕ × EventTailer → ℕ × EventTailer
  poll_files [] p = p
  poll_files ((path, content) ∷ files) p = poll_files files (poll_file path content p)

  abbrev pub with_forest : EventTailer → BuildForest → EventTailer
  with_forest t f = record t { forest = f }

  -- `poll`: what is received of the resolver before and after the files, the content of the files
  -- if the directory can be read, and the count of the records with all that is requested.
  unfoldable pub poll :
      (before after : List (Text × Result Derivation Text))
      → (alive : Bool) → (directory : Option (Map Text (List ℕ))) → EventTailer
      → (ℕ × EventTailer) × List Text
  poll before after alive none t =
      let first = poll_forest_resolver before alive t.forest in
      ((0, with_forest t first.0), first.1)
  poll before after alive (some files) t =
      let first = poll_forest_resolver before alive t.forest in
      let read = poll_files files (0, with_forest t first.0) in
      let last = poll_forest_resolver after alive read.1.forest in
      ((read.0, with_forest read.1 last.0), first.1 ++ last.1)

-- `effective_deploy_returncode`.
unfoldable pub effective_deploy_returncode : Option ℤ → Option (Map Text HostRun) → Option ℤ
effective_deploy_returncode none hosts = none
effective_deploy_returncode (some rc) hosts =
    if int_eq rc (pos 0) && map_or hosts false has_unsuccessful_host then some (pos 1) else some rc
