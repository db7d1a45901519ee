-- ===== src/Tui/Load.antt =====
-- crates/mandala-tui/src/state.rs: the transitions of `AppState` for loads, evaluations and
-- surveys. What chrono makes of a stamp is a parameter, as in Drift.
use mandala.Base.{
  ℕ, ◌+◌, ◌%◌, ◌^◌, Bool, true, false, not, ◌&&◌, ◌||◌, Option, none, some, List, [], ◌∷◌,
  if◌then◌else◌, ◌==◌, map, length, take, unwrap_or, map_or, is_some, bind,
}
use mandala.Base.Order.{list_ord}
use mandala.Base.Map.{Map, get, keys}
use mandala.Base.Int.{ℤ, pos, int_eq}
use mandala.Base.Result.{Result, ok, err}
use mandala.Base.Text.{Text, text, is_empty, join, strip_prefix}
use mandala.Base.Json.{Value, as_str, as_array}
use mandala.Inventory.Member.{Member, surfaces}
use mandala.Inventory.Validate.{Inventory}
use mandala.Inventory.Projection
use mandala.Drift.Compare.{DriftEntry, Snapshot, Toplevels, compare, cache_fresh, sort}
use mandala.Tui.Select.{reset_rows}
use mandala.Tui.State.{
  AppState, MemberRow, GroupRow, DriftRow, DriftHint, not_evaluated, expected_at, contract_moved,
  LoadedInventory, LoadRequest, Status, loaded, load_failed, eval_failed_for, eval_failed_with,
  drift_refreshed, drift_refreshed_mcp, surveyed, survey_failed, set_status,
}

-- What a transition may start.
abbrev pub Step : Type 0
Step = AppState × Option LoadRequest

unfoldable pub request_load : AppState → Step
request_load s = if s.busy then (record s { reload_pending = true }, none) else (
  record s { busy = true; fresh_wanted = false },
  some (record { generation = s.generation; fresh = s.fresh_wanted }),
)

unfoldable pub request_rebind : (fresh : Bool) → AppState → Step
unfolding request_load
request_rebind fresh s = request_load (record s {
  generation = (s.generation + 1) % 2 ^ 64;
  inventory = none;
  expected = none;
  fresh_wanted = s.fresh_wanted || fresh;
})

abbrev pub request_reload : AppState → Step
request_reload = request_rebind true

abbrev pub request_inventory_swap : AppState → Step
request_inventory_swap = request_rebind false

unfoldable pub consume_pending_reload : AppState → Step
unfolding request_load
consume_pending_reload s =
    if s.reload_pending && not s.busy
    then request_load (record s { reload_pending = false })
    else (s, none)

abbrev pub field_or : Option Value → Text → Text
field_or value default = unwrap_or (bind value as_str) default

abbrev pub role_or_dash : Option Value → Text
role_or_dash value =
    let role = unwrap_or (bind value as_str) [] in if is_empty role then text "-" else role

abbrev pub strings_of : List Value → List Text
strings_of [] = []
strings_of (v ∷ vs) = let rest = strings_of vs in map_or (as_str v) rest (λ s. s ∷ rest)

abbrev pub join_tags : Option Value → Text
join_tags value = map_or (bind value as_array) [] (λ vs. join (text " ") (strings_of vs))

abbrev pub short_store : Option Text → Text
short_store path =
    let p = unwrap_or path [] in take 18 (unwrap_or (strip_prefix (text "/nix/store/") p) p)

abbrev pub member_row : Text × Member → MemberRow
member_row (name, m) = record {
  name = name;
  platform = field_or (get m (text "platform")) (text "?");
  arch = field_or (get m (text "architecture")) (text "?");
  category = field_or (get m (text "category")) (text "?");
  role = role_or_dash (get m (text "role"));
  tags = join_tags (get m (text "tags"));
  surfaces = surfaces m;
}

abbrev pub group_row : Text × List Text → GroupRow
group_row (group, names) = record {
  name = group;
  n = length names;
  members = join (text " ") (sort names);
}

abbrev pub drift_row : DriftEntry → DriftRow
drift_row e = record {
  name = e.host;
  status = e.status;
  current = short_store e.current;
  expected = short_store e.expected;
  booted = short_store e.booted;
  captured = take 19 (unwrap_or e.captured_at []);
}

abbrev pub hint_of : (expected_known : Bool) → (rev cached_rev : Option Text) → DriftHint
hint_of expected_known rev cached_rev =
    if expected_known
    then expected_at rev
    else if is_some cached_rev
    then contract_moved cached_rev rev
    else not_evaluated

abbrev pub deploy_nodes : AppState → List Text
deploy_nodes s = map_or s.inventory [] Projection.deploy_nodes

-- `Toplevels::from` of the cached paths.
abbrev pub of_cached : Map Text Text → Toplevels
of_cached cached = record { paths = cached; errors = [] }

-- The cached paths, where the cache is of the current revision.
abbrev pub adopt_cache : Map Text Text → AppState → AppState
adopt_cache cached s =
    if cache_fresh s.cached_rev s.rev then record s { expected = some (of_cached cached) } else s

-- `fill`, up to the rows of the members and the groups.
abbrev pub fill_rows : Inventory → AppState → AppState
fill_rows inventory s =
    let member_rows = map member_row inventory.aggregate.members in
    let group_rows = map group_row inventory.aggregate.groups in
    record s {
      member_rows = member_rows;
      members_table = reset_rows (map (λ r. r.name) member_rows);
      group_rows = group_rows;
      groups_table = reset_rows (map (λ r. r.name) group_rows);
      inventory = some inventory;
    }

-- What the evaluation came to: the state, and the message if it failed for some host or for all.
abbrev pub adopt_eval : Result (Option Text × Toplevels) Text → AppState → AppState × Option Status
adopt_eval (ok (rev, expected)) s = (
  record s { rev = rev; cached_rev = rev; expected = some expected },
  if is_empty expected.errors then none else some (eval_failed_for (keys expected.errors)),
)
adopt_eval (err error) s = (record s { expected = none }, some (eval_failed_with error))

abbrev pub report : Option Status → AppState → AppState
report (some error) s = set_status error true s
report none s = set_status drift_refreshed false s

abbrev pub loaded_status : LoadedInventory → Status
loaded_status l =
    loaded (length l.inventory.aggregate.members) (length l.inventory.aggregate.groups)

module _ (max_age : ℤ) (age_of : Text → Option ℤ) where
  unfoldable pub fill_drift : Map Text Snapshot → AppState → AppState
  fill_drift snapshots s =
      let rows =
        map drift_row (compare age_of (deploy_nodes s) snapshots s.expected (some max_age)) in
      record s {
        drift_rows = rows;
        drift_table = reset_rows (map (λ r. r.name) rows);
        drift_hint = hint_of (is_some s.expected) s.rev s.cached_rev;
      }

  -- `fill`, up to the rows of the drift.
  abbrev pub painted : LoadedInventory → Map Text Snapshot → AppState → AppState
  painted l snapshots s =
      let known = adopt_cache l.cached (record s { rev = l.rev; cached_rev = l.cached_rev }) in
      fill_drift snapshots (fill_rows l.inventory known)

  unfoldable pub fill : LoadedInventory → Map Text Snapshot → AppState → Step
  unfolding fill_drift consume_pending_reload set_status
  fill l snapshots s =
      consume_pending_reload
        (set_status (loaded_status l) false (record (painted l snapshots s) { busy = false }))

  abbrev pub settle_load : Result LoadedInventory Text → Map Text Snapshot → AppState → Step
  settle_load (err error) snapshots s =
      consume_pending_reload (set_status (load_failed error) true (record s { busy = false }))
  settle_load (ok l) snapshots s = fill l snapshots s

  unfoldable pub on_load_finished :
      (generation : ℕ) → Result LoadedInventory Text → Map Text Snapshot → AppState → Step
  unfolding consume_pending_reload set_status fill
  on_load_finished generation result snapshots s =
      if not (generation == s.generation)
      then consume_pending_reload (record s { busy = false })
      else settle_load result snapshots s

  unfoldable pub on_drift_eval_finished :
      Result (Option Text × Toplevels) Text → Map Text Snapshot → AppState → Step
  unfolding fill_drift consume_pending_reload set_status
  on_drift_eval_finished result snapshots s =
      let adopted = adopt_eval result (record s { busy = false; expected_eval_running = false }) in
      consume_pending_reload (report adopted.1 (fill_drift snapshots adopted.0))

  unfoldable pub on_survey_done :
      (n : ℕ) → (rc : ℤ) → (error : Option Text) → Map Text Snapshot → AppState → AppState
  unfolding fill_drift set_status
  on_survey_done n rc error snapshots s =
      let painted = fill_drift snapshots (record s { surveying = false; survey_n = n }) in
      if int_eq rc (pos 0)
      then set_status (surveyed n) false painted
      else set_status (survey_failed rc (unwrap_or error [])) true painted

  unfoldable pub on_mcp_drift_landed :
      (rev cached_rev : Option Text) → Map Text Text → Map Text Snapshot → AppState → AppState
  unfolding fill_drift set_status
  on_mcp_drift_landed rev cached_rev cached snapshots s =
      let known = adopt_cache cached (record s { rev = rev; cached_rev = cached_rev }) in
      set_status drift_refreshed_mcp false (fill_drift snapshots known)

unfoldable pub request_eval_expected : AppState → AppState × Bool
request_eval_expected s =
    if s.busy
    then (
      record s { expected_eval_pending = s.expected_eval_pending || not s.expected_eval_running },
      false,
    )
    else (record s { busy = true; expected_eval_running = true }, true)

unfoldable pub start_pending_eval_expected : AppState → AppState × Bool
start_pending_eval_expected s = if s.busy || not s.expected_eval_pending then (s, false) else (
  record s { expected_eval_pending = false; busy = true; expected_eval_running = true },
  true,
)

unfoldable pub request_survey : AppState → AppState × Bool
request_survey s =
    if s.surveying then (s, false) else (record s { surveying = true; survey_n = 0 }, true)

abbrev pub on_survey_progress : ℕ → AppState → AppState
on_survey_progress n s = record s { survey_n = n }

-- `refresh_drift`: whether to start an evaluation, and whether to start a survey.
unfoldable pub refresh_drift : AppState → AppState × Bool × Bool
unfolding request_eval_expected request_survey
refresh_drift s =
    let first = request_eval_expected (record s { status_sticky = false }) in
    let second = request_survey first.0 in (second.0, first.1, second.1)

-- `after_mutation`: a run that was cancelled has no exit code.
unfoldable pub after_mutation : Option ℤ → AppState → AppState × Bool × Bool
unfolding refresh_drift
after_mutation rc s = if is_some rc then refresh_drift s else (s, false, false)
