-- ===== src/Tui/EventTests.antt =====
-- Runs of the session, of the activity log and of the keys.
use mandala.Base.{true, any, get_elem?, ℕ, ◌≡◌, refl, false, Option, none, some, List, [], ◌∷◌}
use mandala.Base.Last.{last_n}
use mandala.Base.Order.{nat_ord}
use mandala.Base.Map.{get}
use mandala.Base.Int.{ℤ, pos}
use mandala.Base.Result.{ok}
use mandala.Base.Text.{Text, text}
use mandala.Base.Json.{Value, string, number, object, of_entries}
use mandala.Base.Json.Number.{pos_int}
use mandala.Inventory.Validate.{Inventory, Aggregate}
use mandala.Drift.Compare.{Toplevels, cache_fresh}
use mandala.Tui.State.{new_state, LoadedInventory, observer, expected_at}
use mandala.Tui.Activity.{mcp_log_max}
use mandala.Tui.Session.{
  Event, reload, refresh, load_finished, drift_eval_finished, handle_all, new_session,
}
use mandala.Tui.Keys.{
  global, quit, char, KeyEvent, control, modified, matches, normalized_modifiers, Binding, binding,
}
use mandala.Tui.Keymap.{bindings, resolve_key}
use mandala.Tui.Unshadowed.{resolve_key-only}
use mandala.Tui.Consistent.{IsConsistent}
use mandala.Tui.Owed.{handle_all-IsConsistent}
use mandala.Tui.Stale.{shown, evaluating_in, stale_eval-shown}
use mandala.Tui.Logged.{
  all_activity, in_context, settled, owned, awaited, last_call, all_activity-shows,
}

abbrev max_age : ℤ
max_age = pos 3600

abbrev age_of : Text → Option ℤ
age_of stamp = none

abbrev aggregate : Aggregate
aggregate = record { schema_version = number (pos_int 1); members = []; groups = []; extra = [] }

abbrev inventory : Inventory
inventory = record { aggregate = aggregate; controller_platform = none }

abbrev reloaded : LoadedInventory
reloaded = record {
  inventory = inventory;
  rev = some (text "new");
  cached_rev = some (text "old");
  cached = [];
}

abbrev evaluated : Toplevels
evaluated = record { paths = (text "web", text "/nix/store/old") ∷ []; errors = [] }

-- A reload and a refresh while the first load runs.
abbrev events : List Event
events =
    reload
    ∷ refresh
    ∷ load_finished (ok reloaded) []
    ∷ load_finished (ok reloaded) []
    ∷ drift_eval_finished (ok (some (text "new"), evaluated)) []
    ∷ []

handle_all-IsConsistent_example : IsConsistent (handle_all max_age age_of events new_session)
handle_all-IsConsistent_example = handle_all-IsConsistent max_age age_of events

old_not_fresh : cache_fresh (some (text "old")) (some (text "new")) ≡ false
unfolding cache_fresh
old_not_fresh = refl

stale_eval-shown_example :
    shown
      (handle_all max_age age_of
        (reload
          ∷ drift_eval_finished (ok (some (text "old"), evaluated)) []
          ∷ load_finished (ok reloaded) []
          ∷ [])
        (evaluating_in new_state)).state
    ≡ (some evaluated, expected_at (some (text "new")))
stale_eval-shown_example =
    stale_eval-shown max_age age_of new_state (some (text "old")) evaluated reloaded [] []
      old_not_fresh

abbrev activity : (status : Text) (seq : ℕ) → Value
activity status seq = object (
    of_entries (
      (text "origin", string (text "agent"))
      ∷ (text "seq", number (pos_int seq))
      ∷ (text "status", string status)
      ∷ (text "tool", string (text "deploy"))
      ∷ []))

abbrev calls : List Value
calls = activity (text "start") 1 ∷ activity (text "start") 2 ∷ activity (text "ok") 1 ∷ []

all_activity-shows_example :
    ((all_activity calls (in_context (some observer) none)).mcp_log
      ≡ last_n mcp_log_max (settled (owned (some observer) none) calls))
    × (get (all_activity calls (in_context (some observer) none)).mcp_pending 2
        ≡ awaited none (last_call (owned (some observer) none) 2 calls))
all_activity-shows_example = all_activity-shows (some observer) none calls 2

abbrev quit_binding : Binding
quit_binding = binding global (modified (char b'c') control ∷ []) quit

abbrev pressed : KeyEvent
pressed = modified (char b'c') (record control { has_shift = true })

quit_first : get_elem? bindings 0 ≡ some quit_binding
unfolding bindings
quit_first = refl

quit_matched : any (matches pressed) quit_binding.keys ≡ true
unfolding matches normalized_modifiers
quit_matched = refl

resolve_key-only_example : resolve_key global pressed ≡ some quit
resolve_key-only_example = resolve_key-only 0 quit_binding pressed quit_first quit_matched
