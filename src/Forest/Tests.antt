-- ===== src/Forest/Tests.antt =====
-- Runs of the forest on a derivation that fails.
use mandala.Base.{ℕ, ◌≡◌, refl, true, not, ◌&&◌, none, some, Option, List, [], ◌∷◌, if◌then◌else◌}
use mandala.Base.Order.{list_ord, nat_ord, beq}
use mandala.Base.Map.{get, insert, contains_key}
use mandala.Base.Set
use mandala.Base.Set.{contains}
use mandala.Base.Int.{ℤ, pos}
use mandala.Base.Text.{
  Text, text, strip_prefix, strip_suffix, take_until, trim_end_matches, after_last, split_once,
}
use mandala.Base.Json.{string}
use mandala.Forest.Message.{NixMessage, build}
use mandala.Forest.State.{BuildForest, new_node, new_forest, failed, planned, built, ActiveActivity}
use mandala.Forest.Paths.{derivation_name, drv_paths, matches, collect_paths}
use mandala.Forest.Feed.{feed_message, feed_line}
use mandala.Forest.Resolver.{take_pending_derivations}
use mandala.Forest.Snapshot.{DerivationNode}
use mandala.Forest.WellFormed.{IsWellFormed}
use mandala.Forest.Reachable.{fed, begin, Reachable-IsWellFormed}
use mandala.Forest.Sticky.{failed_at, restarts}
use mandala.Forest.Failed.{feed_message_failed}
use mandala.Forest.Duration.{new_cache, estimates_ms, observe_snapshot}
use mandala.Forest.Averages.{observe_all}
use mandala.Forest.Pending.{take_pending-takes}

abbrev app : Text
app = text "/nix/store/0123456789abcdefghijklmnopqrstuv-app.drv"

abbrev lib : Text
lib = text "/nix/store/0123456789abcdefghijklmnopqrstuv-lib.drv"

abbrev record_of : Text → Option ℤ → NixMessage
record_of action code = record {
  action = action;
  id = some 7;
  type_code = code;
  level = none;
  parent = none;
  label = none;
  msg = none;
  raw_msg = none;
  fields = string app ∷ [];
  extra = [];
}

abbrev start_app : NixMessage
start_app = record_of (text "start") (some (pos 105))

abbrev stop_app : NixMessage
stop_app = record_of (text "stop") none

abbrev from_str : Text → Option NixMessage
from_str payload = if beq payload (text "{}") then none else some start_app

abbrev running : ActiveActivity
running = record {
  kind = build;
  path = some app;
  host = none;
  source = none;
  destination = none;
  progress = none;
  expectations = [];
  label = [];
}

abbrev broken : BuildForest
broken = record new_forest {
  nodes =
      (app, record new_node { status = failed; inputs = lib ∷ [] })
      ∷ (lib, record new_node { status = planned })
      ∷ [];
  activities = (7, running) ∷ [];
  pending_drvs = app ∷ lib ∷ [];
  drv_cache = (app, none) ∷ [];
}

app_named : derivation_name app ≡ text "app"
unfolding derivation_name after_last strip_suffix split_once
app_named = refl

paths_found :
    drv_paths (text "error: builder for '/nix/store/0123456789abcdefghijklmnopqrstuv-app.drv'.")
    ≡ app ∷ []
unfolding drv_paths matches collect_paths strip_prefix strip_suffix take_until trim_end_matches
    Set.insert
paths_found = refl

Reachable-IsWellFormed_example :
    IsWellFormed (feed_line from_str 3 (text "@nix {\"action\"") new_forest).0
Reachable-IsWellFormed_example =
    Reachable-IsWellFormed from_str (feed_line from_str 3 (text "@nix {\"action\"") new_forest).0
      (fed 3 (text "@nix {\"action\"") new_forest (begin []))

feed_message_failed_example : failed_at (feed_message 9 stop_app broken).nodes app ≡ true
unfolding failed_at restarts get
feed_message_failed_example = feed_message_failed 9 stop_app broken app refl refl

abbrev two_nodes : List DerivationNode
two_nodes =
    record {
      path = lib;
      name = text "lib";
      state = record new_node { status = planned };
      eta_seconds = none;
    }
    ∷ record {
      path = app;
      name = text "app";
      state = record new_node { status = failed };
      eta_seconds = none;
    }
    ∷ []

take_pending-takes_example :
    ((p : Text)
      → contains (take_pending_derivations broken).1 p
        ≡ (contains broken.pending_drvs p && not (contains_key broken.drv_cache p)))
    × ((take_pending_derivations broken).0.pending_drvs ≡ [])
take_pending-takes_example = take_pending-takes broken

abbrev done_node : ℕ → ℕ → DerivationNode
done_node start finish = record {
  path = app;
  name = text "app";
  state = record new_node { status = built; started_ms = some start; finished_ms = some finish };
  eta_seconds = none;
}

abbrev history : List (List DerivationNode)
history = (done_node 100 1100 ∷ []) ∷ (done_node 100 3100 ∷ two_nodes) ∷ []

mean : get (estimates_ms (observe_all history new_cache)) (text "app") ≡ some 2000
unfolding get insert estimates_ms observe_snapshot
mean = refl
