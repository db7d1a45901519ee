-- ===== src/Runner/Tests.antt =====
-- Runs of the event streams.
use mandala.Base.{
  ℕ, ◌≡◌, refl, false, ◌||◌, Option, none, some, List, [], ◌∷◌, any, arith, if◌then◌else◌,
}
use mandala.Base.Order.{list_ord, beq}
use mandala.Base.Map.{Map, get}
use mandala.Base.Last.{last_n}
use mandala.Base.Text.{Text, text}
use mandala.Base.Json.{Value, string, number, object, Number, of_entries}
use mandala.Base.Json.Number.{pos_int}
use mandala.Base.Result.{err}
use mandala.Forest.Message.{NixMessage}
use mandala.Runner.Host.{
  HostRun, new_host, feed_all, feed, kind_of, str_of, int_of, milestone_state, max_lines,
  rolled_back, confirmed,
}
use mandala.Runner.Replay.{
  feed_all_rolled_back, feed_all_terminal, feed_all_buffer, is_rolled_back, is_rollback, lines_in,
}
use mandala.Runner.Writer.{EventFile, EventWriter, emit_at}
use mandala.Runner.Cap.{IsCapped, emit_at-IsCapped}
use mandala.Runner.Reserve.{Emission}
use mandala.Runner.Tail.{Reading, new_tailer}
use mandala.Runner.Polled.{Turn, poll_all, poll_all-IsWellFormed}
use mandala.Forest.Reachable.{Reachable}
use mandala.Forest.WellFormed.{IsWellFormed}

abbrev event : List (Text × Value) → Value
event fields = object (of_entries fields)

abbrev milestone_event : Text → Value
milestone_event name =
    event ((text "event", string (text "milestone")) ∷ (text "milestone", string name) ∷ [])

abbrev line_event : Text → Value
line_event l = event ((text "event", string (text "line")) ∷ (text "line", string l) ∷ [])

abbrev done_event : ℕ → Value
done_event rc = event (
    (text "event", string (text "status"))
    ∷ (text "rc", number (pos_int rc))
    ∷ (text "state", string (text "done"))
    ∷ [])

abbrev deployed : List Value
deployed =
    milestone_event (text "activate")
    ∷ line_event (text "activating")
    ∷ milestone_event (text "confirm")
    ∷ milestone_event (text "rollback")
    ∷ done_event 1
    ∷ []

rollback_wins : (feed_all (new_host (text "web")) deployed).state ≡ rolled_back
unfolding feed_all feed kind_of str_of int_of milestone_state get
rollback_wins = refl

feed_all_rolled_back_example :
    is_rolled_back (feed_all (new_host (text "web")) deployed).state
    ≡ (false || any is_rollback deployed)
feed_all_rolled_back_example = feed_all_rolled_back (new_host (text "web")) deployed

abbrev settled : HostRun
settled = record (new_host (text "web")) { state = confirmed }

feed_all_terminal_example :
    (feed_all settled (line_event (text "late") ∷ done_event 1 ∷ [])).state ≡ confirmed
unfolding is_rollback kind_of str_of get
feed_all_terminal_example =
    feed_all_terminal settled (line_event (text "late") ∷ done_event 1 ∷ []) refl refl

feed_all_buffer_example :
    (feed_all (new_host (text "web")) deployed).lines ≡ last_n max_lines (lines_in deployed)
feed_all_buffer_example = feed_all_buffer (text "web") deployed

abbrev no_message : Text → Option NixMessage
no_message _ = none

abbrev to_vec : List (Text × Value) → List ℕ
to_vec entries = b'{' ∷ b'}' ∷ []

abbrev empty_log : EventFile
empty_log = record { build_filter = some []; bytes = 0; truncated = false; appended = [] }

abbrev writer : EventWriter
writer = record { host = text "controller"; plugin = text "build"; file = empty_log }

abbrev now : Number
now = pos_int 0

abbrev done_fields : Map Text Value
done_fields = (text "rc", number (pos_int 0)) ∷ (text "state", string (text "done")) ∷ []

emit_at-IsCapped_example :
    IsCapped 0 (emit_at no_message to_vec writer (text "status") done_fields now).file
emit_at-IsCapped_example =
    emit_at-IsCapped no_message to_vec 0 writer (text "status") done_fields now
      (record { is_build = refl; within = ground arith; counted = ground arith })

abbrev progress : Emission
progress = record {
  event = text "progress";
  fields = (text "built", number (pos_int 1)) ∷ [];
  ts = now;
}

abbrev status : Emission
status = record { event = text "status"; fields = done_fields; ts = now }

abbrev parse_event : List ℕ → Option Value
parse_event l = if beq l (text "{}\n") then some (event []) else none

abbrev start : Reading
start = record { offset = 0; count = 0; tailer = new_tailer [] }

-- A poll of one file, while the reads of `.drv` files have stopped.
abbrev turn : Turn
turn = record {
  before = [];
  after = (text "/nix/store/a.drv", err (text "drv unavailable")) ∷ [];
  alive = false;
  directory = some ((text "web.jsonl", text "{}\n") ∷ []);
}

poll_all-IsWellFormed_example :
    Reachable no_message (poll_all parse_event no_message 0 (turn ∷ []) (new_tailer [])).forest
    × IsWellFormed (poll_all parse_event no_message 0 (turn ∷ []) (new_tailer [])).forest
poll_all-IsWellFormed_example = poll_all-IsWellFormed parse_event no_message 0 [] (turn ∷ [])
