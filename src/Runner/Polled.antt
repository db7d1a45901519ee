-- ===== src/Runner/Polled.antt =====
-- crates/mandala-core/src/runner.rs: the forest of a tailer that is polled again and again.
use mandala.Base.{
  ℕ, ◌+◌, Bool, true, false, not, Option, none, some, List, [], ◌∷◌, if◌then◌else◌, Bool-cases,
  Option-cases, inl, inr, length, drop, unwrap_or,
}
use mandala.Base.Order.{list_ord}
use mandala.Base.Map.{Map, get}
use mandala.Base.Text.{Text, text, is_empty}
use mandala.Base.Utf8.{is_utf8, complete_lines}
use mandala.Base.Json.{Value}
use mandala.Base.Result.{Result, ok, err}
use mandala.Forest.Message.{NixMessage}
use mandala.Forest.State.{BuildForest, Derivation}
use mandala.Forest.Resolver.{take_pending_derivations}
use mandala.Forest.Reachable.{Reachable, begin, fed, taken, read, unread, Reachable-IsWellFormed}
use mandala.Forest.WellFormed.{IsWellFormed}
use mandala.Runner.Host.{str_of, int_of}
use mandala.Runner.Tail.{
  EventTailer, Reading, receive, receive_all, refuse_all, poll_forest_resolver, route, route_event,
  route_nixlog, route_host, is_str, read_lines, read_file, poll_file, poll_files, poll,
  version_supported, with_forest, new_tailer,
}

-- What one poll is given.
pub record Turn : Type 0 where
  pub before : List (Text × Result Derivation Text)
  pub after : List (Text × Result Derivation Text)
  pub alive : Bool
  pub directory : Option (Map Text (List ℕ))

module _ (from_str : List ℕ → Option Value) (parse : Text → Option NixMessage) (now : ℕ) where
  receive-Reachable :
      (r : Text × Result Derivation Text) (f : BuildForest)
      → Reachable parse f
      → Reachable parse (receive r f)
  receive-Reachable (path, ok drv) f h = read path drv f h
  receive-Reachable (path, err note) f h = unread path note f h

  receive_all-Reachable :
      (rs : List (Text × Result Derivation Text)) (f : BuildForest)
      → Reachable parse f
      → Reachable parse (receive_all rs f)
  unfolding receive_all
  receive_all-Reachable [] f h = h
  receive_all-Reachable (r ∷ rs) f h =
      receive_all-Reachable rs (receive r f) (receive-Reachable r f h)

  refuse_all-Reachable :
      (paths : List Text) (f : BuildForest)
      → Reachable parse f
      → Reachable parse (refuse_all paths f)
  unfolding refuse_all
  refuse_all-Reachable [] f h = h
  refuse_all-Reachable (path ∷ paths) f h = refuse_all-Reachable paths _ (unread path _ f h)

  resolver-Reachable :
      (rs : List (Text × Result Derivation Text)) (alive : Bool) (f : BuildForest)
      → Reachable parse f
      → Reachable parse (poll_forest_resolver rs alive f).0
  unfolding poll_forest_resolver
  resolver-Reachable rs true f h = taken (receive_all rs f) (receive_all-Reachable rs f h)
  resolver-Reachable rs false f h =
      refuse_all-Reachable (take_pending_derivations (receive_all rs f)).1 _
        (taken (receive_all rs f) (receive_all-Reachable rs f h))

  abbrev IsSound : EventTailer → Type 0
  IsSound t = Reachable parse t.forest

  either_IsSound :
      (b : Bool) (x y : EventTailer) → IsSound x → IsSound y → IsSound (if b then x else y)
  either_IsSound true x y f g = f
  either_IsSound false x y f g = g

  route_host-IsSound :
      (event : Value) (host : Option Text) (t : EventTailer)
      → IsSound t
      → IsSound (route_host from_str parse now event host t)
  route_host-IsSound event none t h = h
  route_host-IsSound event (some host) t h = either_IsSound (is_empty host) t _ h h

  route_event-IsSound :
      (event : Value) (t : EventTailer)
      → IsSound t
      → IsSound (route_event from_str parse now event t)
  route_event-IsSound event t h =
      let l = unwrap_or (str_of (text "line") event) [] in
      either_IsSound (not (version_supported (int_of (text "v") event))) t _ h (
        either_IsSound (is_str from_str parse now (text "event") (text "nixlog") event)
          (route_nixlog from_str parse now l t) _ (fed now l t.forest h)
          (either_IsSound (is_str from_str parse now (text "plugin") (text "build") event) _
            (route_host from_str parse now event (str_of (text "host") event) t) h
            (route_host-IsSound event (str_of (text "host") event) t h)))

  route-IsSound :
      (line : List ℕ) (t : EventTailer) → IsSound t → IsSound (route from_str parse now line t)
  unfolding route
  route-IsSound line t h = elim (Option-cases (from_str line)) [
    | inl e ↦ rw (e, route) h
    | inr (event, e) ↦ rw (e, route) (route_event-IsSound event t h)
  ]

  read_lines-IsSound :
      (lines : List (List ℕ)) (r : Reading)
      → IsSound r.tailer
      → IsSound (read_lines from_str parse now lines r).tailer
  unfolding read_lines
  read_lines-IsSound [] r h = h
  read_lines-IsSound (line ∷ lines) r h = elim (Bool-cases (is_utf8 line)) [
    | inl e ↦
        rw (e, read_lines)
          (read_lines-IsSound lines
            (record {
              offset = r.offset + length line;
              count = r.count + 1;
              tailer = route from_str parse now line r.tailer;
            })
            (route-IsSound line r.tailer h))
    | inr e ↦ rw (e, read_lines) h
  ]

  poll_files-IsSound :
      (files : Map Text (List ℕ)) (p : ℕ × EventTailer)
      → IsSound p.1
      → IsSound (poll_files from_str parse now files p).1
  unfolding poll_files read_file
  poll_files-IsSound [] p h = h
  poll_files-IsSound ((path, content) ∷ files) (count, t) h =
      poll_files-IsSound files (poll_file from_str parse now path content (count, t))
        (read_lines-IsSound (complete_lines (drop (unwrap_or (get t.offsets path) 0) content)) _ h)

  abbrev pub poll_turn : Turn → EventTailer → EventTailer
  poll_turn turn t =
      (poll from_str parse now turn.before turn.after turn.alive turn.directory t).0.1

  unfoldable pub poll_all : List Turn → EventTailer → EventTailer
  poll_all [] t = t
  poll_all (turn ∷ turns) t = poll_all turns (poll_turn turn t)

  poll-IsSound :
      (before after : List (Text × Result Derivation Text)) (alive : Bool)
      (directory : Option (Map Text (List ℕ))) (t : EventTailer)
      → IsSound t
      → IsSound (poll from_str parse now before after alive directory t).0.1
  unfolding poll
  poll-IsSound before after alive none t h = resolver-Reachable before alive t.forest h
  poll-IsSound before after alive (some files) t h =
      let first = poll_forest_resolver before alive t.forest in
      resolver-Reachable after alive
        (poll_files from_str parse now files (0, with_forest from_str parse now t first.0)).1.forest
        (poll_files-IsSound files (0, with_forest from_str parse now t first.0)
          (resolver-Reachable before alive t.forest h))

  poll_all-IsSound : (turns : List Turn) (t : EventTailer) → IsSound t → IsSound (poll_all turns t)
  unfolding poll_all
  poll_all-IsSound [] t h = h
  poll_all-IsSound (turn ∷ turns) t h =
      poll_all-IsSound turns (poll_turn turn t)
        (poll-IsSound turn.before turn.after turn.alive turn.directory t h)

  -- Whatever the streams hold, however often they are polled and whatever the reads of `.drv` files
  -- come to, the forest of a tailer is in a state that a forest can reach, and keeps the invariant
  -- of those.
  pub poll_all-IsWellFormed :
      (estimates : Map Text ℕ) (turns : List Turn)
      → Reachable parse (poll_all turns (new_tailer estimates)).forest
        × IsWellFormed (poll_all turns (new_tailer estimates)).forest
  poll_all-IsWellFormed estimates turns =
      let sound = poll_all-IsSound turns (new_tailer estimates) (begin estimates) in
      (sound, Reachable-IsWellFormed parse (poll_all turns (new_tailer estimates)).forest sound)
