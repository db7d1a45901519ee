-- ===== src/Runner/Replay.antt =====
-- What a host's stream of events comes to.
use mandala.Base.{
  ℕ, ◌+◌, ◌-◌, ◌≤◌, ◌≡◌, ◌∙◌, refl, Bool, true, false, not, ◌&&◌, ◌||◌, Option, none, some, List,
  [], ◌∷◌, ◌++◌, if◌then◌else◌, leb, length, any, arith, Bool-cases, inl, inr, length-append,
  length-drop,
}
use mathlib.Core.List.{append-nil}
use mandala.Base.Last.{last_n, drop-append, drop-drop, append_cons}
use mandala.Base.Text.{Text, text}
use mandala.Base.Json.{Value}
use mandala.Runner.Host.{
  HostRun, HostState, milestone_state, is_terminal, push_capped, feed, feed_all, feed_kind, kind_of,
  line, milestone, done, skipped, EventKind, line_of, milestone_of, reach, max_lines, new_host,
  rolled_back, failed, is_failure, int_of,
}

abbrev pub is_rolled_back : HostState → Bool
is_rolled_back rolled_back = true
is_rolled_back _ = false

abbrev rolls : Option HostState → Bool
rolls none = false
rolls (some state) = is_rolled_back state

abbrev kind_rolls : EventKind → Value → Bool
kind_rolls milestone event = rolls (milestone_state (milestone_of event))
kind_rolls _ event = false

-- The event is a rollback milestone.
unfoldable pub is_rollback : Value → Bool
is_rollback event = kind_rolls (kind_of event) event

reach_rolled_back :
    (s : HostState) (next : Option HostState)
    → is_rolled_back (reach s next) ≡ (is_rolled_back s || rolls next)
reach_rolled_back s next = ground arith

finish_rolled_back :
    (s : HostState) (b : Bool)
    → is_rolled_back (if b && not (is_terminal s) then failed else s) ≡ is_rolled_back s
finish_rolled_back s b = ground arith

feed_kind_rolled_back :
    (k : EventKind) (host : HostRun) (event : Value)
    → is_rolled_back (feed_kind k host event).state
      ≡ (is_rolled_back host.state || kind_rolls k event)
feed_kind_rolled_back line host event = ground arith
feed_kind_rolled_back milestone host event =
    reach_rolled_back host.state (milestone_state (milestone_of event))
feed_kind_rolled_back done host event =
    finish_rolled_back host.state (is_failure (int_of (text "rc") event)) ∙ ground arith
feed_kind_rolled_back skipped host event = ground arith

-- A host ends up rolled back exactly if it was so before, or some event of its stream is a
-- rollback milestone, whatever comes before or after that event.
pub feed_all_rolled_back :
    (host : HostRun) (events : List Value)
    → is_rolled_back (feed_all host events).state
      ≡ (is_rolled_back host.state || any is_rollback events)
unfolding feed_all feed is_rollback
feed_all_rolled_back host [] = ground arith
feed_all_rolled_back host (event ∷ events) =
    feed_all_rolled_back (feed host event) events
    ∙ ground (arith, feed_kind_rolled_back (kind_of event) host event)

feed_kind_terminal :
    (k : EventKind) (host : HostRun) (event : Value)
    → is_terminal host.state ≡ true
    → kind_rolls k event ≡ false
    → (feed_kind k host event).state ≡ host.state
feed_kind_terminal line host event t r = refl
feed_kind_terminal milestone host event t r =
    go host.state (milestone_state (milestone_of event)) t r
  where
    go :
        (s : HostState) (next : Option HostState)
        → is_terminal s ≡ true
        → rolls next ≡ false
        → reach s next ≡ s
    go s next t r = ground arith
feed_kind_terminal done host event t r = go host.state (is_failure (int_of (text "rc") event)) t
  where
    go :
        (s : HostState) (b : Bool)
        → is_terminal s ≡ true
        → (if b && not (is_terminal s) then failed else s) ≡ s
    go s b t = ground arith
feed_kind_terminal skipped host event t r = refl

-- A terminal state stays through every stream that holds no rollback milestone.
pub feed_all_terminal :
    (host : HostRun) (events : List Value)
    → is_terminal host.state ≡ true
    → any is_rollback events ≡ false
    → (feed_all host events).state ≡ host.state
unfolding feed_all feed is_rollback
feed_all_terminal host [] t r = refl
feed_all_terminal host (event ∷ events) t r =
    let here = feed_kind_terminal (kind_of event) host event t (ground arith) in
    feed_all_terminal (feed host event) events (rw here t) (ground arith) ∙ here

abbrev lines_of_kind : EventKind → Value → List Text → List Text
lines_of_kind line event rest = line_of event ∷ rest
lines_of_kind _ event rest = rest

-- The lines of a stream, in order.
unfoldable pub lines_in : List Value → List Text
lines_in [] = []
lines_in (event ∷ events) = lines_of_kind (kind_of event) event (lines_in events)

push_capped-last_n :
    (n : ℕ) (xs : List Text) (s : Text)
    → 1 ≤ n
    → push_capped (last_n n xs) s n ≡ last_n n (xs ++ (s ∷ []))
push_capped-last_n n xs s h = elim (Bool-cases (leb n (length xs))) [
  | inl e ↦
      let long : n ≤ length xs = ground (arith, e) in
      let full : leb n (length (last_n n xs)) ≡ true =
        rw (length-drop (length xs - n) xs) (ground (arith, long)) in
      let shifted : length xs + 1 - n ≡ length xs - n + 1 = omega (arith, long) in
      rw
        (
          push_capped,
          full,
          drop-drop 1 (length xs - n) xs,
          length-append xs (s ∷ []),
          shifted,
          drop-append (length xs - n + 1) xs (s ∷ []) (omega (arith, long, h)),
        )
        refl
  | inr e ↦
      let short : length xs - n ≡ 0 = ground (arith, e) in
      let short1 : length xs + 1 - n ≡ 0 = ground (arith, e) in
      rw (push_capped, short, e, length-append xs (s ∷ []), short1) refl
]

feed_all_lines :
    (host : HostRun) (events : List Value) (xs : List Text)
    → host.lines ≡ last_n max_lines xs
    → (feed_all host events).lines ≡ last_n max_lines (xs ++ lines_in events)
unfolding feed_all feed lines_in
feed_all_lines host [] xs h = rw (append-nil xs) h
feed_all_lines host (event ∷ events) xs h =
    go (kind_of event) (λ next ys e. feed_all_lines next events ys e)
  where
    go :
        (k : EventKind)
        → ((next : HostRun) (ys : List Text)
            → next.lines ≡ last_n max_lines ys
            → (feed_all next events).lines ≡ last_n max_lines (ys ++ lines_in events))
        → (feed_all (feed_kind k host event) events).lines
          ≡ last_n max_lines (xs ++ lines_of_kind k event (lines_in events))
    go line again = rw (← append_cons xs (line_of event) (lines_in events)) (
        again (feed_kind line host event) (xs ++ (line_of event ∷ []))
          (rw h (push_capped-last_n max_lines xs (line_of event) (ground arith))))
    go milestone again = again (feed_kind milestone host event) xs h
    go done again = again (feed_kind done host event) xs h
    go skipped again = again (feed_kind skipped host event) xs h

-- The line buffer of a host holds the last 2000 lines of its stream, in order.
pub feed_all_buffer :
    (name : Text) (events : List Value)
    → (feed_all (new_host name) events).lines ≡ last_n max_lines (lines_in events)
feed_all_buffer name events = feed_all_lines (new_host name) events [] refl
