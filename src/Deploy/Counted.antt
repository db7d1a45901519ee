-- ===== src/Deploy/Counted.antt =====
-- What the counters of the batch build satisfy.
use mandala.Base.{
  ◌+◌, ◌≤◌, ◌≡◌, refl, Bool, true, false, Option, none, some, List, [], ◌∷◌, if◌then◌else◌, ltb,
  bind, is_some, length, length-append, arith, Option-cases, inl, inr,
}
use mandala.Base.Order.{Ord, beq, list_ord}
use mandala.Base.Map.{Map, get, insert, remove}
use mandala.Base.Int.{ℤ, int_ord}
use mandala.Base.Text.{Text, text, strip_prefix}
use mandala.Base.Json.{Value}
use mandala.Deploy.Tracker.{
  BuildTracker, start, start_build, stop, stop_other, note_error, feed_event, feed, feed_all,
  derivation_name, first_field, int_at, message_of, action_of, is_code, is_copy, is_error, start_id,
  start_copy, feed_stop, feed_message,
}

module _ {ℓ κ} {K : Type ℓ} {V : Type κ} ⦃o : Ord K⦄ where
  length-insert : (m : Map K V) (q : K) (w : V) → length (insert m q w) ≤ length m + 1
  unfolding insert
  length-insert [] q w = ground arith
  length-insert ((k, v) ∷ m) q w = ground (arith, length-insert m q w)

  length-remove_le : (m : Map K V) (q : K) → length (remove m q) ≤ length m
  unfolding remove
  length-remove_le [] q = ground arith
  length-remove_le ((k, v) ∷ m) q = ground (arith, length-remove_le m q)

  length-remove :
      (m : Map K V) (q : K) → is_some (get m q) ≡ true → length (remove m q) + 1 ≤ length m
  unfolding get remove
  length-remove [] q h = absurd (ground arith)
  length-remove ((k, v) ∷ m) q h = ground (arith, length-remove m q, length-remove_le m q)

-- The builds that have finished and those that run were all started, no more fetches are done than
-- were started, and each error is kept.
pub record IsCounted (t : BuildTracker) : Type 0 where
  pub builds : t.finished + length t.running ≤ t.built
  pub fetches : t.fetched_done ≤ t.fetched
  pub messages : t.errors ≡ length t.error_messages

either_IsCounted :
    (b : Bool) (x y : BuildTracker × Bool)
    → (b ≡ true → IsCounted x.0)
    → (b ≡ false → IsCounted y.0)
    → IsCounted (if b then x else y).0
either_IsCounted true x y f g = f refl
either_IsCounted false x y f g = g refl

start_build-IsCounted :
    (event : Value) (id : ℤ) (t : BuildTracker) → IsCounted t → IsCounted (start_build event id t)
start_build-IsCounted event id t c = record {
  builds =
      ground (arith, length-insert t.running id (derivation_name (first_field event)), c.builds);
  fetches = c.fetches;
  messages = c.messages;
}

fetch-IsCounted :
    (t : BuildTracker) → IsCounted t → IsCounted (record t { fetched = t.fetched + 1 })
fetch-IsCounted t c = record {
  builds = c.builds;
  fetches = ground (arith, c.fetches);
  messages = c.messages;
}

start_id-IsCounted :
    (event : Value) (id : Option ℤ) (t : BuildTracker)
    → IsCounted t
    → IsCounted (start_id event id t).0
start_id-IsCounted event none t c = c
start_id-IsCounted event (some id) t c = start_build-IsCounted event id t c

start-IsCounted : (event : Value) (t : BuildTracker) → IsCounted t → IsCounted (start event t).0
start-IsCounted event t c =
    let event_type = int_at (text "type") event in
    either_IsCounted (is_code 105 event_type) (start_id event (int_at (text "id") event) t)
      (start_copy event_type t) (λ e. start_id-IsCounted event (int_at (text "id") event) t c)
      (λ e.
        either_IsCounted (is_copy event_type) (record t { fetched = t.fetched + 1 }, true)
          (t, false) (λ f. fetch-IsCounted t c) (λ f. c))

stop_other-IsCounted : (t : BuildTracker) → IsCounted t → IsCounted (stop_other t).0
stop_other-IsCounted t c =
    either_IsCounted (ltb t.fetched_done t.fetched) _ _
      (λ e. record { builds = c.builds; fetches = ground (arith, e); messages = c.messages })
      (λ e. c)

stop-IsCounted : (id : Option ℤ) (t : BuildTracker) → IsCounted t → IsCounted (stop id t).0
stop-IsCounted none t c = stop_other-IsCounted t c
stop-IsCounted (some id) t c =
    either_IsCounted (is_some (get t.running id)) _ _
      (λ e. record {
        builds = ground (arith, length-remove t.running id e, c.builds);
        fetches = c.fetches;
        messages = c.messages;
      })
      (λ e. stop_other-IsCounted t c)

note_error-IsCounted :
    (message : Text) (t : BuildTracker) → IsCounted t → IsCounted (note_error message t)
note_error-IsCounted [] t c = c
note_error-IsCounted (x ∷ xs) t c = record {
  builds = c.builds;
  fetches = c.fetches;
  messages = rw (length-append t.error_messages ((x ∷ xs) ∷ [])) (ground (arith, c.messages));
}

feed_event-IsCounted :
    (event : Value) (t : BuildTracker) → IsCounted t → IsCounted (feed_event event t).0
feed_event-IsCounted event t c =
    either_IsCounted (beq (action_of event) (text "start")) (start event t) (feed_stop event t)
      (λ e. start-IsCounted event t c)
      λ e.
        either_IsCounted (beq (action_of event) (text "stop")) (stop (int_at (text "id") event) t)
          (feed_message event t) (λ f. stop-IsCounted (int_at (text "id") event) t c)
          λ f.
            either_IsCounted (is_error event) (note_error (message_of event) t, false) (t, false)
              (λ g. note_error-IsCounted (message_of event) t c) (λ g. c)

feed-IsCounted :
    (from_str : Text → Option Value) (line : Text) (t : BuildTracker)
    → IsCounted t
    → IsCounted (feed from_str line t).0
unfolding feed
feed-IsCounted from_str line t c =
    elim (Option-cases (bind (strip_prefix (text "@nix ") line) from_str)) [
      | inl e ↦ rw (e, feed) c
      | inr (event, e) ↦ rw (e, feed) (feed_event-IsCounted event t c)
    ]

-- Whatever lines a batch build prints, the builds that have finished and those that run are
-- together no more than those that started, no more fetches are done than were started, and the
-- count of the errors is the number of the messages kept.
pub feed_all-IsCounted :
    (from_str : Text → Option Value) (lines : List Text) (t : BuildTracker)
    → IsCounted t
    → IsCounted (feed_all from_str lines t)
unfolding feed_all
feed_all-IsCounted from_str [] t c = c
feed_all-IsCounted from_str (line ∷ lines) t c =
    feed_all-IsCounted from_str lines (feed from_str line t).0 (feed-IsCounted from_str line t c)
