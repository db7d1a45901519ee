-- ===== src/Tui/Logged.antt =====
-- crates/mandala-tui/src/state.rs: what a stream of activity leaves in the state.
use mandala.Base.{
  ℕ, ◌≡◌, refl, sym, ap, ◌∙◌, Bool, true, false, Option, none, some, List, [], ◌∷◌, ◌++◌,
  if◌then◌else◌, map_or,
}
use mathlib.Core.List.{append-nil}
use mandala.Base.Last.{last_n, trimmed_lem, last_n-append, append_cons}
use mandala.Base.Order.{beq, list_ord, nat_ord}
use mandala.Base.Map.{Map, get, get-insert, get-remove, insert, remove}
use mandala.Base.Text.{Text}
use mandala.Base.Json.{Value}
use mandala.Tui.State.{AppState, new_state, ContextRole, McpPending, McpLogEntry, McpFollowUp}
use mandala.Tui.Activity.{
  on_mcp_activity, is_own_of, is_own_call, origin_of, seq_of, is_start, is_ok, log_entry,
  pending_of, insert_pending, remove_pending, push_log, mcp_log_max, follow_up,
}

unfoldable pub all_activity : List Value → AppState → AppState
all_activity [] s = s
all_activity (e ∷ es) s = all_activity es (on_mcp_activity e s).0

abbrev pub in_context : Option ContextRole → Option Text → AppState
in_context role client = record new_state { context_role = role; mcp_client = client }

abbrev pub own_of : AppState → Value → Bool
own_of s event = is_own_call s (origin_of event)

-- The entries of the calls of others that have ended, in order.
unfoldable pub settled : (own : Value → Bool) → List Value → List McpLogEntry
settled own [] = []
settled own (e ∷ es) =
    let rest = settled own es in
    if own e then rest else if is_start e then rest else log_entry e ∷ rest

abbrev names : ℕ → Value → Bool
names seq event = map_or (seq_of event) false (λ n. beq seq n)

-- The last event about a call of others with this number.
unfoldable pub last_call : (own : Value → Bool) → ℕ → List Value → Option Value
last_call own seq [] = none
last_call own seq (e ∷ es) =
    let rest = last_call own seq es in
    elim rest [
      | some later ↦ some later
      | none ↦ if own e then none else if names seq e then some e else none
    ]

-- A call is awaited if the last event about it is its start.
abbrev pub awaited : Option McpPending → Option Value → Option McpPending
awaited before none = before
awaited before (some e) = if is_start e then some (pending_of e) else none

unfoldable pub stepped : (own start : Bool) → Value → AppState → AppState
stepped own start event s =
    if own
    then s
    else if start
    then record s { mcp_pending = insert_pending event s.mcp_pending }
    else push_log (log_entry event) (record s { mcp_pending = remove_pending event s.mcp_pending })

pub activity-stepped :
    (event : Value) (s : AppState)
    → (on_mcp_activity event s).0 ≡ stepped (own_of s event) (is_start event) event s
unfolding on_mcp_activity stepped
activity-stepped event s = go (own_of s event) (is_start event)
  where
    step : (own start : Bool) → AppState × Option McpFollowUp
    step own start =
        if own
        then (s, none)
        else if start
        then (record s { mcp_pending = insert_pending event s.mcp_pending }, none)
        else (
          push_log (log_entry event)
              (record s { mcp_pending = remove_pending event s.mcp_pending }),
          if is_ok event then follow_up event else none,
        )

    go : (own start : Bool) → (step own start).0 ≡ stepped own start event s
    go true start = refl
    go false true = refl
    go false false = refl

stepped-own_of :
    (own start : Bool) (event : Value) (s : AppState)
    → own_of (stepped own start event s) ≡ own_of s
unfolding stepped
stepped-own_of true start event s = refl
stepped-own_of false true event s = refl
stepped-own_of false false event s = refl

-- The log of what the event adds to the entries before it.
log_step :
    (own start : Bool) (e : Value) (s : AppState) (xs rest : List McpLogEntry)
    → s.mcp_log ≡ last_n mcp_log_max xs
    → (ys : List McpLogEntry) × ((stepped own start e s).mcp_log ≡ last_n mcp_log_max ys)
      × (ys ++ rest ≡ xs ++ (if own then rest else if start then rest else log_entry e ∷ rest))
unfolding stepped
log_step true start e s xs rest h = (xs, h, refl)
log_step false true e s xs rest h = (xs, h, refl)
log_step false false e s xs rest h = (
  xs ++ (log_entry e ∷ []),
  trimmed_lem mcp_log_max (s.mcp_log ++ (log_entry e ∷ []))
      ∙ (ap (λ l. last_n mcp_log_max (l ++ (log_entry e ∷ []))) h
          ∙ last_n-append mcp_log_max xs (log_entry e ∷ [])),
  append_cons xs (log_entry e) rest,
)

all_activity-log :
    (es : List Value) (s : AppState) (xs : List McpLogEntry)
    → s.mcp_log ≡ last_n mcp_log_max xs
    → (all_activity es s).mcp_log ≡ last_n mcp_log_max (xs ++ settled (own_of s) es)
unfolding all_activity settled
all_activity-log [] s xs h = h ∙ ap (last_n mcp_log_max) (sym (append-nil xs))
all_activity-log (e ∷ es) s xs h =
    let next = stepped (own_of s e) (is_start e) e s in
    let (ys, here, grown) = log_step (own_of s e) (is_start e) e s xs (settled (own_of s) es) h in
    ap (λ t. (all_activity es t).mcp_log) (activity-stepped e s)
    ∙ (all_activity-log es next ys here
        ∙ (ap (λ own. last_n mcp_log_max (ys ++ settled own es))
              (stepped-own_of (own_of s e) (is_start e) e s)
            ∙ ap (last_n mcp_log_max) grown))

get-insert_pending :
    (at : Option ℕ) (m : Map ℕ McpPending) (w : McpPending) (seq : ℕ)
    → get (map_or at m (λ n. insert m n w)) seq
      ≡ (if map_or at false (λ n. beq seq n) then some w else get m seq)
get-insert_pending none m w seq = refl
get-insert_pending (some n) m w seq = get-insert m n seq w

get-remove_pending :
    (at : Option ℕ) (m : Map ℕ McpPending) (seq : ℕ)
    → get (map_or at m (remove m)) seq
      ≡ (if map_or at false (λ n. beq seq n) then none else get m seq)
get-remove_pending none m seq = refl
get-remove_pending (some n) m seq = get-remove m n seq

pending_step :
    (own start : Bool) (e : Value) (s : AppState) (seq : ℕ)
    → get (stepped own start e s).mcp_pending seq ≡ (
        if own
        then get s.mcp_pending seq
        else if names seq e
        then (if start then some (pending_of e) else none)
        else get s.mcp_pending seq)
unfolding stepped
pending_step true start e s seq = refl
pending_step false true e s seq = get-insert_pending (seq_of e) s.mcp_pending (pending_of e) seq
pending_step false false e s seq = get-remove_pending (seq_of e) s.mcp_pending seq

-- What is awaited after the event is awaited after the events behind it, if none names the call.
awaited_step :
    (own named : Bool) (e : Value) (before : Option McpPending) (later : Option Value)
    → awaited
        (if own
          then before
          else if named
          then (if is_start e then some (pending_of e) else none)
          else before)
        later
      ≡ awaited before (elim later [
        | some l ↦ some l
        | none ↦ if own then none else if named then some e else none
      ])
awaited_step own named e before (some l) = refl
awaited_step true named e before none = refl
awaited_step false true e before none = refl
awaited_step false false e before none = refl

all_activity-pending :
    (es : List Value) (s : AppState) (seq : ℕ)
    → get (all_activity es s).mcp_pending seq
      ≡ awaited (get s.mcp_pending seq) (last_call (own_of s) seq es)
unfolding all_activity last_call
all_activity-pending [] s seq = refl
all_activity-pending (e ∷ es) s seq =
    let next = stepped (own_of s e) (is_start e) e s in
    ap (λ t. get (all_activity es t).mcp_pending seq) (activity-stepped e s)
    ∙ (all_activity-pending es next seq
        ∙ (ap (λ own. awaited (get next.mcp_pending seq) (last_call own seq es))
              (stepped-own_of (own_of s e) (is_start e) e s)
            ∙ (ap (λ before. awaited before (last_call (own_of s) seq es))
                  (pending_step (own_of s e) (is_start e) e s seq)
                ∙ awaited_step (own_of s e) (names seq e) e (get s.mcp_pending seq)
                    (last_call (own_of s) seq es))))

abbrev pub owned : Option ContextRole → Option Text → Value → Bool
owned role client event = is_own_of role client (origin_of event)

-- However many events of the context arrive, the log holds the last 2000 of the calls of others
-- that have ended, in order, and a call of others is pending exactly if the last event that
-- names it is its start.
pub all_activity-shows :
    (role : Option ContextRole) (client : Option Text) (es : List Value) (seq : ℕ)
    → ((all_activity es (in_context role client)).mcp_log
        ≡ last_n mcp_log_max (settled (owned role client) es))
      × (get (all_activity es (in_context role client)).mcp_pending seq
          ≡ awaited none (last_call (owned role client) seq es))
unfolding get
all_activity-shows role client es seq = (
  all_activity-log es (in_context role client) [] refl,
  all_activity-pending es (in_context role client) seq,
)
