-- ===== src/Deploy/Observed.antt =====
-- What a reader of the stream of a host makes of each record that the pipeline writes.
use mandala.Base.{
  ℕ, ◌≡◌, ◌∙◌, ap, refl, Bool, true, false, Option, none, some, List, [], ◌∷◌, ◌++◌, map,
  if◌then◌else◌, arith,
}
use mandala.Base.Order.{list_ord}
use mandala.Base.Map.{get, insert}
use mandala.Base.Set.{contains}
use mandala.Base.Int.{pos}
use mandala.Base.Text.{Text, text}
use mandala.Runner.Host.{
  HostRun, HostState, line, milestone, done, skipped, kind_of, milestone_of, str_of, int_of, feed,
  feed_all, new_host, reach, milestone_state, is_terminal, finish,
}
use mandala.Runner.Writer.{EventRecord, record_entries, first_fields, other_fields}
use mandala.Deploy.Stream.{
  Disk, written_by, value_of, event_at, line_fields, milestone_fields, done_fields, start_fields,
  Write, kept, left_out, refused, write_of, write_at, is_build,
}

module _ (host : Text) (disk : Disk) (n : ℕ) where
  kind_of_line :
      (message : Text)
      → kind_of (value_of (event_at host disk n (text "line") (line_fields message))) ≡ line
  unfolding kind_of str_of value_of record_entries first_fields other_fields contains get insert
  kind_of_line message = refl

  kind_of_start :
      kind_of (value_of (event_at host disk n (text "status") (start_fields host))) ≡ skipped
  unfolding kind_of str_of value_of record_entries first_fields other_fields contains get insert
  kind_of_start = refl

  kind_of_milestone :
      (name : Text)
      → kind_of (value_of (event_at host disk n (text "milestone") (milestone_fields name)))
        ≡ milestone
  unfolding kind_of str_of value_of record_entries first_fields other_fields contains get insert
  kind_of_milestone name = refl

  milestone_of_name :
      (name : Text)
      → milestone_of (value_of (event_at host disk n (text "milestone") (milestone_fields name)))
        ≡ name
  unfolding kind_of str_of value_of record_entries first_fields other_fields contains get insert
  milestone_of_name name = refl

  kind_of_done :
      (rc : ℕ) → kind_of (value_of (event_at host disk n (text "status") (done_fields rc))) ≡ done
  unfolding kind_of str_of value_of record_entries first_fields other_fields contains get insert
  kind_of_done rc = refl

  int_of_done :
      (b : Bool)
      → int_of
          (text "rc")
          (value_of (event_at host disk n (text "status") (done_fields (if b then 1 else 0))))
        ≡ some (pos (if b then 1 else 0))
  unfolding int_of value_of record_entries first_fields other_fields contains get insert
  int_of_done true = refl
  int_of_done false = refl

-- What an observer of a stream reads.
abbrev pub read_back : Text → List EventRecord → HostRun
read_back host records = feed_all (new_host host) (map value_of records)

pub feed_all-append :
    (h : HostRun) (records : List EventRecord) (r : EventRecord)
    → feed_all h (map value_of (records ++ (r ∷ [])))
      ≡ feed (feed_all h (map value_of records)) (value_of r)
unfolding feed_all
feed_all-append h [] r = refl
feed_all-append h (x ∷ records) r = feed_all-append (feed h (value_of x)) records r

-- The host has neither ended nor reached a state that it keeps.
abbrev pub IsRunning : HostRun → Type 0
IsRunning h = (is_terminal h.state ≡ false) × (h.rc ≡ none)

-- A record after which a host that runs still runs.
abbrev pub KeepsRunning : EventRecord → Type 0
KeepsRunning r = (h : HostRun) → IsRunning h → IsRunning (feed h (value_of r))

pub written_by-IsRunning :
    (host : Text) (write : Write) (r : EventRecord) (records : List EventRecord)
    → KeepsRunning r
    → IsRunning (read_back host records)
    → IsRunning (read_back host (written_by write r records))
written_by-IsRunning host left_out r records keeps h = h
written_by-IsRunning host (refused error) r records keeps h = h
written_by-IsRunning host kept r records keeps h =
    rw (feed_all-append (new_host host) records r) (keeps (read_back host records) h)

-- No record of a host whose stream is not the log of the build is left out.
abbrev pub IsKept : Write → Type 0
IsKept left_out = ⊥
IsKept _ = Unit

pub write_at-IsKept :
    (host : Text) (disk : Disk) (n : ℕ) → is_build host ≡ false → IsKept (write_at host disk n)
write_at-IsKept host disk n named = rw named (go (disk.writing n))
  where
    go : (e : Option Text) → IsKept (write_of e)
    go none = tt
    go (some e) = tt

reach_running : (s next : HostState) → is_terminal s ≡ false → reach s (some next) ≡ next
reach_running s next h = ground arith

-- The host has reached a state, and its end is not written.
abbrev pub HasReached : HostState → HostRun → Type 0
HasReached state h = (h.state ≡ state) × (h.rc ≡ none)

module _ (host : Text) (disk : Disk) (n : ℕ) where
  pub line-KeepsRunning :
      (message : Text) → KeepsRunning (event_at host disk n (text "line") (line_fields message))
  unfolding feed
  line-KeepsRunning message h running = rw (kind_of_line host disk n message) running

  pub start-KeepsRunning : KeepsRunning (event_at host disk n (text "status") (start_fields host))
  unfolding feed
  start-KeepsRunning h running = rw (kind_of_start host disk n) running

  pub milestone-HasReached :
      (name : Text) (next : HostState) (h : HostRun)
      → milestone_state name ≡ some next
      → IsRunning h
      → HasReached next
          (feed h (value_of (event_at host disk n (text "milestone") (milestone_fields name))))
  unfolding feed
  milestone-HasReached name next h e running =
      rw (kind_of_milestone host disk n name, milestone_of_name host disk n name, e)
        (reach_running h.state next running.0, running.1)

  pub milestone-KeepsRunning :
      (name : Text) (next : HostState)
      → milestone_state name ≡ some next
      → is_terminal next ≡ false
      → KeepsRunning (event_at host disk n (text "milestone") (milestone_fields name))
  milestone-KeepsRunning name next e open_state h running =
      let reached = milestone-HasReached name next h e running in
      (ap is_terminal reached.0 ∙ open_state, reached.1)

  pub done_reads :
      (failing : Bool) (h : HostRun)
      → let after = feed h (
          value_of
            (event_at host disk n (text "status") (done_fields (if failing then 1 else 0)))) in
        (after.state ≡ finish h.state (some (pos (if failing then 1 else 0))))
        × (after.rc ≡ some (pos (if failing then 1 else 0)))
  unfolding feed
  done_reads failing h =
      rw (kind_of_done host disk n (if failing then 1 else 0), int_of_done host disk n failing)
        (refl, refl)
