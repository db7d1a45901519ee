-- ===== src/Deploy/Stream.antt =====
-- crates/mandala-core/src/engines/deploy.rs: the event stream that the pipeline of a host writes,
-- the sink that the deploy-rs fork is given, and the early return of a result.
use mandala.Base.{ℕ, ◌+◌, Bool, Option, none, some, List, [], ◌∷◌, ◌++◌, ◌&&◌, if◌then◌else◌}
use mandala.Base.Order.{list_ord, beq}
use mandala.Base.Map.{Map, insert}
use mandala.Base.Text.{Text, text}
use mandala.Base.Json.{Value, Number, string, number, object, array, of_entries, of_elements}
use mandala.Base.Json.Number.{pos_int}
use mandala.Base.Result.{Result, ok, err}
use mandala.Runner.Host.{HostState, failed}
use mandala.Runner.Writer.{EventRecord, record_entries}
use mandala.Deploy.Settle.{HostDeployResult, host_result}

pub data ActivationDisposition : Type 0 where
  dry_preview : (reboot_pending : Bool) → ActivationDisposition
  live_switch boot_staging : ActivationDisposition

-- An error of the fork when it activates or stages a profile.
pub record DeployProfileError : Type 0 where
  pub message : Text
  pub rolled_back : Bool

-- A call of the fork that touches the host, with what it came to.
pub data Call : Type 0 where
  pushed : Option Text → Call
  resolved : Result ActivationDisposition Text → Call
  staged : Option DeployProfileError → Call
  activated : (dry_activate : Bool) → Option DeployProfileError → Call

-- `attempts` counts the writes, those that failed too; `calls` are in the order of the code.
pub record HostStream : Type 0 where
  pub written : List EventRecord
  pub attempts : ℕ
  pub sink_error : Option Text
  pub calls : List Call

abbrev pub new_stream : HostStream
new_stream = record { written = []; attempts = 0; sink_error = none; calls = [] }

-- What the system makes of the file of a stream: the error of its n-th opening, of its n-th
-- write, and the time of that. A write that fails leaves no record. `capped` is that the n-th record
-- finds the log of the build full: the stream of a host named `build` is that log.
pub record Disk : Type 0 where
  pub opening : ℕ → Option Text
  pub writing : ℕ → Option Text
  pub now : ℕ → Number
  pub capped : ℕ → Bool

-- What becomes of a record.
pub data Write : Type 0 where
  kept left_out : Write
  refused : Text → Write

-- An action that ends early with a result, or panics; what it wrote stays written.
pub data Stop : Type 0 where
  returned : HostDeployResult → Stop
  panicked : Stop

abbrev pub Task {ℓ} : Type ℓ → Type ℓ
Task A = HostStream → Result A Stop × HostStream

module _ {ℓ} {A : Type ℓ} where
  abbrev pub pure : A → Task A
  pure a s = (ok a, s)

  abbrev pub stop : Stop → Task A
  stop early s = (err early, s)

abbrev pub modify : (HostStream → HostStream) → Task (Unit {0})
modify f s = (ok tt, f s)

infixl 5 ◌>>=◌ ◌>>◌
abbrev pub ◌>>=◌ {ℓ κ} : {A : Type ℓ} {B : Type κ} → Task A → (A → Task B) → Task B
◌>>=◌ m f s = let (r, s') = m s in elim r [ ok a ↦ f a s' | err early ↦ stop early s' ]

abbrev pub ◌>>◌ {ℓ κ} : {A : Type ℓ} {B : Type κ} → Task A → Task B → Task B
m >> k = m >>= λ _. k

-- What a reader of a stream gets of a record: the object of its entries.
abbrev pub keyed : List (Text × Value) → Map Text Value
keyed [] = []
keyed ((k, v) ∷ fields) = insert (keyed fields) k v

unfoldable pub value_of : EventRecord → Value
value_of r = object (of_entries (keyed (record_entries r)))

abbrev pub line_fields : Text → Map Text Value
line_fields message = (text "line", string message) ∷ (text "stream", string (text "deploy")) ∷ []

abbrev pub milestone_fields : Text → Map Text Value
milestone_fields name = (text "milestone", string name) ∷ []

abbrev pub done_fields : ℕ → Map Text Value
done_fields rc = (text "rc", number (pos_int rc)) ∷ (text "state", string (text "done")) ∷ []

abbrev pub start_fields : Text → Map Text Value
start_fields host =
    (text "cmd", array (of_elements (string (text "mandala-deploy") ∷ string host ∷ [])))
    ∷ (text "state", string (text "start"))
    ∷ []

-- `emit_at` returns `Ok` for a record that it leaves out.
abbrev pub error_of : Write → Option Text
error_of (refused error) = some error
error_of _ = none

abbrev pub written_by : Write → EventRecord → List EventRecord → List EventRecord
written_by kept r records = records ++ (r ∷ [])
written_by _ r records = records

abbrev pub write_of : Option Text → Write
write_of none = kept
write_of (some error) = refused error

abbrev pub is_build : Text → Bool
is_build host = beq host (text "build")

abbrev pub write_at : Text → Disk → ℕ → Write
write_at host disk n =
    if is_build host && disk.capped n then left_out else write_of (disk.writing n)

abbrev pub prefixed : Text → Option Text → Option Text
prefixed what none = none
prefixed what (some error) = some (what ++ error)

abbrev first_error : Option Text → Option Text → Option Text
first_error none error = error
first_error (some first) error = some first

module _ (host : Text) (disk : Disk) where
  abbrev pub event_at : ℕ → Text → Map Text Value → EventRecord
  event_at n event fields = record {
    ts = disk.now n;
    host = host;
    plugin = text "deploy";
    event = event;
    fields = fields;
  }

  -- `EventWriter::emit` on the stream of a host, with its error.
  unfoldable pub emit : Text → Map Text Value → HostStream → Option Text × HostStream
  emit event fields s = (
    error_of (write_at host disk s.attempts),
    record s {
      written =
          written_by (write_at host disk s.attempts) (event_at s.attempts event fields) s.written;
      attempts = s.attempts + 1;
    },
  )

  abbrev pub emit_milestone : Text → HostStream → Option Text × HostStream
  emit_milestone name = emit (text "milestone") (milestone_fields name)

  -- `let _ = writer.emit(...)` of a line.
  abbrev pub note_line : Text → HostStream → HostStream
  note_line message s = (emit (text "line") (line_fields message) s).1

  -- `RegistryDeploySink::emit`.
  abbrev pub sink_emit : Text → HostStream → HostStream
  sink_emit message s =
      let (error, s') = emit (text "line") (line_fields message) s in
      record s' { sink_error = first_error s'.sink_error error }

  unfoldable pub sink_all : List Text → HostStream → HostStream
  sink_all [] s = s
  sink_all (message ∷ messages) s = sink_all messages (sink_emit message s)

  -- `host_result`, with its write.
  unfoldable pub settle_host : HostState → Option Text → HostStream → HostDeployResult × HostStream
  settle_host state error s =
      let (failure, s') =
        emit (text "status") (done_fields (host_result host state error none).0) s in
      (
        (host_result host state error (prefixed (text "writing terminal host status: ") failure)).1,
        s',
      )

  unfoldable pub failed_host : Text → HostStream → HostDeployResult × HostStream
  failed_host error s = settle_host failed (some error) (note_line error s)

  abbrev pub return_failed {ℓ} : {A : Type ℓ} → Text → Task A
  return_failed error s = let (r, s') = failed_host error s in (err (returned r), s')

  -- `if let Some(error) = ... { return failed_host(...) }`.
  abbrev pub or_fail : Option Text → Task (Unit {0})
  or_fail none = pure tt
  or_fail (some error) = return_failed error

  -- A milestone that must be written.
  abbrev pub reach_milestone : (name what : Text) → Task (Unit {0})
  reach_milestone name what s =
      let (error, s') = emit_milestone name s in or_fail (prefixed what error) s'

  -- The error of the sink, if it has one.
  abbrev pub check_sink : Text → Task (Unit {0})
  check_sink what s = or_fail (prefixed what s.sink_error) s

  -- A call of the fork, which writes to the sink while it runs.
  abbrev pub call_fork : Call → List Text → HostStream → HostStream
  call_fork call messages s =
      let s' = sink_all messages s in record s' { calls = s'.calls ++ (call ∷ []) }
