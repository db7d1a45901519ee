-- ===== src/Runner/Writer.antt =====
-- crates/mandala-core/src/runner.rs: `EventWriter`, which appends to one stream of a run. The
-- writer of JSON is serde's, and is a parameter.
use mandala.Base.{
  ℕ, ◌+◌, ◌-◌, ◌*◌, Bool, true, false, not, ◌&&◌, ◌||◌, Option, none, some, List, [], ◌∷◌, ◌++◌,
  if◌then◌else◌, leb, ltb, is_some, bind, map_or, unwrap_or, length,
}
use mandala.Base.Order.{list_ord, beq}
use mandala.Base.Map.{Map, get, contains_key}
use mandala.Base.Set.{contains}
use mandala.Base.Text.{Text, text}
use mandala.Base.Json.{Value, Number, number, string, as_str, as_bool}
use mandala.Base.Json.Number.{pos_int}
use mandala.Inventory.Name.{is_valid_member_name}
use mandala.Forest.Message.{NixMessage}
use mandala.Runner.BuildLog.{BuildLogFilter, retain, bound_strings}

abbrev pub build_log_max_bytes : ℕ
build_log_max_bytes = 16 * 1024 * 1024

abbrev pub terminal_reserve : ℕ
terminal_reserve = 64 * 1024

pub record EventRecord : Type 0 where
  pub ts : Number
  pub host : Text
  pub plugin : Text
  pub event : Text
  pub fields : Map Text Value

-- `appended` is what the writer has put behind the bytes that it found in the file.
pub record EventFile : Type 0 where
  pub build_filter : Option BuildLogFilter
  pub bytes : ℕ
  pub truncated : Bool
  pub appended : List ℕ

pub record EventWriter : Type 0 where
  pub host : Text
  pub plugin : Text
  pub file : EventFile

-- `new`, on a file of `found` bytes; `none` is the refusal of the labels.
unfoldable pub new_writer : (found : ℕ) → (stream host plugin : Text) → Option EventWriter
new_writer found stream host plugin =
    if not (is_valid_member_name stream) || not (is_valid_member_name host)
    then none
    else some (record {
      host = host;
      plugin = plugin;
      file = record {
        build_filter = if beq stream (text "build") then some [] else none;
        bytes = found;
        truncated = false;
        appended = [];
      };
    })

abbrev pub preferred : Text → Map Text Value → List Text
preferred event fields =
    if beq event (text "status")
    then (if contains_key fields (text "cmd")
        then text "cmd" ∷ text "state" ∷ []
        else text "rc" ∷ text "state" ∷ [])
    else if beq event (text "line")
    then text "line" ∷ text "stream" ∷ []
    else if beq event (text "progress")
    then text "built"
      ∷ text "finished"
      ∷ text "fetched"
      ∷ text "fetched_done"
      ∷ text "errors"
      ∷ text "current"
      ∷ []
    else if beq event (text "nixlog")
    then text "line" ∷ []
    else []

unfoldable pub first_fields : List Text → Map Text Value → List (Text × Value)
first_fields [] fields = []
first_fields (key ∷ ks) fields = elim (get fields key) [
  | none ↦ first_fields ks fields
  | some v ↦ (key, v) ∷ first_fields ks fields
]

unfoldable pub other_fields : List Text → Map Text Value → List (Text × Value)
other_fields ks [] = []
other_fields ks ((key, v) ∷ fields) = elim (contains ks key) [
  | true ↦ other_fields ks fields
  | false ↦ (key, v) ∷ other_fields ks fields
]

-- The entries of `serialize`, in order.
unfoldable pub record_entries : EventRecord → List (Text × Value)
record_entries r =
    (text "v", number (pos_int 2))
    ∷ (text "ts", number r.ts)
    ∷ (text "host", string r.host)
    ∷ (text "plugin", string r.plugin)
    ∷ (text "event", string r.event)
    ∷ (first_fields (preferred r.event r.fields) r.fields
        ++ other_fields (preferred r.event r.fields) r.fields)

abbrev pub bound_values : Map Text Value → Map Text Value
bound_values [] = []
bound_values ((k, v) ∷ fields) = (k, bound_strings v) ∷ bound_values fields

abbrev pub str_field : Text → Map Text Value → Option Text
str_field key fields = bind (get fields key) as_str

unfoldable pub is_terminal_record : Text → Map Text Value → Bool
is_terminal_record event fields =
    beq event (text "status") && map_or (str_field (text "state") fields) false (beq (text "done"))
    || beq event (text "progress") && unwrap_or (bind (get fields (text "final")) as_bool) false

abbrev pub notice_text : Text
notice_text =
    text "build log size cap reached; subsequent detail omitted (final counters/status retained)"

abbrev pub notice_fields : Map Text Value
notice_fields = (text "line", string notice_text) ∷ (text "stream", string (text "mandala")) ∷ []

abbrev pub append : List ℕ → EventFile → EventFile
append bytes file = record file {
  bytes = file.bytes + length bytes;
  appended = file.appended ++ bytes;
}

-- The branch that leaves the record out.
abbrev pub write_notice : List ℕ → EventFile → EventFile
write_notice notice file =
    if file.truncated
    then file
    else if leb (file.bytes + length notice) build_log_max_bytes
    then append notice (record file { truncated = true })
    else record file { truncated = true }

abbrev pub limit_of : Bool → ℕ
limit_of terminal = if terminal then build_log_max_bytes else build_log_max_bytes - terminal_reserve

-- What `emit_at` does with the bytes of a record.
abbrev pub write_capped : (terminal : Bool) → (bytes notice : List ℕ) → EventFile → EventFile
write_capped terminal bytes notice file =
    if not terminal && file.truncated || ltb (limit_of terminal - 1024) (file.bytes + length bytes)
    then write_notice notice file
    else append bytes file

module _ (from_str : Text → Option NixMessage) (to_vec : List (Text × Value) → List ℕ) where
  -- The filter is asked for the records of Nix's log; the Boolean says whether a record is kept.
  abbrev pub ask_filter :
      Text → Map Text Value → Option BuildLogFilter → Option BuildLogFilter × Bool
  ask_filter event fields none = (none, true)
  ask_filter event fields (some filter) =
      if beq event (text "nixlog")
      then (let kept = retain from_str filter (unwrap_or (str_field (text "line") fields) []) in
          (some kept.0, kept.1))
      else (some filter, true)

  abbrev pub filtered : Text → Map Text Value → EventFile → EventFile
  filtered event fields file = record file {
    build_filter = (ask_filter event fields file.build_filter).0;
  }

  abbrev pub bounded_fields : Text → Map Text Value → (is_build : Bool) → Map Text Value
  bounded_fields event fields is_build =
      if is_build && not (beq event (text "nixlog")) then bound_values fields else fields

  abbrev pub encode : EventRecord → List ℕ
  encode r = to_vec (record_entries r) ++ (10 ∷ [])

  abbrev pub write_record : EventWriter → Text → Map Text Value → Number → EventFile → EventFile
  write_record w event fields ts file =
      let line =
        encode
          (record { ts = ts; host = w.host; plugin = w.plugin; event = event; fields = fields }) in
      let notice = encode (record {
        ts = ts;
        host = w.host;
        plugin = w.plugin;
        event = text "line";
        fields = notice_fields;
      }) in
      if is_some file.build_filter
      then write_capped (is_terminal_record event fields) line notice file
      else append line file

  unfoldable pub emit_at : EventWriter → Text → Map Text Value → Number → EventWriter
  emit_at w event fields ts =
      let file = filtered event fields w.file in
      record w {
        file =
            if (ask_filter event fields w.file.build_filter).1
            then write_record w event (bounded_fields event fields (is_some file.build_filter)) ts
                file
            else file;
      }
