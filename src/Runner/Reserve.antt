-- ===== src/Runner/Reserve.antt =====
-- The room that a build log keeps for the records that end a run.
use mandala.Base.{ℕ, Bool, true, Option, List, [], ◌∷◌}
use mandala.Base.Order.{list_ord}
use mandala.Base.Map.{Map}
use mandala.Base.Text.{Text, text}
use mandala.Base.Json.{Value, Number}
use mandala.Forest.Message.{NixMessage}
use mandala.Runner.Writer.{
  EventWriter, bounded_fields, encode, emit_at, is_terminal_record, notice_fields,
}

-- A record of a build log, as `emit` takes it.
pub record Emission : Type 0 where
  pub event : Text
  pub fields : Map Text Value
  pub ts : Number

module _ (from_str : Text → Option NixMessage) (to_vec : List (Text × Value) → List ℕ) where
  abbrev pub notice_of : EventWriter → Number → List ℕ
  notice_of w ts = encode from_str to_vec (record {
    ts = ts;
    host = w.host;
    plugin = w.plugin;
    event = text "line";
    fields = notice_fields;
  })

  abbrev pub ends_run : Emission → Bool
  ends_run e = is_terminal_record e.event (bounded_fields from_str to_vec e.event e.fields true)

  abbrev pub line_of : EventWriter → Emission → List ℕ
  line_of w e = encode from_str to_vec (record {
    ts = e.ts;
    host = w.host;
    plugin = w.plugin;
    event = e.event;
    fields = bounded_fields from_str to_vec e.event e.fields true;
  })

  unfoldable pub emit_all : EventWriter → List Emission → EventWriter
  emit_all w [] = w
  emit_all w (e ∷ es) = emit_all (emit_at from_str to_vec w e.event e.fields e.ts) es
