-- ===== src/Runner/Chunks.antt =====
-- The reader of a stream does not depend on where the polls cut it.
use mandala.Base.{ℕ, ◌+◌, ◌≡◌, Option, List, [], ◌∷◌, ◌++◌, if◌then◌else◌, length}
use mandala.Base.Text.{Text}
use mandala.Base.Utf8.{is_utf8, complete_lines}
use mandala.Base.Json.{Value}
use mandala.Forest.Message.{NixMessage}
use mandala.Runner.Tail.{Reading, route}

abbrev concat : List (List ℕ) → List ℕ
concat [] = []
concat (l ∷ ls) = l ++ concat ls

-- A line that is complete, and is one line.
abbrev IsLine : List ℕ → Type 0
IsLine l = (rest : List ℕ) → complete_lines (l ++ rest) ≡ l ∷ complete_lines rest

-- The bytes of the lines that the loop takes.
consumed : List (List ℕ) → ℕ
consumed [] = 0
consumed (l ∷ ls) = let rest = consumed ls in if is_utf8 l then length l + rest else 0

module _ (from_str : List ℕ → Option Value) (parse : Text → Option NixMessage) (now : ℕ) where
  abbrev step : List ℕ → Reading → Reading
  step l r = record {
    offset = r.offset + length l;
    count = r.count + 1;
    tailer = route from_str parse now l r.tailer;
  }
