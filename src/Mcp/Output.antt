-- ===== src/Mcp/Output.antt =====
-- crates/mandala-mcp/src/server.rs: what is read from the output of ansible.
use mandala.Base.{
  ℕ, Bool, not, ◌&&◌, ◌||◌, Option, none, some, List, [], ◌∷◌, if◌then◌else◌, leb, ◌==◌, any,
  map_or, unwrap_or,
}
use mandala.Base.Order.{list_ord, beq}
use mandala.Base.Map.{Map, insert}
use mandala.Base.Text.{
  Text, text, is_empty, is_whitespace, split, split_once, strip_prefix, strip_suffix, take_until,
  trim, trim_end_matches,
}
use mandala.Base.Json.{Value, bool}

-- `str::lines`: a line ends at a line feed, with or without a carriage return before it.
abbrev pub without_cr : Text → Text
without_cr line = unwrap_or (strip_suffix (b'\r' ∷ []) line) line

-- Of the pieces between the line feeds, the last one ends without any.
abbrev pub lines_of_pieces : List Text → List Text
lines_of_pieces [] = []
lines_of_pieces (l ∷ []) = if is_empty l then [] else l ∷ []
lines_of_pieces (l ∷ m ∷ ls) = without_cr l ∷ lines_of_pieces (m ∷ ls)

abbrev pub lines : Text → List Text
lines s = lines_of_pieces (split (λ c. c == b'\n') s)

-- `line.split_once(" | ")`.
abbrev pub split_once_bar : Text → Option (Text × Text)
split_once_bar [] = none
split_once_bar (c ∷ s) =
    let rest = split_once_bar s in
    elim (strip_prefix (text " | ") (c ∷ s)) [
      | some after ↦ some ([], after)
      | none ↦ map_or rest none (λ (before, after). some (c ∷ before, after))
    ]

abbrev pub is_mark : ℕ → Bool
is_mark c = c == b'!' || c == b':'

-- The first word of what stands behind the host, without the marks at its end.
abbrev pub ping_token : Text → Text
ping_token rest = trim_end_matches is_mark (take_until (λ c. c == b' ') (trim rest))

abbrev add_ping : Option (Text × Text) → Map Text Value → Map Text Value
add_ping none found = found
add_ping (some (host, rest)) found =
    if is_empty (trim host)
    then found
    else insert found (trim host) (bool (beq (ping_token rest) (text "SUCCESS")))

abbrev pub reachable_in : List Text → Map Text Value → Map Text Value
reachable_in [] found = found
reachable_in (l ∷ ls) found = reachable_in ls (add_ping (split_once b'|' l) found)

abbrev pub is_ascii_uppercase : ℕ → Bool
is_ascii_uppercase c = leb b'A' c && leb c b'Z'

abbrev pub adhoc_status : Text → Text
adhoc_status rest = take_until (λ c. not (is_ascii_uppercase c)) rest

abbrev add_restart : Option (Text × Text) → Map Text Value → Map Text Value
add_restart none found = found
add_restart (some (host, rest)) found =
    let status = adhoc_status rest in
    if (is_empty host || any is_whitespace host) || is_empty status
    then found
    else insert found host (bool (beq status (text "CHANGED") || beq status (text "SUCCESS")))

abbrev pub restarted_in : List Text → Map Text Value → Map Text Value
restarted_in [] found = found
restarted_in (l ∷ ls) found = restarted_in ls (add_restart (split_once_bar l) found)
