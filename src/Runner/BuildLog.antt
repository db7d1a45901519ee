-- ===== src/Runner/BuildLog.antt =====
-- crates/mandala-core/src/build_log.rs: what a build log keeps of the log of Nix.
use mandala.Base.{
  ℕ, ◌-◌, Bool, true, false, ◌&&◌, ◌||◌, Option, none, some, [], ◌∷◌, ◌++◌, if◌then◌else◌, leb, ltb,
  map_or, unwrap_or,
}
use mandala.Base.Order.{list_ord, nat_ord, beq}
use mandala.Base.Set
use mandala.Base.Set.{Set, contains}
use mandala.Base.Int.{ℤ, pos, negsuc}
use mandala.Base.Text.{Text, text, byte_len, len_utf8}
use mandala.Base.Json.{Value, string, array, object, Items, nil, cons, Fields, end, field}
use mandala.Base.Result.{ok, err}
use mandala.Forest.Message.{NixMessage, parse_nix_line}

-- `activities` of the filter.
abbrev pub BuildLogFilter : Type 0
BuildLogFilter = Set ℕ

abbrev in_range : ℕ → ℕ → ℤ → Bool
in_range low high (pos n) = leb low n && leb n high
in_range low high (negsuc n) = false

abbrev pub is_kept_start : Option ℤ → Bool
is_kept_start none = false
is_kept_start (some code) = in_range 100 105 code || in_range 108 108 code || in_range 110 112 code

abbrev pub is_kept_result : Option ℤ → Bool
is_kept_result none = false
is_kept_result (some code) = in_range 102 106 code || in_range 108 108 code

-- `level <= 1`.
abbrev at_most_one : ℤ → Bool
at_most_one (pos n) = leb n 1
at_most_one (negsuc n) = true

abbrev retain_message : NixMessage → ℕ → BuildLogFilter → BuildLogFilter × Bool
retain_message m id filter =
    if beq m.action (text "start") && is_kept_start m.type_code
    then (Set.insert filter id, true)
    else if beq m.action (text "stop")
    then (Set.remove filter id, contains filter id)
    else if beq m.action (text "result")
    then (filter, contains filter id && is_kept_result m.type_code)
    else if beq m.action (text "msg")
    then (filter, map_or m.level false at_most_one)
    else (filter, false)

unfoldable pub retain : (Text → Option NixMessage) → BuildLogFilter → Text → BuildLogFilter × Bool
retain from_str filter line = elim (parse_nix_line from_str line) [
  | ok (some m) ↦ retain_message m (unwrap_or m.id 0) filter
  | ok none ↦ (filter, false)
  | err e ↦ (filter, false)
]

-- The longest prefix of at most `budget` bytes that ends on a character.
unfoldable pub truncate : ℕ → Text → Text
truncate budget [] = []
truncate budget (c ∷ s) =
    let rest = truncate (budget - len_utf8 c) s in if leb (len_utf8 c) budget then c ∷ rest else []

abbrev pub marker : Text
marker = 8230 ∷ text " [truncated]"

unfoldable pub bound_string : Text → Text
bound_string s = if ltb 8192 (byte_len s) then truncate 8192 s ++ marker else s

unfoldable mutual
  unfolding bound_string

  pub bound_strings : Value → Value
  bound_strings (string s) = string (bound_string s)
  bound_strings (array vs) = array (bound_items vs)
  bound_strings (object fs) = object (bound_fields fs)
  bound_strings v = v

  pub bound_items : Items → Items
  bound_items nil = nil
  bound_items (cons v vs) = cons (bound_strings v) (bound_items vs)

  pub bound_fields : Fields → Fields
  bound_fields end = end
  bound_fields (field k v fs) = field k (bound_strings v) (bound_fields fs)
