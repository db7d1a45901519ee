-- ===== src/Mcp/Probe.antt =====
-- crates/mandala-mcp/src/server.rs: what the tools share, and the tools that read. A tool is given
-- the effects, and returns those it ran beside its result.
use mandala.Base.{
  ℕ, Bool, false, Option, none, some, List, [], ◌∷◌, if◌then◌else◌, map, unwrap_or, max,
}
use mandala.Base.Order.{list_ord, beq}
use mandala.Base.Map.{Map, insert}
use mandala.Base.Int.{ℤ, pos, negsuc}
use mandala.Base.Result.{Result, ok, err}
use mandala.Base.Text.{Text, text, is_empty, join, trim}
use mandala.Base.Json.{Value, number, string, array, object, of_elements, of_entries}
use mandala.Base.Json.Number.{pos_int, neg_int}
use mandala.Inventory.Member.{compact}
use mandala.Inventory.Validate.{Inventory, InventoryError}
use mandala.Inventory.Select.{resolve, to_limit}
use mandala.Mcp.Tools.{
  PingTool, ToolError, refused_by_inventory, io_error, ansible_not_found, Arg, word, count,
  AdhocOutput, AdhocError, not_found, other, Effects, adhoc, Run,
}
use mandala.Mcp.Output.{lines, reachable_in}

-- `json!` of an object.
abbrev pub insert_all : List (Text × Value) → Map Text Value → Map Text Value
insert_all [] m = m
insert_all ((k, v) ∷ rest) m = insert_all rest (insert m k v)

abbrev pub json : List (Text × Value) → Value
json fields = object (of_entries (insert_all fields []))

abbrev pub of_int : ℤ → Value
of_int (pos n) = number (pos_int n)
of_int (negsuc n) = number (neg_int n)

abbrev pub of_texts : List Text → Value
of_texts names = array (of_elements (map string names))

-- `value.unwrap_or(default).max(1)`.
abbrev pub at_least_one : Option ℤ → (default : ℕ) → ℕ
at_least_one none default = max default 1
at_least_one (some (pos n)) default = max n 1
at_least_one (some (negsuc n)) default = 1

-- `confirm.as_deref() == Some(target)`.
abbrev pub is_confirmed : Option Text → (target : Text) → Bool
is_confirmed none target = false
is_confirmed (some confirm) target = beq confirm target

-- A result that is passed on, where nothing was run for it.
abbrev pub after_limit : Result Text InventoryError → (Text → Run Value) → Run Value
after_limit (err e) next = ([], err (refused_by_inventory e))
after_limit (ok target) next = next target

abbrev pub adhoc_error : AdhocError → ToolError
adhoc_error not_found = ansible_not_found
adhoc_error (other message) = io_error message

-- `run_adhoc`.
abbrev pub run_adhoc_with : Effects → List Arg → (AdhocOutput → Value) → Run Value
run_adhoc_with fx argv shown = (adhoc argv ∷ [], told (fx.run_adhoc argv))
  where
    told : Result AdhocOutput AdhocError → Result Value ToolError
    told (ok out) = ok (shown out)
    told (err e) = err (adhoc_error e)

unfoldable pub tool_resolve : (selector : Text) → Inventory → Run Value
tool_resolve selector inv = (
  [],
  elim (resolve inv selector) [
    | ok members ↦ ok (
        json (
          (text "members", of_texts members)
          ∷ (text "limit", string (join (text ",") members))
          ∷ []))
    | err e ↦ err (refused_by_inventory e)
  ],
)

abbrev pub members_value : (full : Bool) → Map Text (Map Text Value) → Map Text Value
members_value full [] = []
members_value full ((name, member) ∷ rest) =
    (name, object (of_entries (if full then member else compact member))) ∷ members_value full rest

unfoldable pub tool_members : (full : Option Bool) → Inventory → Run Value
tool_members full inv =
    ([], ok (object (of_entries (members_value (unwrap_or full false) inv.aggregate.members))))

abbrev pub ping_argv : PingTool → (target : Text) → List Arg
ping_argv t target =
    word (text "ansible")
    ∷ word target
    ∷ word (text "-m")
    ∷ word (text "ping")
    ∷ word (text "-o")
    ∷ word (text "-f")
    ∷ count (at_least_one t.forks 15)
    ∷ word (text "-T")
    ∷ count (at_least_one t.connect_timeout 10)
    ∷ []

abbrev pub diagnostics : AdhocOutput → List (Text × Value)
diagnostics out =
    let stderr = trim out.stderr in
    if is_empty stderr then [] else (text "diagnostics", string stderr) ∷ []

abbrev pub ping_value : (target : Text) → AdhocOutput → Value
ping_value target out = json (
    (text "limit", string target)
    ∷ (text "reachable", object (of_entries (reachable_in (lines out.stdout) [])))
    ∷ (text "exit_code", of_int out.code)
    ∷ (text "output", string (trim out.stdout))
    ∷ diagnostics out)

unfoldable pub tool_ping : Effects → PingTool → Inventory → Run Value
tool_ping fx t inv =
    after_limit (to_limit inv t.selector)
      (λ target. run_adhoc_with fx (ping_argv t target) (ping_value target))
