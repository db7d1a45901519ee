-- ===== src/Inventory/Select.antt =====
-- `Inventory::resolve`, `resolve_part` and `to_limit`: the selector algebra.
use mandala.Base.{ℕ, Bool, true, false, ◌||◌, none, some, List, [], ◌∷◌, if◌then◌else◌, ◌==◌}
use mandala.Base.Order.{list_ord, beq}
use mandala.Base.Map.{get, keys, contains_key}
use mandala.Base.Set.{Set, extend, difference}
use mandala.Base.Text.{Text, text, is_empty, trim, strip_char, split, join}
use mandala.Base.Result.{Result, ok, err, ◌>>=◌}
use mandala.Inventory.Validate.{
  Inventory, InventoryError, empty_selector, resolves_to_nothing, no_such_group, no_such_member,
}

abbrev pub is_separator : ℕ → Bool
is_separator c = c == b',' || c == b':'

abbrev pub is_all : Text → Bool
is_all part = beq part (text "all") || beq part (text "@all")

abbrev group_members : Inventory → Text → Result (List Text) InventoryError
group_members inv group = elim (get inv.aggregate.groups group) [
  | none ↦ err (no_such_group group (keys inv.aggregate.groups))
  | some ms ↦ ok ms
]

abbrev one_member : Inventory → Text → Result (List Text) InventoryError
one_member inv part =
    if contains_key inv.aggregate.members part then ok (part ∷ []) else err (no_such_member part)

unfoldable pub resolve_part : Inventory → Text → Result (List Text) InventoryError
resolve_part inv part =
    if is_all part then ok (keys inv.aggregate.members) else elim (strip_char b'@' part) [
      | some group ↦ group_members inv group
      | none ↦ one_member inv part
    ]

-- The variables of the loop.
pub record Selection : Type 0 where
  pub include : Set Text
  pub exclude : Set Text
  pub saw_include : Bool

abbrev pub nothing_selected : Selection
nothing_selected = record { include = []; exclude = []; saw_include = false }

-- The body of the loop, for a part that is trimmed and not empty.
unfoldable pub select_part : Inventory → Text → Selection → Result Selection InventoryError
select_part inv part sel = elim (strip_char b'!' part) [
  | some atom ↦ resolve_part inv atom >>= λ ms. ok (record sel { exclude = extend sel.exclude ms })
  | none ↦ resolve_part inv part >>= λ ms.
      ok (record sel { include = extend sel.include ms; saw_include = true })
]

-- The body of the loop, for a trimmed part.
unfoldable pub select_trimmed : Inventory → Text → Selection → Result Selection InventoryError
select_trimmed inv part sel = if is_empty part then ok sel else select_part inv part sel

unfoldable pub select_loop : Inventory → List Text → Selection → Result Selection InventoryError
select_loop inv [] sel = ok sel
select_loop inv (raw ∷ rest) sel =
    select_trimmed inv (trim raw) sel >>= λ sel'. select_loop inv rest sel'

abbrev pub non_empty : Text → List Text → Result (List Text) InventoryError
non_empty selector [] = err (resolves_to_nothing selector)
non_empty selector (m ∷ ms) = ok (m ∷ ms)

unfoldable pub settle : Inventory → Text → Selection → Result (List Text) InventoryError
settle inv selector sel =
    if sel.saw_include
    then non_empty selector (difference sel.include sel.exclude)
    else if is_empty sel.exclude
    then err empty_selector
    else non_empty selector (difference (keys inv.aggregate.members) sel.exclude)

unfoldable pub resolve : Inventory → Text → Result (List Text) InventoryError
resolve inv selector = do
  sel ← select_loop inv (split is_separator selector) nothing_selected
  settle inv selector sel

unfoldable pub to_limit : Inventory → Text → Result Text InventoryError
to_limit inv selector = resolve inv selector >>= λ ms. ok (join (b',' ∷ []) ms)
