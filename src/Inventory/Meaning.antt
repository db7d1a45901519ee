-- ===== src/Inventory/Meaning.antt =====
-- What a selector means, apart from the order in which its parts are read.
use mandala.Base.{Bool, true, false, not, ◌&&◌, none, some, List, if◌then◌else◌, any, map_or}
use mandala.Base.Order.{list_ord, beq}
use mandala.Base.Map.{get, contains_key}
use mandala.Base.Set.{contains}
use mandala.Base.Text.{Text, is_empty, trim, strip_char}
use mandala.Inventory.Validate.{Inventory}
use mandala.Inventory.Select.{is_all}

abbrev pub is_include : Text → Bool
is_include part =
    not (is_empty part) && elim (strip_char b'!' part) [ some atom ↦ false | none ↦ true ]

module _ (inv : Inventory) where
  -- The atom names the member `m`, by a keyword, through a group, or by its name.
  unfoldable pub covers : Text → Text → Bool
  covers atom m =
      if is_all atom then contains_key inv.aggregate.members m else elim (strip_char b'@' atom) [
        | some group ↦ map_or (get inv.aggregate.groups group) false (λ ms. contains ms m)
        | none ↦ beq m atom && contains_key inv.aggregate.members atom
      ]

  -- The parts of a selector, trimmed, with the blank ones left in.
  abbrev pub included_by : Text → Text → Bool
  included_by part m =
      not (is_empty part)
      && elim (strip_char b'!' part) [ some atom ↦ false | none ↦ covers part m ]

  abbrev pub excluded_by : Text → Text → Bool
  excluded_by part m = elim (strip_char b'!' part) [ some atom ↦ covers atom m | none ↦ false ]

  -- `m` is selected: some part includes it, or no part includes anything and it is a member of
  -- the fleet, and no part excludes it.
  abbrev pub selects : List Text → Text → Bool
  selects raws m =
      (if any (λ raw. is_include (trim raw)) raws
        then any (λ raw. included_by (trim raw) m) raws
        else contains_key inv.aggregate.members m)
      && not (any (λ raw. excluded_by (trim raw) m) raws)
