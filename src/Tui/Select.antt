-- ===== src/Tui/Select.antt =====
-- crates/mandala-tui/src/select.rs: the selection and the cursor of a table.
use mandala.Base.{
  ℕ, ◌+◌, ◌-◌, Bool, false, not, Option, none, some, List, [], if◌then◌else◌, leb, ◌==◌, min,
  length, take, drop, keep, get_elem?, unwrap_or,
}
use mandala.Base.Order.{list_ord}
use mandala.Base.Set
use mandala.Base.Set.{Set, contains}
use mandala.Base.Int.{ℤ, pos, negsuc}
use mandala.Base.Text.{Text, is_empty}

pub record SelectTable : Type 0 where
  pub names : List Text
  pub selected : Set Text
  pub sticky : Set Text
  pub anchor : Option ℕ
  pub cursor : ℕ

abbrev pub reset_rows : List Text → SelectTable
reset_rows names = record { names = names; selected = []; sticky = []; anchor = none; cursor = 0 }

-- The index is within the rows, where there are any.
abbrev pub cursor_name : SelectTable → Option Text
cursor_name t =
    if is_empty t.names then none else get_elem? t.names (min t.cursor (length t.names - 1))

unfoldable pub selected_names : SelectTable → List Text
selected_names t = keep (contains t.selected) t.names

abbrev usize_max : ℕ
usize_max = 18446744073709551615

-- `saturating_add_signed`; `negsuc n` is -(n + 1).
abbrev pub saturating_add_signed : ℕ → ℤ → ℕ
saturating_add_signed n (pos d) = min (n + d) usize_max
saturating_add_signed n (negsuc d) = n - (d + 1)

unfoldable pub clamped : SelectTable → ℤ → ℕ
clamped t delta = min (saturating_add_signed t.cursor delta) (length t.names - 1)

abbrev pub toggle_name : Text → SelectTable → SelectTable
toggle_name name t =
    let sticky =
      if contains t.sticky name then Set.remove t.sticky name else Set.insert t.sticky name in
    record t { sticky = sticky; anchor = some t.cursor; selected = sticky }

unfoldable pub toggle : SelectTable → SelectTable
toggle t = elim (cursor_name t) [ none ↦ t | some name ↦ toggle_name name t ]

-- `names[lo..=hi]`.
abbrev pub slice : List Text → ℕ → ℕ → List Text
slice names lo hi = drop lo (take (hi + 1) names)

abbrev pub range_of : List Text → (anchor row : ℕ) → List Text
range_of names anchor row =
    if leb anchor row then slice names anchor row else slice names row anchor

abbrev pub extend_rows : ℤ → SelectTable → SelectTable
extend_rows delta t =
    let anchor = unwrap_or t.anchor t.cursor in
    let row = clamped t delta in
    record t {
      anchor = some anchor;
      cursor = row;
      selected = Set.extend t.sticky (range_of t.names anchor row);
    }

unfoldable pub extend : ℤ → SelectTable → SelectTable
extend delta t = if is_empty t.names then t else extend_rows delta t

unfoldable pub skip : ℤ → SelectTable → SelectTable
skip delta t = if is_empty t.names then t else record t { cursor = clamped t delta }

abbrev pub clear_selection : SelectTable → SelectTable
clear_selection t = record t { sticky = []; anchor = none; selected = [] }

unfoldable pub move_cursor : ℤ → SelectTable → SelectTable × Bool
move_cursor delta t =
    if is_empty t.names
    then (t, false)
    else (record t { cursor = clamped t delta }, not (clamped t delta == t.cursor))

unfoldable pub view_offset : (cursor height : ℕ) → ℕ
view_offset cursor height = if height == 0 then cursor else cursor + 1 - height
