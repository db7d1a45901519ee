-- ===== src/Tui/Selected.antt =====
-- What holds of a table whatever keys are pressed.
use mandala.Base.{
  ℕ, ◌+◌, ◌≤◌, ◌<◌, ◌≡◌, Bool, true, false, ◌||◌, List, [], ◌∷◌, ltb, length, map_or, arith,
  unwrap_or,
}
use mandala.Base.Order.{list_ord}
use mandala.Base.Set.{contains, contains-extend}
use mandala.Base.Int.{ℤ}
use mandala.Base.Text.{Text, is_empty}
use mandala.Tui.Select.{
  SelectTable, clamped, toggle, extend, skip, clear_selection, move_cursor, range_of, view_offset,
}

-- The keys that act on a table.
pub data Key : Type 0 where
  space escape : Key
  shift ctrl plain : ℤ → Key

unfoldable pub press : Key → SelectTable → SelectTable
press space t = toggle t
press escape t = clear_selection t
press (shift delta) t = extend delta t
press (ctrl delta) t = skip delta t
press (plain delta) t = (move_cursor delta t).0

unfoldable pub press_all : List Key → SelectTable → SelectTable
press_all [] t = t
press_all (key ∷ ks) t = press_all ks (press key t)

abbrev in_rows : List Text → ℕ → Bool
in_rows names i = is_empty names || ltb i (length names)

-- The cursor is a row, where there are rows, and so is the anchor, and the toggled rows are
-- selected.
pub record IsInRange (t : SelectTable) : Type 0 where
  pub cursor_row : in_rows t.names t.cursor ≡ true
  pub anchor_row : map_or t.anchor true (in_rows t.names) ≡ true
  pub sticky_selected :
      (name : Text) → contains t.sticky name ≡ true → contains t.selected name ≡ true

-- After a shifted move a name is selected exactly if it was toggled or is between the anchor and
-- the cursor, whatever range was selected before.
extend-selects :
    (delta : ℤ) (t : SelectTable) (name : Text)
    → is_empty t.names ≡ false
    → contains (extend delta t).selected name ≡ (
        contains t.sticky name
        || contains (range_of t.names (unwrap_or t.anchor t.cursor) (extend delta t).cursor) name)
unfolding extend
extend-selects delta t name h =
    rw (h, extend)
      (contains-extend (range_of t.names (unwrap_or t.anchor t.cursor) (clamped t delta)) t.sticky
        name)

-- The cursor is inside the rows that are shown, if any row is: the viewport follows it.
view_offset_shows :
    (cursor height : ℕ)
    → 1 ≤ height
    → (view_offset cursor height ≤ cursor) × (cursor < view_offset cursor height + height)
unfolding view_offset
view_offset_shows cursor height h = ground arith
