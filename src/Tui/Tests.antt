-- ===== src/Tui/Tests.antt =====
-- Runs of a table of three rows.
use mandala.Base.{false, min, ◌⊎◌, ◌+◌, ◌≤◌, ◌≡◌, refl, some, List, [], ◌∷◌, arith}
use mandala.Base.Order.{list_ord}
use mandala.Base.Set
use mandala.Base.Set.{contains}
use mandala.Base.Int.{pos, negsuc}
use mandala.Base.Text.{Text, text}
use mandala.Tui.Select.{SelectTable, reset_rows, extend, toggle, skip, clamped, selected_names}
use mandala.Tui.Selected.{Key, space, shift, ctrl, press, press_all}
use mandala.Tui.Scroll.{update_content, scroll_up, visible_range}
use mandala.Tui.Scrolled.{Action, update, up, perform, perform_all, reached, visible_range-IsWithin}

abbrev rows : List Text
rows = text "cache" ∷ text "router" ∷ text "web" ∷ []

abbrev pressed : List Key
pressed = space ∷ ctrl (pos 5) ∷ shift (negsuc 0) ∷ []

range_selected :
    selected_names (press_all pressed (reset_rows rows)) ≡ text "cache" ∷ text "router" ∷ []
unfolding selected_names press_all press toggle skip extend clamped contains Set.extend Set.insert
range_selected = refl

abbrev table : SelectTable
table = record (reset_rows rows) { sticky = text "web" ∷ []; anchor = some 1; cursor = 1 }

-- Forty lines, scrolled up by three.
abbrev reading : List Action
reading = update 40 ∷ up 3 10 ∷ []

shown : visible_range (reached reading) 10 ≡ (27, 37)
unfolding perform_all perform update_content scroll_up visible_range
shown = refl

visible_range-IsWithin_example :
    ((visible_range (reached reading) 10).1 ≤ (reached reading).content_len)
    × ((visible_range (reached reading) 10).1 ≤ (visible_range (reached reading) 10).0 + 10)
    × ((visible_range (reached reading) 10).0 + min 1 (reached reading).content_len
        ≤ (visible_range (reached reading) 10).1)
    × ((reached reading).follow ≡ false
        ⊎ (visible_range (reached reading) 10).1 ≡ (reached reading).content_len)
visible_range-IsWithin_example = visible_range-IsWithin reading 10 (omega arith)
