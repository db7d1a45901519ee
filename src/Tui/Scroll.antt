-- ===== src/Tui/Scroll.antt =====
-- crates/mandala-tui/src/scroll.rs: the position of a viewport, as its distance from the tail of
-- the content. What draws it is not modelled.
use mandala.Base.{ℕ, ◌+◌, ◌-◌, Bool, true, if◌then◌else◌, ltb, leb, ◌==◌, min, max}
use mandala.Base.Int.{u64_max}

pub record ScrollState : Type 0 where
  pub offset_from_tail : ℕ
  pub follow : Bool
  pub content_len : ℕ

-- `ScrollState::default()`.
abbrev pub new_scroll : ScrollState
new_scroll = record { offset_from_tail = 0; follow = true; content_len = 0 }

abbrev pub to_bottom : ScrollState → ScrollState
to_bottom s = record s { offset_from_tail = 0; follow = true }

-- The offset after the branches on `follow` and on a longer content.
abbrev pub shifted_offset : (new_len : ℕ) → ScrollState → ℕ
shifted_offset new_len s =
    if s.follow
    then 0
    else if ltb s.content_len new_len
    then min (s.offset_from_tail + (new_len - s.content_len)) u64_max
    else s.offset_from_tail

unfoldable pub update_content : (new_len : ℕ) → ScrollState → ScrollState
update_content new_len s =
    let moved : ScrollState = record s {
      offset_from_tail = min (shifted_offset new_len s) (new_len - 1);
      content_len = new_len;
    } in
    if new_len == 0 then to_bottom moved else moved

-- Each scroll follows the tail again exactly if it ends there.
abbrev pub at_offset : ScrollState → ℕ → ScrollState
at_offset s offset = record s { offset_from_tail = offset; follow = offset == 0 }

unfoldable pub scroll_up : (lines viewport : ℕ) → ScrollState → ScrollState
scroll_up lines viewport s =
    at_offset s (min (min (s.offset_from_tail + lines) u64_max) (s.content_len - max viewport 1))

unfoldable pub scroll_down : (lines : ℕ) → ScrollState → ScrollState
scroll_down lines s = at_offset s (s.offset_from_tail - lines)

unfoldable pub to_top : (viewport : ℕ) → ScrollState → ScrollState
to_top viewport s = at_offset s (s.content_len - max viewport 1)

-- The start and the end of the range.
unfoldable pub visible_range : ScrollState → (viewport : ℕ) → ℕ × ℕ
visible_range s viewport = let end = s.content_len - s.offset_from_tail in (end - viewport, end)

-- The conversion to a `u16`, which is replaced by its greatest value if it fails.
unfoldable pub top_offset : ScrollState → (viewport : ℕ) → ℕ
top_offset s viewport =
    let start = (visible_range s viewport).0 in if leb start 65535 then start else 65535
