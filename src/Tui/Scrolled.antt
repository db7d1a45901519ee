-- ===== src/Tui/Scrolled.antt =====
-- crates/mandala-tui/src/scroll.rs: what a viewport shows while its content changes and it is scrolled.
use mandala.Base.{
  ℕ, ◌+◌, ◌-◌, ◌≤◌, ◌≡◌, refl, ap, true, false, List, [], ◌∷◌, ltb, ◌==◌, min, arith, Bool-cases,
  inl, inr, ◌⊎◌,
}
use mandala.Base.Int.{u64_max}
use mandala.Tui.Scroll.{
  ScrollState, new_scroll, to_bottom, update_content, scroll_up, scroll_down, to_top, visible_range,
  at_offset, shifted_offset,
}

-- The calls that change a viewport.
pub data Action : Type 0 where
  update : ℕ → Action
  up : (lines viewport : ℕ) → Action
  down : ℕ → Action
  top : ℕ → Action
  bottom : Action

unfoldable pub perform : Action → ScrollState → ScrollState
perform (update n) s = update_content n s
perform (up lines viewport) s = scroll_up lines viewport s
perform (down lines) s = scroll_down lines s
perform (top viewport) s = to_top viewport s
perform bottom s = to_bottom s

unfoldable pub perform_all : List Action → ScrollState → ScrollState
perform_all [] s = s
perform_all (a ∷ rest) s = perform_all rest (perform a s)

-- The last line that is shown is a line of the content, and a viewport that follows the content is
-- at its tail.
pub record IsPlaced (s : ScrollState) : Type 0 where
  pub in_content : s.offset_from_tail ≤ s.content_len - 1
  pub follows_tail : s.follow ≡ true → s.offset_from_tail ≡ 0

at_offset-IsPlaced :
    (s : ScrollState) (offset : ℕ) → offset ≤ s.content_len - 1 → IsPlaced (at_offset s offset)
at_offset-IsPlaced s offset h = record { in_content = h; follows_tail = λ e. ground arith }

update_content-IsPlaced : (n : ℕ) (s : ScrollState) → IsPlaced s → IsPlaced (update_content n s)
unfolding update_content
update_content-IsPlaced n s p = elim (Bool-cases (n == 0)) [
  | inl e ↦ rw (e, update_content) (record { in_content = ground arith; follows_tail = λ h. refl })
  | inr e ↦
      rw (e, update_content)
        (record { in_content = ground arith; follows_tail = λ h. ground arith })
]

perform-IsPlaced : (a : Action) (s : ScrollState) → IsPlaced s → IsPlaced (perform a s)
unfolding perform scroll_up scroll_down to_top
perform-IsPlaced (update n) s p = update_content-IsPlaced n s p
perform-IsPlaced (up lines viewport) s p = at_offset-IsPlaced s _ (ground arith)
perform-IsPlaced (down lines) s p = at_offset-IsPlaced s _ (ground (arith, p.in_content))
perform-IsPlaced (top viewport) s p = at_offset-IsPlaced s _ (ground arith)
perform-IsPlaced bottom s p = record { in_content = ground arith; follows_tail = λ h. refl }

perform_all-IsPlaced :
    (actions : List Action) (s : ScrollState) → IsPlaced s → IsPlaced (perform_all actions s)
unfolding perform_all
perform_all-IsPlaced [] s p = p
perform_all-IsPlaced (a ∷ rest) s p =
    perform_all-IsPlaced rest (perform a s) (perform-IsPlaced a s p)

abbrev pub reached : List Action → ScrollState
reached actions = perform_all actions new_scroll

reached-IsPlaced : (actions : List Action) → IsPlaced (reached actions)
reached-IsPlaced actions =
    perform_all-IsPlaced actions new_scroll
      (record { in_content = ground arith; follows_tail = λ h. refl })

follow-end :
    (s : ScrollState)
    → IsPlaced s
    → s.follow ≡ false ⊎ s.content_len - s.offset_from_tail ≡ s.content_len
follow-end s p = elim (Bool-cases s.follow) [
  | inl f ↦ inr (ground (arith, p.follows_tail f))
  | inr f ↦ inl f
]

-- What a viewport of at least one row shows of the content, whatever was done to it: at most as
-- many lines as it has rows, all of them lines of the content, one at least if the content has
-- one, and the last line of the content if it follows.
pub visible_range-IsWithin :
    (actions : List Action) (viewport : ℕ)
    → 1 ≤ viewport
    → ((visible_range (reached actions) viewport).1 ≤ (reached actions).content_len)
      × ((visible_range (reached actions) viewport).1
          ≤ (visible_range (reached actions) viewport).0 + viewport)
      × ((visible_range (reached actions) viewport).0 + min 1 (reached actions).content_len
          ≤ (visible_range (reached actions) viewport).1)
      × ((reached actions).follow ≡ false
          ⊎ (visible_range (reached actions) viewport).1 ≡ (reached actions).content_len)
unfolding visible_range
visible_range-IsWithin actions viewport h =
    let p = reached-IsPlaced actions in
    let placed = p.in_content in
    (omega arith, omega arith, omega arith, follow-end (reached actions) p)

abbrev range_from : ℕ → ℕ → ℕ × ℕ
range_from start end = (start, end)

pair_cong : (a b c d : ℕ) → a ≡ b → c ≡ d → range_from a c ≡ range_from b d
pair_cong a b c d e f = rw (e, f) refl

shifted_offset_lem :
    (n : ℕ) (s : ScrollState)
    → s.follow ≡ false
    → s.content_len ≤ n
    → shifted_offset n s ≡ min (s.offset_from_tail + (n - s.content_len)) u64_max
      ⊎ (shifted_offset n s ≡ s.offset_from_tail) × (n ≡ s.content_len)
shifted_offset_lem n s e grows = elim (Bool-cases (ltb s.content_len n)) [
  | inl l ↦ inl (rw (e, l) refl)
  | inr l ↦ inr (rw (e, l) refl, ground arith)
]

update_content-end :
    (n : ℕ) (s : ScrollState)
    → IsPlaced s
    → s.follow ≡ false
    → 1 ≤ s.content_len
    → s.content_len ≤ n
    → n ≤ u64_max
    → (update_content n s).content_len - (update_content n s).offset_from_tail
      ≡ s.content_len - s.offset_from_tail
unfolding update_content
update_content-end n s p e one grows fits =
    let placed = p.in_content in
    elim (Bool-cases (n == 0)) [
      | inl z ↦ ground arith
      | inr z ↦
          rw (z, update_content)
            (elim (shifted_offset_lem n s e grows) [
              | inl l ↦ rw (l) (omega arith)
              | inr (l, k) ↦ rw (l) (omega arith)
            ])
    ]

-- A viewport that does not follow its content shows the same lines when the content, which was not
-- empty, grows to any length of a machine word.
update_content-keeps :
    (actions : List Action) (n viewport : ℕ)
    → (reached actions).follow ≡ false
    → 1 ≤ (reached actions).content_len
    → (reached actions).content_len ≤ n
    → n ≤ u64_max
    → visible_range (update_content n (reached actions)) viewport
      ≡ visible_range (reached actions) viewport
unfolding visible_range update_content
update_content-keeps actions n viewport e one grows fits =
    let s = reached actions in
    let p = reached-IsPlaced actions in
    ap (λ end. (end - viewport, end)) (update_content-end n s p e one grows fits)

-- Scrolling up, by however many lines and to the top, leaves a viewport filled that is no longer
-- than the content; at the top it starts with the first line.
scroll_up-fills :
    (actions : List Action) (lines viewport : ℕ)
    → 1 ≤ viewport
    → viewport ≤ (reached actions).content_len
    → ((visible_range (scroll_up lines viewport (reached actions)) viewport).1
        ≡ (visible_range (scroll_up lines viewport (reached actions)) viewport).0 + viewport)
      × (visible_range (to_top viewport (reached actions)) viewport ≡ (0, viewport))
unfolding visible_range scroll_up to_top
scroll_up-fills actions lines viewport one fits =
    let s = reached actions in (omega arith, pair_cong _ _ _ _ (omega arith) (omega arith))
