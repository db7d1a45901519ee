-- ===== src/Inventory/Plain.antt =====
-- Names that stand for themselves in a selector.
use mandala.Base.{
  ℕ, ◌≡◌, refl, ◌∙◌, true, false, not, ◌||◌, List, [], ◌∷◌, arith, All, All-imp, ◌==◌,
}
use mandala.Base.Order.{list_ord, beq}
use mandala.Base.Map.{contains_key}
use mandala.Base.Set.{
  contains, extend, difference, IsSorted, IsSorted-ext, keep-IsSorted, extend-IsSorted,
  contains-extend, contains-difference,
}
use mandala.Base.Text.{
  Text, text, is_empty, strip_char, split, join, split-join, trim-NoSpace, Free-imp, is_whitespace,
}
use mandala.Base.Result.{ok}
use mandala.Inventory.Name.{
  is_valid_member_name, is_selector_syntax, valid_name-Free, valid_name-ne-all,
}
use mandala.Inventory.Validate.{Inventory}
use mandala.Inventory.Select.{
  is_separator, is_all, resolve_part, Selection, nothing_selected, select_part, select_trimmed,
  select_loop, settle, resolve,
}

separator_plain : (c : ℕ) → is_selector_syntax c ≡ false → is_separator c ≡ false
separator_plain c h = ground arith

comma_plain : (c : ℕ) → is_selector_syntax c ≡ false → (c == b',') ≡ false
comma_plain c h = ground arith

space_plain : (c : ℕ) → is_selector_syntax c ≡ false → is_whitespace c ≡ false
space_plain c h = ground arith

not_at : (c : ℕ) → is_selector_syntax c ≡ false → (c == b'@') ≡ false
not_at c h = ground arith

not_bang : (c : ℕ) → is_selector_syntax c ≡ false → (c == b'!') ≡ false
not_bang c h = ground arith

not_all :
    (c : ℕ) (s : Text)
    → beq (c ∷ s) (text "all") ≡ false
    → is_selector_syntax c ≡ false
    → is_all (c ∷ s) ≡ false
not_all c s h plain = rw h (ground (arith, not_at c plain))

module _ (inv : Inventory) where
  -- A name that stands for itself in a selector.
  abbrev pub IsPlain : Text → Type 0
  IsPlain m = (is_valid_member_name m ≡ true) × (contains_key inv.aggregate.members m ≡ true)

  resolve_part_plain : (m : Text) → IsPlain m → resolve_part inv m ≡ ok (m ∷ [])
  unfolding resolve_part
  resolve_part_plain [] p = absurd (unfold is_valid_member_name in ground (arith, p.0))
  resolve_part_plain (c ∷ s) p =
      let plain = (valid_name-Free (c ∷ s) p.0).0 in
      rw (not_all c s (valid_name-ne-all (c ∷ s) p.0) plain, resolve_part)
        (rw (not_at c plain, strip_char) (rw p.1))

  select_plain :
      (m : Text) (sel : Selection)
      → IsPlain m
      → select_trimmed inv m sel
        ≡ ok (record sel { include = extend sel.include (m ∷ []); saw_include = true })
  unfolding select_trimmed select_part
  select_plain [] sel p = absurd (unfold is_valid_member_name in ground (arith, p.0))
  select_plain (c ∷ s) sel p =
      let plain = (valid_name-Free (c ∷ s) p.0).0 in
      rw (not_bang c plain, select_part) (rw (resolve_part_plain (c ∷ s) p))

  loop_plain :
      (ms : List Text) (sel : Selection)
      → All IsPlain ms
      → select_loop inv ms sel
        ≡ ok (record sel {
          include = extend sel.include ms;
          saw_include = sel.saw_include || not (is_empty ms);
        })
  unfolding select_loop extend
  loop_plain [] sel p = ground arith
  loop_plain (m ∷ ms) sel p =
      let unspaced =
        Free-imp is_selector_syntax is_whitespace space_plain m (valid_name-Free m p.0.0) in
      rw (trim-NoSpace m unspaced)
        (rw (select_plain m sel p.0) (rw (loop_plain ms _ p.1) (ground arith)))

  same_set : (ms : List Text) → IsSorted ms → difference (extend [] ms) [] ≡ ms
  unfolding contains
  same_set ms t =
      IsSorted-ext (difference (extend [] ms) []) ms
        (keep-IsSorted (λ x. not (contains {K = Text} [] x)) (extend [] ms)
          (extend-IsSorted ms [] tt))
        t (λ p. contains-difference (extend [] ms) [] p ∙ ground (arith, contains-extend ms [] p))

  resolve_plain :
      (m : Text) (ms : List Text)
      → All IsPlain (m ∷ ms)
      → IsSorted (m ∷ ms)
      → resolve inv (join (b',' ∷ []) (m ∷ ms)) ≡ ok (m ∷ ms)
  unfolding resolve settle
  resolve_plain m ms p t =
      let frees =
        All-imp
          (λ w q.
            Free-imp is_selector_syntax is_separator separator_plain w (valid_name-Free w q.0))
          (m ∷ ms) p in
      rw (split-join is_separator b',' m ms refl frees)
        (rw (loop_plain (m ∷ ms) nothing_selected p) (rw (same_set (m ∷ ms) t)))

  pub canonical :
      (ms : List Text)
      → is_empty ms ≡ false
      → All IsPlain ms
      → IsSorted ms
      → (split (λ c. c == b',') (join (b',' ∷ []) ms) ≡ ms)
        × (resolve inv (join (b',' ∷ []) ms) ≡ ok ms)
  canonical [] full p t = absurd (ground arith)
  canonical (m ∷ ms) full p t = (
    split-join (λ c. c == b',') b',' m ms refl
        (All-imp (λ w q. Free-imp is_selector_syntax _ comma_plain w (valid_name-Free w q.0))
          (m ∷ ms) p),
    resolve_plain m ms p t,
  )
