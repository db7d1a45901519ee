-- ===== src/Inventory/Resolve.antt =====
-- The loop of `Inventory::resolve` computes what the selector means.
use mandala.Base.{
  ℕ, ◌≡◌, sym, ◌∙◌, ◌⊎◌, Bool, true, false, not, ◌&&◌, ◌||◌, List, [], ◌∷◌, arith, Bool-cases, inl,
  inr, if◌then◌else◌, any, ◌==◌,
}
use mandala.Base.Order.{list_ord}
use mandala.Base.Map.{keys, contains-keys}
use mandala.Base.Set.{
  Set, contains, extend, difference, IsSorted, extend-IsSorted, keep-IsSorted, contains-extend,
  contains-difference,
}
use mandala.Base.Text.{Text, is_empty, trim, split}
use mandala.Base.Result.{Result, ok, err, >>=-eq-ok, ok-injective}
use mandala.Inventory.Validate.{Inventory}
use mandala.Inventory.Select.{
  is_separator, resolve_part, Selection, nothing_selected, select_part, select_trimmed, select_loop,
  settle, non_empty, resolve,
}
use mandala.Inventory.Meaning.{covers, included_by, excluded_by, is_include, selects}

or_step : (x p q : Bool) {y z : Bool} → y ≡ (x || p) → z ≡ (y || q) → z ≡ (x || (p || q))
or_step x p q a b = ground arith

exclusion_ok :
    {A E : Type 0} (b : Bool) (m : Result A E) (e : E) {a : A}
    → (if b then err e else m) ≡ ok a
    → m ≡ ok a
exclusion_ok b m e h = ground arith

module _ (inv : Inventory) where
  resolve_part-covers :
      (atom : Text) (ms : List Text) (m : Text)
      → resolve_part inv atom ≡ ok ms
      → contains ms m ≡ covers inv atom m
  unfolding resolve_part contains covers
  resolve_part-covers atom ms m h = ground (arith, contains-keys inv.aggregate.members m)

  -- What one part does to the variables of the loop.
  abbrev Effect : Text → Text → Selection → Selection → Type 0
  Effect part m sel sel' =
      (contains sel'.include m ≡ (contains sel.include m || included_by inv part m))
      × (contains sel'.exclude m ≡ (contains sel.exclude m || excluded_by inv part m))
      × (sel'.saw_include ≡ (sel.saw_include || is_include part))

  abbrev Excludes : Text → Selection → Selection → Type 0
  Excludes atom sel sel' =
      (ms : List Text) × (resolve_part inv atom ≡ ok ms)
      × (sel' ≡ record sel { exclude = extend sel.exclude ms })

  abbrev Includes : Text → Selection → Selection → Type 0
  Includes part sel sel' =
      (ms : List Text) × (resolve_part inv part ≡ ok ms)
      × (sel' ≡ record sel { include = extend sel.include ms; saw_include = true })

  select_trimmed_cases :
      (c : ℕ) (s : Text) (sel sel' : Selection)
      → select_trimmed inv (c ∷ s) sel ≡ ok sel'
      → ((c == b'!') ≡ true) × Excludes s sel sel'
        ⊎ ((c == b'!') ≡ false) × Includes (c ∷ s) sel sel'
  unfolding select_trimmed select_part
  select_trimmed_cases c s sel sel' h = elim (Bool-cases (c == b'!')) [
    | inl e ↦
        let run = rw (e, select_part) at h in
        let (ms, found, same) = >>=-eq-ok (resolve_part inv s) _ run in
        inl (e, (ms, found, sym (ok-injective same)))
    | inr e ↦
        let run = rw (e, select_part) at h in
        let (ms, found, same) = >>=-eq-ok (resolve_part inv (c ∷ s)) _ run in
        inr (e, (ms, found, sym (ok-injective same)))
  ]

  select_trimmed-Effect :
      (part : Text) (sel sel' : Selection) (m : Text)
      → select_trimmed inv part sel ≡ ok sel'
      → Effect part m sel sel'
  unfolding select_trimmed
  select_trimmed-Effect [] sel sel' m h = ground arith
  select_trimmed-Effect (c ∷ s) sel sel' m h = elim (select_trimmed_cases c s sel sel' h) [
    | inl (e, (ms, found, same)) ↦
        ground (arith, contains-extend ms sel.exclude m, resolve_part-covers s ms m found)
    | inr (e, (ms, found, same)) ↦
        ground (arith, contains-extend ms sel.include m, resolve_part-covers (c ∷ s) ms m found)
  ]

  select_loop-Effect :
      (raws : List Text) (sel sel' : Selection) (m : Text)
      → select_loop inv raws sel ≡ ok sel'
      → (contains sel'.include m
          ≡ (contains sel.include m || any (λ raw. included_by inv (trim raw) m) raws))
        × (contains sel'.exclude m
            ≡ (contains sel.exclude m || any (λ raw. excluded_by inv (trim raw) m) raws))
        × (sel'.saw_include ≡ (sel.saw_include || any (λ raw. is_include (trim raw)) raws))
  unfolding select_loop
  select_loop-Effect [] sel sel' m h = ground arith
  select_loop-Effect (raw ∷ raws) sel sel' m h =
      let (mid, first, rest) = >>=-eq-ok (select_trimmed inv (trim raw) sel) _ h in
      let a = select_trimmed-Effect (trim raw) sel mid m first in
      let b = select_loop-Effect raws mid sel' m rest in
      (or_step _ _ _ a.0 b.0, or_step _ _ _ a.1 b.1, or_step _ _ _ a.2 b.2)

  select_trimmed-IsSorted :
      (part : Text) (sel sel' : Selection)
      → select_trimmed inv part sel ≡ ok sel'
      → IsSorted sel.include
      → IsSorted sel'.include
  unfolding select_trimmed
  select_trimmed-IsSorted [] sel sel' h t = rw (← ok-injective h) t
  select_trimmed-IsSorted (c ∷ s) sel sel' h t = elim (select_trimmed_cases c s sel sel' h) [
    | inl (e, (ms, found, same)) ↦ rw same t
    | inr (e, (ms, found, same)) ↦ rw same (extend-IsSorted ms sel.include t)
  ]

  select_loop-IsSorted :
      (raws : List Text) (sel sel' : Selection)
      → select_loop inv raws sel ≡ ok sel'
      → IsSorted sel.include
      → IsSorted sel'.include
  unfolding select_loop
  select_loop-IsSorted [] sel sel' h t = rw (← ok-injective h) t
  select_loop-IsSorted (raw ∷ raws) sel sel' h t =
      let (mid, first, rest) = >>=-eq-ok (select_trimmed inv (trim raw) sel) _ h in
      select_loop-IsSorted raws mid sel' rest (select_trimmed-IsSorted (trim raw) sel mid first t)

  non_empty_ok :
      (selector : Text) (xs ms : List Text)
      → non_empty selector xs ≡ ok ms
      → (xs ≡ ms) × (is_empty ms ≡ false)
  non_empty_ok selector [] ms h = absurd (ground arith)
  non_empty_ok selector (x ∷ xs) ms h = ground (arith, ok-injective h)

  -- The set that the result is computed from.
  abbrev base : Selection → Set Text
  base sel = if sel.saw_include then sel.include else keys inv.aggregate.members

  settle_ok :
      (selector : Text) (sel : Selection) (ms : List Text)
      → settle inv selector sel ≡ ok ms
      → (difference (base sel) sel.exclude ≡ ms) × (is_empty ms ≡ false)
  unfolding settle
  settle_ok selector sel ms h = elim (Bool-cases sel.saw_include) [
    | inl e ↦
        let run = rw (e, settle) at h in
        rw e (non_empty_ok selector (difference sel.include sel.exclude) ms run)
    | inr e ↦
        let run = rw (e, settle) at h in
        rw e (
          non_empty_ok selector (difference (keys inv.aggregate.members) sel.exclude) ms
            (exclusion_ok (is_empty sel.exclude) _ _ run))
  ]

  base-IsSorted :
      (sel : Selection)
      → IsSorted sel.include
      → IsSorted (keys inv.aggregate.members)
      → IsSorted (base sel)
  base-IsSorted sel h k = elim (Bool-cases sel.saw_include) [ inl e ↦ rw e h | inr e ↦ rw e k ]

  selects_of_loop :
      (raws : List Text) (sel : Selection) (m : Text)
      → select_loop inv raws nothing_selected ≡ ok sel
      → (contains (base sel) m && not (contains sel.exclude m)) ≡ selects inv raws m
  selects_of_loop raws sel m h =
      let (a, b, c) = select_loop-Effect raws nothing_selected sel m h in
      let k = contains-keys inv.aggregate.members m in
      elim (Bool-cases sel.saw_include) [
        | inl e ↦ rw (e, ← c, e) (unfold contains in ground (arith, a, b))
        | inr e ↦ rw (e, ← c, e) (unfold contains in ground (arith, b, k))
      ]

  -- A resolved selector is the strictly ascending list of the members that it selects, and is
  -- not empty.
  pub resolve-selects :
      (selector : Text) (ms : List Text)
      → IsSorted (keys inv.aggregate.members)
      → resolve inv selector ≡ ok ms
      → IsSorted ms
        × (is_empty ms ≡ false)
        × ((m : Text) → contains ms m ≡ selects inv (split is_separator selector) m)
  unfolding resolve
  resolve-selects selector ms sorted h =
      let raws = split is_separator selector in
      let (sel, looped, settled) = >>=-eq-ok (select_loop inv raws nothing_selected) _ h in
      let (same, full) = settle_ok selector sel ms settled in
      (
        rw (← same) (
            keep-IsSorted (λ x. not (contains sel.exclude x)) (base sel)
              (base-IsSorted sel (select_loop-IsSorted raws nothing_selected sel looped tt)
                sorted)),
        full,
        λ m.
            rw (← same)
              (contains-difference (base sel) sel.exclude m ∙ selects_of_loop raws sel m looped),
      )
