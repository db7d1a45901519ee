-- ===== src/Inventory/Canonical.antt =====
-- The limit that a selector resolves to is a canonical selector.
use mandala.Base.{
  ◌≡◌, sym, ◌⊎◌, if◌then◌else◌, ◌∙◌, Bool, true, not, ◌&&◌, ◌||◌, List, [], ◌∷◌, arith, Bool-cases,
  Option-cases, inl, inr, any, All, ◌==◌,
}
use mandala.Base.Order.{list_ord, beq_iff}
use mandala.Base.Map.{get, keys, contains_key}
use mandala.Base.Set.{IsSorted, All-contains}
use mandala.Base.Text.{Text, trim, strip_char, split, join}
use mandala.Base.Result.{ok}
use mandala.Inventory.Validate.{Inventory}
use mandala.Inventory.Valid.{IsValid}
use mandala.Inventory.Meaning.{covers, included_by, is_include, selects}
use mandala.Inventory.Select.{is_separator, is_all, resolve}
use mandala.Inventory.Resolve.{resolve-selects}
use mandala.Inventory.Plain.{IsPlain, canonical}

or_cases : (a b : Bool) → (a || b) ≡ true → (a ≡ true) ⊎ (b ≡ true)
or_cases a b h = ground arith

chosen_cases :
    (some_include a b x : Bool)
    → ((if some_include then a else b) && not x) ≡ true
    → (a ≡ true) ⊎ (b ≡ true)
chosen_cases some_include a b x h = ground arith

module _ (inv : Inventory) where
  covers-member :
      (atom m : Text)
      → IsValid inv.aggregate
      → covers inv atom m ≡ true
      → contains_key inv.aggregate.members m ≡ true
  unfolding covers
  covers-member atom m v h = elim (Bool-cases (is_all atom)) [
    | inl e ↦ rw (e, covers) at h
    | inr e ↦
        let h1 = rw (e, covers) at h in
        elim (Option-cases (strip_char b'@' atom)) [
          | inl n ↦ let h2 = rw n at h1 in ground (arith, beq_iff m atom)
          | inr (g, n) ↦
              let h2 = rw n at h1 in
              elim (Option-cases (get inv.aggregate.groups g)) [
                | inl q ↦ absurd (ground (arith, q))
                | inr (ms, q) ↦ v.known g ms m q (rw q at h2)
              ]
        ]
  ]

  member-IsPlain :
      (m : Text)
      → IsValid inv.aggregate
      → contains_key inv.aggregate.members m ≡ true
      → IsPlain inv m
  member-IsPlain m v h = elim (Option-cases (get inv.aggregate.members m)) [
    | inl e ↦ absurd (ground (arith, e))
    | inr (member, e) ↦ ((v.named m member e).label, h)
  ]

  included-member :
      (part m : Text)
      → IsValid inv.aggregate
      → included_by inv part m ≡ true
      → contains_key inv.aggregate.members m ≡ true
  included-member part m v h = elim (Option-cases (strip_char b'!' part)) [
    | inl e ↦ let h1 = rw e at h in covers-member part m v (ground arith)
    | inr (atom, e) ↦ let h1 = rw e at h in absurd (ground arith)
  ]

  any_included-member :
      (raws : List Text) (m : Text)
      → IsValid inv.aggregate
      → any (λ raw. included_by inv (trim raw) m) raws ≡ true
      → contains_key inv.aggregate.members m ≡ true
  any_included-member [] m v h = absurd (ground arith)
  any_included-member (raw ∷ raws) m v h = elim (or_cases (included_by inv (trim raw) m) _ h) [
    | inl e ↦ included-member (trim raw) m v e
    | inr e ↦ any_included-member raws m v e
  ]

  selects-member :
      (raws : List Text) (m : Text)
      → IsValid inv.aggregate
      → selects inv raws m ≡ true
      → contains_key inv.aggregate.members m ≡ true
  selects-member raws m v h =
      elim (chosen_cases (any (λ raw. is_include (trim raw)) raws) _ _ _ h) [
        | inl e ↦ any_included-member raws m v e
        | inr e ↦ e
      ]

  resolved-IsPlain :
      (selector : Text) (ms : List Text)
      → IsValid inv.aggregate
      → IsSorted (keys inv.aggregate.members)
      → resolve inv selector ≡ ok ms
      → All (IsPlain inv) ms
  resolved-IsPlain selector ms v t h =
      let (_, _, means) = resolve-selects inv selector ms t h in
      All-contains (IsPlain inv) ms λ m c.
        member-IsPlain m v (selects-member (split is_separator selector) m v (sym (means m) ∙ c))

  -- The names that a selector resolves to, joined by commas, split into those names again, and
  -- are a selector that resolves to them: the limit is canonical.
  pub resolve_canonical :
      (selector : Text) (ms : List Text)
      → IsValid inv.aggregate
      → IsSorted (keys inv.aggregate.members)
      → resolve inv selector ≡ ok ms
      → (split (λ c. c == b',') (join (b',' ∷ []) ms) ≡ ms)
        × (resolve inv (join (b',' ∷ []) ms) ≡ ok ms)
  resolve_canonical selector ms v t h =
      let (sorted, full, _) = resolve-selects inv selector ms t h in
      canonical inv ms full (resolved-IsPlain selector ms v t h) sorted
