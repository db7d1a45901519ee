-- ===== src/Drift/Listed.antt =====
-- crates/mandala-core/src/drift.rs: the hosts of the table that `compare` yields.
use mandala.Base.{
  ◌≡◌, refl, ap, ◌∙◌, Bool, true, false, Option, none, some, List, [], ◌∷◌, unwrap_or, map, gt,
  arith,
}
use mandala.Base.Order.{list_ord}
use mandala.Base.Map.{Map, get}
use mandala.Base.Set.{count}
use mandala.Base.Int.{ℤ}
use mandala.Base.Text.{Text}
use mandala.Drift.Compare.{
  DriftEntry, Snapshot, Toplevels, no_toplevels, insert_text, sort, entry, compare,
}

abbrev after : Text → Text → Bool
after a b = elim (list_ord.cmp a b) [ gt ↦ true | _ ↦ false ]

-- No text comes behind the one that follows it.
abbrev pub IsAscending : List Text → Type 0
IsAscending [] = Unit
IsAscending (a ∷ []) = Unit
IsAscending (a ∷ b ∷ bs) = (after a b ≡ false) × IsAscending (b ∷ bs)

insert_text-IsAscending :
    (a : Text) (bs : List Text) → IsAscending bs → IsAscending (insert_text a bs)
insert_text-IsAscending a [] h = tt
insert_text-IsAscending a (b ∷ []) h = ground (arith, list_ord.lt_of_gt a b)
insert_text-IsAscending a (b ∷ c ∷ cs) h =
    ground (arith, insert_text-IsAscending a (c ∷ cs) h.1, list_ord.lt_of_gt a b)

sort-IsAscending : (xs : List Text) → IsAscending (sort xs)
unfolding sort
sort-IsAscending [] = tt
sort-IsAscending (a ∷ rest) = insert_text-IsAscending a (sort rest) (sort-IsAscending rest)

count-insert_text : (q a : Text) (bs : List Text) → count q (insert_text a bs) ≡ count q (a ∷ bs)
count-insert_text q a [] = refl
count-insert_text q a (b ∷ bs) = ground (arith, count-insert_text q a bs)

count-sort : (q : Text) (xs : List Text) → count q (sort xs) ≡ count q xs
unfolding sort
count-sort q [] = refl
count-sort q (a ∷ rest) = count-insert_text q a (sort rest) ∙ ground (arith, count-sort q rest)

cons_cong : (a b : Text) (xs ys : List Text) → a ≡ b → xs ≡ ys → a ∷ xs ≡ b ∷ ys
cons_cong a b xs ys e f = rw (e, f) refl

abbrev pub hosts : List DriftEntry → List Text
hosts = map (λ e. e.host)

module _ (age_of : Text → Option ℤ) where
  host-entry :
      (expected : Toplevels) (max_age : Option ℤ) (host : Text) (snap : Option Snapshot)
      → (entry age_of expected max_age host snap).host ≡ host
  host-entry expected max_age host none = refl
  host-entry expected max_age host (some snap) = refl

  hosts-entries :
      (snapshots : Map Text Snapshot) (expected : Toplevels) (max_age : Option ℤ)
      (names : List Text)
      → hosts (map (λ host. entry age_of expected max_age host (get snapshots host)) names) ≡ names
  hosts-entries snapshots expected max_age [] = refl
  hosts-entries snapshots expected max_age (name ∷ names) =
      cons_cong _ _ _ _ (host-entry expected max_age name (get snapshots name))
        (hosts-entries snapshots expected max_age names)

  -- The table has one entry for each node, in ascending order of the hosts, however the nodes are
  -- ordered and whatever was surveyed or evaluated.
  compare-hosts :
      (nodes : List Text) (snapshots : Map Text Snapshot) (expected : Option Toplevels)
      (max_age : Option ℤ)
      → IsAscending (hosts (compare age_of nodes snapshots expected max_age))
        × ((q : Text)
            → count q (hosts (compare age_of nodes snapshots expected max_age)) ≡ count q nodes)
  unfolding compare
  compare-hosts nodes snapshots expected max_age =
      let e = hosts-entries snapshots (unwrap_or expected no_toplevels) max_age (sort nodes) in
      (rw e (sort-IsAscending nodes), λ q. ap (count q) e ∙ count-sort q nodes)
