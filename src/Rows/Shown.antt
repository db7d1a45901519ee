-- ===== src/Rows/Shown.antt =====
-- crates/nix-build-forest/src/sort.rs: the nodes that `activity_projection` shows.
use mathlib.Core.List.{reverse, reverse-cons}
use mandala.Base.{
  ℕ, suc, ◌+◌, ◌*◌, ◌≤◌, ◌≡◌, refl, ap, ◌∙◌, Bool, true, not, ◌&&◌, ◌||◌, some, List, [], ◌∷◌, ◌++◌,
  length, keep, any, if◌then◌else◌, arith, Bool-cases, inl, inr, leb, length-append, length-keep-le,
}
use mandala.Base.Order.{list_ord, beq, beq_iff}
use mandala.Base.Map.{Map, get, get-insert, upsert}
use mandala.Base.Set
use mandala.Base.Set.{Set, contains, contains-insert, contains-extend, length-extend, count, extend}
use mandala.Base.Text.{Text}
use mandala.Forest.Snapshot.{DerivationNode}
use mandala.Rows.Display.{DisplayRow, by_path, paths_of}
use mandala.Rows.Visited.{unseen, row_paths, one}
use mandala.Rows.Complete.{display_rows-shows}
use mandala.Rows.Closed.{IsClosedBut, close-IsClosed}
use mandala.Rows.Project.{
  is_mandatory, is_planned, add_parent, add_parents, parents_in, mandatory_paths, fill_planned,
  fill_empty, select, activity_projection,
}

contains-append :
    (xs ys : List Text) (q : Text) → contains (xs ++ ys) q ≡ (contains xs q || contains ys q)
unfolding contains
contains-append [] ys q = refl
contains-append (x ∷ xs) ys q = ground (arith, contains-append xs ys q)

contains-reverse : (xs : List Text) (q : Text) → contains (reverse xs) q ≡ contains xs q
unfolding contains
contains-reverse [] q = refl
contains-reverse (x ∷ xs) q =
    rw (reverse-cons x xs)
      (ground (arith, contains-append (reverse xs) (x ∷ []) q, contains-reverse xs q))

length-reverse : (xs : List Text) → length (reverse xs) ≡ length xs
length-reverse [] = refl
length-reverse (x ∷ xs) =
    rw (reverse-cons x xs) (omega (arith, length-append (reverse xs) (x ∷ []), length-reverse xs))

-- Some node has the path, and is active or has failed.
abbrev pub is_active : List DerivationNode → Text → Bool
is_active nodes q = any (λ n. beq q n.path && is_mandatory n.state.status) nodes

-- Some node has the path `q`, and `p` among its inputs.
abbrev pub consumes : List DerivationNode → (q p : Text) → Bool
consumes nodes q p = any (λ n. beq q n.path && contains n.state.inputs p) nodes

-- What is active or has failed, and what consumes that, and so on.
pub data IsRequired (nodes : List DerivationNode) : Text → Type 0 where
  active : (q : Text) → is_active nodes q ≡ true → IsRequired nodes q
  consumer : (q p : Text) → IsRequired nodes p → consumes nodes q p ≡ true → IsRequired nodes q

parents-add_parent :
    (path : Text) (inputs : List Text) (m : Map Text (List Text)) (p q : Text)
    → contains (parents_in (add_parent path inputs m) p) q
      ≡ (contains (parents_in m p) q || (beq q path && contains inputs p))
unfolding add_parent contains
parents-add_parent path [] m p q = ground arith
parents-add_parent path (input ∷ inputs) m p q =
    parents-add_parent path inputs (upsert m input [] (λ found. found ++ path ∷ [])) p q
    ∙ ground (
      arith,
      get-insert m input p (parents_in m input ++ path ∷ []),
      contains-append (parents_in m input) (path ∷ []) q,
      (beq_iff p input).0,
    )

parents-add_parents :
    (ns : List DerivationNode) (m : Map Text (List Text)) (p q : Text)
    → contains (parents_in (add_parents ns m) p) q
      ≡ (contains (parents_in m p) q || consumes ns q p)
unfolding add_parents
parents-add_parents [] m p q = ground arith
parents-add_parents (n ∷ ns) m p q =
    parents-add_parents ns (add_parent n.path n.state.inputs m) p q
    ∙ ground (arith, parents-add_parent n.path n.state.inputs m p q)

contains-mandatory :
    (ns : List DerivationNode) (q : Text)
    → contains (paths_of (keep (λ n. is_mandatory n.state.status) ns)) q ≡ is_active ns q
unfolding contains
contains-mandatory [] q = refl
contains-mandatory (n ∷ ns) q = ground (arith, contains-mandatory ns q)

contains-mandatory_paths :
    (ns : List DerivationNode) (q : Text) → contains (mandatory_paths ns) q ≡ is_active ns q
unfolding mandatory_paths contains
contains-mandatory_paths ns q =
    contains-extend (paths_of (keep (λ n. is_mandatory n.state.status) ns)) [] q
    ∙ contains-mandatory ns q

contains-active :
    (ns : List DerivationNode) (q : Text) → is_active ns q ≡ true → contains (paths_of ns) q ≡ true
unfolding contains
contains-active [] q h = absurd (cc h)
contains-active (n ∷ ns) q h = ground (arith, contains-active ns q)

contains-consumes :
    (ns : List DerivationNode) (q p : Text)
    → consumes ns q p ≡ true
    → contains (paths_of ns) q ≡ true
unfolding contains
contains-consumes [] q p h = absurd (cc h)
contains-consumes (n ∷ ns) q p h = ground (arith, contains-consumes ns q p)

pub required-in :
    (ns : List DerivationNode) (q : Text) → IsRequired ns q → contains (paths_of ns) q ≡ true
required-in ns q (active _ h) = contains-active ns q h
required-in ns q (consumer _ p r h) = contains-consumes ns q p h

fill_planned-grows :
    (b : ℕ) (rows : List DisplayRow) (kept : Set Text) (q : Text)
    → contains kept q ≡ true
    → contains (fill_planned b rows kept) q ≡ true
unfolding fill_planned
fill_planned-grows b [] kept q h = h
fill_planned-grows b (row ∷ rows) kept q h =
    let next = if is_planned row.node.state.status then Set.insert kept row.node.path else kept in
    let more =
      fill_planned-grows b rows next q (ground (arith, contains-insert kept row.node.path q)) in
    elim (Bool-cases (leb b (length kept))) [
      | inl e ↦ rw (e, fill_planned) h
      | inr e ↦ rw (e, fill_planned) more
    ]

fill_empty-grows :
    (m : Map Text DerivationNode) (b : ℕ) (roots : List Text) (kept : Set Text) (q : Text)
    → contains kept q ≡ true
    → contains (fill_empty m b roots kept) q ≡ true
unfolding contains
fill_empty-grows m b roots [] q h = absurd (cc h)
fill_empty-grows m b roots (k ∷ kept) q h = h

pub count-select :
    (kept : Set Text) (rows : List DisplayRow) (q : Text)
    → count q (row_paths (keep (λ row. contains kept row.node.path) rows))
      ≡ (if contains kept q then count q (row_paths rows) else 0)
count-select kept [] q = ground arith
count-select kept (r ∷ rows) q = ground (arith, count-select kept rows q, (beq_iff q r.node.path).0)

length-paths_of : (nodes : List DerivationNode) → length (paths_of nodes) ≡ length nodes
length-paths_of [] = refl
length-paths_of (n ∷ nodes) = ap suc (length-paths_of nodes)

enough :
    (nodes : List DerivationNode)
    → length (reverse (mandatory_paths nodes)) + unseen (paths_of nodes) (mandatory_paths nodes)
      ≤ 2 * length nodes
unfolding mandatory_paths
enough nodes =
    let some_nodes = keep (λ n. is_mandatory n.state.status) nodes in
    omega (
      arith,
      length-reverse (mandatory_paths nodes),
      length-extend (paths_of some_nodes) [],
      length-paths_of some_nodes,
      length-paths_of nodes,
      length-keep-le (λ n. is_mandatory n.state.status) nodes,
      length-keep-le (λ k. not (contains (mandatory_paths nodes) k)) (paths_of nodes),
    )

-- A set that holds the mandatory paths and is closed holds what is required.
in_closure :
    (nodes : List DerivationNode) (k : Set Text)
    → ((q : Text) → contains (mandatory_paths nodes) q ≡ true → contains k q ≡ true)
    → IsClosedBut (paths_of nodes) (add_parents nodes []) [] k
    → (q : Text) → IsRequired nodes q
    → contains k q ≡ true
unfolding get contains
in_closure nodes k grown closed q (active _ h) = grown q (contains-mandatory_paths nodes q ∙ h)
in_closure nodes k grown closed q (consumer _ p r h) =
    closed p q (in_closure nodes k grown closed p r) refl
      (ground (arith, parents-add_parents nodes [] p q))

-- The projection is found: it selects from the rows that `display_rows` comes to by a set of paths
-- that holds all that is required.
pub projected :
    (nodes : List DerivationNode) (roots : List Text) (row_budget : ℕ)
    → (full : List DisplayRow) × (kept : Set Text) × (activity_projection nodes roots row_budget
        ≡ some (select kept nodes full))
      × ((q : Text) → count q (row_paths full) ≡ one (contains (paths_of nodes) q))
      × ((q : Text) → IsRequired nodes q → contains kept q ≡ true)
unfolding activity_projection get contains
projected nodes roots row_budget =
    let (full, e, counts) = display_rows-shows nodes roots in
    let start = mandatory_paths nodes in
    let parents = add_parents nodes [] in
    let edges = parents-add_parents nodes [] in
    let (k, f, grown, closed) =
      close-IsClosed (paths_of nodes) parents
        (λ q parent h. contains-consumes nodes parent q (ground (arith, edges q parent)))
        (2 * length nodes) (reverse start) start (enough nodes)
        (λ q parent here gone edge. absurd (cc (here, gone, contains-reverse start q))) in
    let last = fill_empty (by_path nodes) row_budget roots (fill_planned row_budget full k) in
    (
      full,
      last,
      rw e (rw f refl),
      counts,
      λ q r.
          fill_empty-grows (by_path nodes) row_budget roots (fill_planned row_budget full k) q
            (fill_planned-grows row_budget full k q (in_closure nodes k grown closed q r)),
    )
