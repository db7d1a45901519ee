-- ===== src/Rows/Accounted.antt =====
-- crates/nix-build-forest/src/sort.rs: what `activity_projection` shows and what it elides.
use mandala.Base.{
  ℕ, ◌+◌, ◌≤◌, ◌≡◌, refl, sym, ◌∙◌, Bool, true, not, some, List, [], ◌∷◌, length, keep,
  if◌then◌else◌, arith, Bool-cases, inl, inr, All,
}
use mandala.Base.Order.{list_ord, beq, beq_iff, beq_refl}
use mandala.Base.Set.{Set, contains, count, IsSorted, count-IsSorted}
use mandala.Base.Text.{Text}
use mandala.Forest.State.{
  DerivationStatus, unknown, planned, building, downloading, substituting, built, failed,
}
use mandala.Forest.Snapshot.{DerivationNode}
use mandala.Rows.Display.{DisplayRow, paths_of}
use mandala.Rows.Visited.{row_paths, one}
use mandala.Rows.Shown.{IsRequired, active, is_active, projected, count-select, required-in}
use mandala.Rows.Project.{
  ActivityProjection, ElidedCounts, no_elided, total_elided, elide, count_elided, is_mandatory,
  select, activity_projection,
}

-- A node that is active or has failed, and each node that consumes it over any number of steps, has
-- a row in the projection, and one only, however small the budget is; and the projection is found.
pub activity_projection-shows :
    (nodes : List DerivationNode) (roots : List Text) (row_budget : ℕ) (q : Text)
    → IsRequired nodes q
    → (p : ActivityProjection) × (activity_projection nodes roots row_budget ≡ some p)
      × (count q (row_paths p.rows) ≡ 1)
activity_projection-shows nodes roots row_budget q r =
    let (full, kept, e, counts, shown) = projected nodes roots row_budget in
    (
      select kept nodes full,
      e,
      ground (arith, count-select kept full q, counts q, shown q r, required-in nodes q r),
    )

-- The list without the first occurrence of a text.
remove_first : Text → List Text → List Text
remove_first x [] = []
remove_first x (y ∷ ys) = if beq x y then ys else y ∷ remove_first x ys

count-remove_first :
    (x q : Text) (ys : List Text)
    → contains ys x ≡ true
    → count q (remove_first x ys) + one (beq q x) ≡ count q ys
unfolding remove_first contains
count-remove_first x q [] h = absurd (cc h)
count-remove_first x q (y ∷ ys) h = elim (Bool-cases (beq x y)) [
  | inl e ↦ rw (e, (beq_iff x y).0 e) (ground arith)
  | inr e ↦ rw e (ground (arith, count-remove_first x q ys))
]

keep-remove_first :
    (g : Text → Bool) (x : Text) (ys : List Text)
    → contains ys x ≡ true
    → length (keep g (remove_first x ys)) + one (g x) ≡ length (keep g ys)
unfolding remove_first contains
keep-remove_first g x [] h = absurd (cc h)
keep-remove_first g x (y ∷ ys) h = elim (Bool-cases (beq x y)) [
  | inl e ↦ rw (e, (beq_iff x y).0 e) (ground arith)
  | inr e ↦ rw e (ground (arith, keep-remove_first g x ys))
]

contains_of_count : (q : Text) (ys : List Text) → 1 ≤ count q ys → contains ys q ≡ true
unfolding contains
contains_of_count q [] h = absurd (omega arith)
contains_of_count q (y ∷ ys) h = ground (arith, contains_of_count q ys)

empty_of_count : (ys : List Text) → ((q : Text) → count q ys ≡ 0) → ys ≡ []
empty_of_count [] h = refl
empty_of_count (y ∷ ys) h = absurd (ground (arith, h y, beq_refl y))

-- Lists that hold the same texts as often keep as many by any test.
length-keep_same :
    (g : Text → Bool) (xs ys : List Text)
    → ((q : Text) → count q xs ≡ count q ys)
    → length (keep g xs) ≡ length (keep g ys)
length-keep_same g [] ys h = rw (empty_of_count ys (λ q. sym (h q))) refl
length-keep_same g (x ∷ xs) ys h =
    let there = contains_of_count x ys (ground (arith, h x, beq_refl x)) in
    let rest =
      length-keep_same g xs (remove_first x ys)
        (λ q. ground (arith, h q, count-remove_first x q ys there)) in
    ground (arith, rest, keep-remove_first g x ys there)

length-keep-rows :
    (g : Text → Bool) (rows : List DisplayRow)
    → length (keep (λ row. g row.node.path) rows) ≡ length (keep g (row_paths rows))
length-keep-rows g [] = refl
length-keep-rows g (r ∷ rows) = ground (arith, length-keep-rows g rows)

total-elide :
    (s : DerivationStatus) (c : ElidedCounts)
    → total_elided (elide s c) ≡ total_elided c + one (not (is_mandatory s))
unfolding elide
total-elide unknown c = omega arith
total-elide planned c = omega arith
total-elide built c = omega arith
total-elide building c = omega arith
total-elide downloading c = omega arith
total-elide substituting c = omega arith
total-elide failed c = omega arith

-- The mandatory nodes of a list are kept.
abbrev Keeps : Set Text → DerivationNode → Type 0
Keeps kept n = is_mandatory n.state.status ≡ true → contains kept n.path ≡ true

total-count_elided :
    (kept : Set Text) (ns : List DerivationNode) (c : ElidedCounts)
    → All (Keeps kept) ns
    → total_elided (count_elided kept ns c) + length (keep (contains kept) (paths_of ns))
      ≡ total_elided c + length ns
unfolding count_elided
total-count_elided kept [] c h = omega arith
total-count_elided kept (n ∷ ns) c h = elim (Bool-cases (contains kept n.path)) [
  | inl e ↦ rw (e, count_elided) (ground (arith, total-count_elided kept ns c h.1))
  | inr e ↦
      rw (e, count_elided)
        (ground (
          arith,
          total-count_elided kept ns (elide n.state.status c) h.1,
          total-elide n.state.status c,
          h.0,
          e,
        ))
]

All-Keeps :
    (all : List DerivationNode) (kept : Set Text)
    → ((q : Text) → IsRequired all q → contains kept q ≡ true)
    → (ns : List DerivationNode) → ((q : Text) → is_active ns q ≡ true → is_active all q ≡ true)
    → All (Keeps kept) ns
All-Keeps all kept shown [] within = tt
All-Keeps all kept shown (n ∷ ns) within = (
  λ m. shown n.path (active n.path (within n.path (ground (arith, beq_refl n.path, m)))),
  All-Keeps all kept shown ns (λ q h. within q (ground (arith, h))),
)

one_of_count : (ns : List Text) (q : Text) → count q ns ≤ 1 → one (contains ns q) ≡ count q ns
unfolding contains
one_of_count [] q h = refl
one_of_count (n ∷ ns) q h = ground (arith, one_of_count ns q, contains_of_count q ns)

-- Where the nodes are in the order of their paths, as in a snapshot, each node is either shown in one row or counted as elided:
-- the rows and the three counts add up to the nodes, whatever the budget and the roots.
pub activity_projection-accounts :
    (nodes : List DerivationNode) (roots : List Text) (row_budget : ℕ)
    → IsSorted (paths_of nodes)
    → (p : ActivityProjection) × (activity_projection nodes roots row_budget ≡ some p)
      × (length p.rows + total_elided p.elided ≡ length nodes)
activity_projection-accounts nodes roots row_budget sorted =
    let (full, kept, e, counts, shown) = projected nodes roots row_budget in
    let same = length-keep_same (contains kept) (row_paths full) (paths_of nodes) (λ q.
      counts q ∙ one_of_count (paths_of nodes) q (count-IsSorted q (paths_of nodes) sorted)) in
    let elided =
      total-count_elided kept nodes no_elided (All-Keeps nodes kept shown nodes (λ q h. h)) in
    (select kept nodes full, e, omega (arith, same, elided, length-keep-rows (contains kept) full))
