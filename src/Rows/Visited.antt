-- ===== src/Rows/Visited.antt =====
-- crates/nix-build-forest/src/sort.rs: what `visit` adds to a walk.
use mandala.Base.{
  ℕ, zero, suc, ◌+◌, ◌≤◌, ◌<◌, ◌≡◌, refl, ◌∙◌, Bool, true, false, not, ◌&&◌, Option, none, some,
  List, [], ◌∷◌, ◌++◌, map, length, keep, arith, Bool-cases, Option-cases, inl, inr,
}
use mandala.Base.Order.{list_ord, beq, beq_iff, beq_refl}
use mandala.Base.Map.{Map, get, keys, contains_key, contains-keys}
use mandala.Base.Set
use mandala.Base.Set.{Set, contains, contains-insert, count}
use mandala.Base.Text.{Text}
use mandala.Forest.Snapshot.{DerivationNode}
use mandala.Rows.Display.{DisplayRow, Walk, sort_paths, visit_all, push_row, enter, visit}

-- The keys that are not in a set.
abbrev pub unseen : List Text → Set Text → ℕ
unseen ks s = length (keep (λ k. not (contains s k)) ks)

unseen_mono :
    (ks : List Text) (s t : Set Text)
    → ((q : Text) → contains s q ≡ true → contains t q ≡ true)
    → unseen ks t ≤ unseen ks s
unseen_mono [] s t h = omega arith
unseen_mono (k ∷ ks) s t h = ground (arith, unseen_mono ks s t h, h k)

pub unseen-insert :
    (ks : List Text) (s : Set Text) (k : Text)
    → contains ks k ≡ true
    → contains s k ≡ false
    → unseen ks (Set.insert s k) < unseen ks s
unfolding contains
unseen-insert [] s k h f = absurd (cc h)
unseen-insert (j ∷ ks) s k h f = elim (Bool-cases (beq k j)) [
  | inl e ↦ ground (
    arith,
    contains-insert s k j,
    (beq_iff k j).0 e,
    beq_refl k,
    unseen_mono ks s (Set.insert s k) (λ q g. ground (arith, contains-insert s k q)),
  )
  | inr e ↦ ground (arith, contains-insert s k j, unseen-insert ks s k)
]

abbrev pub row_paths : List DisplayRow → List Text
row_paths rows = map (λ r. r.node.path) rows

abbrev pub one : Bool → ℕ
one true = 1
one false = 0

module _ (m : Map Text DerivationNode) where
  -- The second walk goes on from the first: it has rows for just the nodes that it has seen and the
  -- first has not, each once.
  pub record Advances (v w : Walk) : Type 0 where
    pub grows : (q : Text) → contains v.seen q ≡ true → contains w.seen q ≡ true
    pub balanced :
        (q : Text)
        → count q (row_paths w.rows) + one (contains v.seen q && contains_key m q)
          ≡ count q (row_paths v.rows) + one (contains w.seen q && contains_key m q)

  pub Advances-refl : (w : Walk) → Advances w w
  Advances-refl w = record { grows = λ q h. h; balanced = λ q. refl }

  pub Advances-trans : (u v w : Walk) → Advances u v → Advances v w → Advances u w
  Advances-trans u v w f g = record {
    grows = λ q h. g.grows q (f.grows q h);
    balanced = λ q. omega (arith, f.balanced q, g.balanced q);
  }

  -- `visit`, with what is left of the fuel, reaches the paths that it is called with.
  abbrev pub Reaches : (Text → Walk → Option Walk) → ℕ → Type 0
  Reaches visit fuel =
      (path : Text) (w : Walk)
      → unseen (keys m) w.seen < fuel
      → (v : Walk) × (visit path w ≡ some v) × Advances w v × (contains v.seen path ≡ true)

  pub Advances-unseen :
      (v w : Walk) → Advances v w → unseen (keys m) w.seen ≤ unseen (keys m) v.seen
  Advances-unseen v w a = unseen_mono (keys m) v.seen w.seen a.grows

  pub visit_all-Advances :
      (visit : Text → Walk → Option Walk) (fuel : ℕ)
      → Reaches visit fuel
      → (paths : List Text) (w : Walk) → unseen (keys m) w.seen < fuel
      → (v : Walk) × (visit_all visit paths w ≡ some v)
        × Advances w v
        × ((q : Text) → contains paths q ≡ true → contains v.seen q ≡ true)
  unfolding visit_all contains
  visit_all-Advances visit fuel reaches [] w h = (w, refl, Advances-refl w, λ q e. absurd (cc e))
  visit_all-Advances visit fuel reaches (path ∷ paths) w h =
      let (v, e, first, there) = reaches path w h in
      let le = Advances-unseen w v first in
      let (u, f, others, rest) = visit_all-Advances visit fuel reaches paths v (omega arith) in
      (
        u,
        rw e f,
        Advances-trans w v u first others,
        λ q g. ground (arith, (beq_iff q path).0, rest q, others.grows path there),
      )

  -- A node of the map stands under its own path.
  abbrev pub IsIndexed : Type 0
  IsIndexed = (q : Text) (n : DerivationNode) → get m q ≡ some n → n.path ≡ q

  count-push_row :
      (q : Text) (rows : List DisplayRow) (r : DisplayRow)
      → count q (row_paths (rows ++ r ∷ [])) ≡ count q (row_paths rows) + one (beq q r.node.path)
  count-push_row q [] r = ground arith
  count-push_row q (s ∷ rows) r = ground (arith, count-push_row q rows r)

  abbrev mark : Text → Walk → Walk
  mark path w = record w { seen = Set.insert w.seen path }

  mark-none : (path : Text) (w : Walk) → get m path ≡ none → Advances w (mark path w)
  mark-none path w e = record {
    grows = λ q h. ground (arith, contains-insert w.seen path q);
    balanced = λ q. ground (arith, contains-insert w.seen path q, (beq_iff q path).0, e);
  }

  push_row-Advances :
      (path : Text) (depth : ℕ) (n : DerivationNode) (w v : Walk)
      → contains w.seen path ≡ false
      → get m path ≡ some n
      → n.path ≡ path
      → Advances (mark path w) v
      → Advances w (push_row depth n v)
  push_row-Advances path depth n w v fresh e named a = record {
    grows = λ q h. a.grows q (ground (arith, contains-insert w.seen path q));
    balanced = λ q. ground (
      arith,
      a.balanced q,
      contains-insert w.seen path q,
      count-push_row q v.rows (record { depth = depth; node = n }),
      (beq_iff q path).0,
      beq_refl path,
      named,
      e,
      fresh,
    );
  }

  enter-Advances :
      (visit : Text → Walk → Option Walk) (fuel : ℕ)
      → Reaches visit fuel
      → IsIndexed
      → (depth : ℕ) (path : Text) (w : Walk) → contains w.seen path ≡ false
      → unseen (keys m) w.seen ≤ fuel
      → (v : Walk) × (enter m visit depth (get m path) (mark path w) ≡ some v)
        × Advances w v
        × (contains v.seen path ≡ true)
  enter-Advances visit fuel reaches indexed depth path w fresh h =
      elim (Option-cases (get m path)) [
        | inl e ↦ (
          mark path w,
          rw e refl,
          mark-none path w e,
          ground (arith, contains-insert w.seen path path, beq_refl path),
        )
        | inr (n, e) ↦
            let fewer = unseen-insert (keys m) w.seen path (key path n e) fresh in
            let (v, f, a, rest) =
              visit_all-Advances visit fuel reaches (sort_paths m n.state.inputs) (mark path w)
                (omega arith) in
            (
              push_row depth n v,
              rw e (rw f refl),
              push_row-Advances path depth n w v fresh e (indexed path n e) a,
              a.grows path (ground (arith, contains-insert w.seen path path, beq_refl path)),
            )
      ]
    where
      key : (q : Text) (n : DerivationNode) → get m q ≡ some n → contains (keys m) q ≡ true
      key q n e = contains-keys m q ∙ rw e refl

  pub visit-Reaches : IsIndexed → (fuel depth : ℕ) → Reaches (visit m fuel depth) fuel
  unfolding visit
  visit-Reaches indexed zero depth path w h = absurd (omega arith)
  visit-Reaches indexed (suc fuel) depth path w h = elim (Bool-cases (contains w.seen path)) [
    | inl e ↦ (w, rw (e, visit) refl, Advances-refl w, e)
    | inr e ↦
        let (v, f, a, there) =
          enter-Advances (visit m fuel (depth + 1)) fuel (visit-Reaches indexed fuel (depth + 1))
            indexed depth path w e (omega arith) in
        (v, rw (e, visit) f, a, there)
  ]
