-- ===== src/Rows/Closed.antt =====
-- crates/nix-build-forest/src/sort.rs: the loop of `activity_projection` over the frontier.
use mandala.Base.{
  ℕ, zero, suc, ◌+◌, ◌≤◌, ◌≡◌, refl, true, false, some, List, [], ◌∷◌, length, arith, Bool-cases,
  inl, inr,
}
use mandala.Base.Order.{list_ord, beq, beq_iff, beq_refl}
use mandala.Base.Map.{Map}
use mandala.Base.Set
use mandala.Base.Set.{Set, contains, contains-insert}
use mandala.Base.Text.{Text}
use mandala.Rows.Visited.{unseen, unseen-insert}
use mandala.Rows.Project.{parents_in, Closure, offer, close}

module _ (ks : List Text) where
  abbrev work : Closure → ℕ
  work c = length c.frontier + unseen ks c.kept

  -- What the loop over some parents makes of a closure.
  record Offered (parents : List Text) (c d : Closure) : Type 0 where
    grows : (q : Text) → contains c.kept q ≡ true → contains d.kept q ≡ true
    takes : (q : Text) → contains parents q ≡ true → contains d.kept q ≡ true
    queued :
        (q : Text)
        → contains d.kept q ≡ true
        → contains c.kept q ≡ false
        → contains d.frontier q ≡ true
    stays : (q : Text) → contains c.frontier q ≡ true → contains d.frontier q ≡ true
    spends : work d ≤ work c

  offer-Offered :
      (parents : List Text) (c : Closure)
      → ((q : Text) → contains parents q ≡ true → contains ks q ≡ true)
      → Offered parents c (offer parents c)
  unfolding offer contains
  offer-Offered [] c known = record {
    grows = λ q h. h;
    takes = λ q h. absurd (cc h);
    queued = λ q h f. absurd (cc (h, f));
    stays = λ q h. h;
    spends = omega arith;
  }
  offer-Offered (parent ∷ parents) c known = elim (Bool-cases (contains c.kept parent)) [
    | inl e ↦
        let o = offer-Offered parents c (λ q h. known q (ground (arith, h))) in
        rw (e, offer)
          (record {
            grows = o.grows;
            takes = λ q h. ground (arith, (beq_iff q parent).0, o.takes q, o.grows parent e);
            queued = o.queued;
            stays = o.stays;
            spends = o.spends;
          })
    | inr e ↦
        let next : Closure = record {
          kept = Set.insert c.kept parent;
          frontier = parent ∷ c.frontier;
        } in
        let o = offer-Offered parents next (λ q h. known q (ground (arith, h))) in
        let fewer =
          unseen-insert ks c.kept parent (known parent (ground (arith, beq_refl parent))) e in
        rw (e, offer)
          (record {
            grows = λ q h. o.grows q (ground (arith, contains-insert c.kept parent q));
            takes = λ q h. ground (
              arith,
              (beq_iff q parent).0,
              o.takes q,
              o.grows parent
                  (ground (arith, contains-insert c.kept parent parent, beq_refl parent)),
            );
            queued =
                λ q h f. ground (arith, o.queued q h, o.stays q, contains-insert c.kept parent q);
            stays = λ q h. o.stays q (ground (arith, h));
            spends = omega (arith, o.spends);
          })
  ]

  module _ (parents : Map Text (List Text)) where
    -- The parents of what is kept are kept, but for those of what waits.
    abbrev pub IsClosedBut : List Text → Set Text → Type 0
    IsClosedBut frontier kept =
        (q parent : Text)
        → contains kept q ≡ true
        → contains frontier q ≡ false
        → contains (parents_in parents q) parent ≡ true
        → contains kept parent ≡ true

    offer-IsClosedBut :
        (path : Text) (frontier : List Text) (kept : Set Text) (d : Closure)
        → IsClosedBut (path ∷ frontier) kept
        → Offered (parents_in parents path) (record { kept = kept; frontier = frontier }) d
        → IsClosedBut d.frontier d.kept
    unfolding contains
    offer-IsClosedBut path frontier kept d closed o q parent here gone edge =
        elim (Bool-cases (contains kept q)) [
          | inr e ↦ absurd (cc (o.queued q here e, gone))
          | inl e ↦ elim (Bool-cases (beq q path)) [
            | inl same ↦ o.takes parent (rw (← (beq_iff q path).0 same) edge)
            | inr other ↦
                o.grows parent (closed q parent e (ground (arith, o.stays q, other, gone)) edge)
          ]
        ]

    pub close-IsClosed :
        ((q parent : Text)
          → contains (parents_in parents q) parent ≡ true
          → contains ks parent ≡ true)
        → (fuel : ℕ) (frontier : List Text) (kept : Set Text)
        → length frontier + unseen ks kept ≤ fuel
        → IsClosedBut frontier kept
        → (k : Set Text) × (close parents fuel frontier kept ≡ some k)
          × ((q : Text) → contains kept q ≡ true → contains k q ≡ true)
          × IsClosedBut [] k
    unfolding close
    close-IsClosed known zero [] kept h closed = (kept, refl, λ q e. e, closed)
    close-IsClosed known zero (path ∷ frontier) kept h closed = absurd (omega arith)
    close-IsClosed known (suc fuel) [] kept h closed = (kept, refl, λ q e. e, closed)
    close-IsClosed known (suc fuel) (path ∷ frontier) kept h closed =
        let c : Closure = record { kept = kept; frontier = frontier } in
        let o = offer-Offered (parents_in parents path) c (known path) in
        let d = offer (parents_in parents path) c in
        let spent = o.spends in
        let (k, e, more, ends) =
          close-IsClosed known fuel d.frontier d.kept (omega arith)
            (offer-IsClosedBut path frontier kept d closed o) in
        (k, e, λ q here. more q (o.grows q here), ends)
