-- ===== src/Base/Set.antt =====
-- `std::collections::BTreeSet` as the list of its elements in order.
use Prim.Native.Nat.{ℕ, ◌+◌, ◌≤◌}
use Prim.Native.Nat.Ordering.{lt, eq, gt}
use mathlib.Core.Path.{◌≡◌, refl, ap}
use mathlib.Core.Bool.{Bool, true, false, not, ◌||◌, ◌&&◌}
use mathlib.Core.List.{List, [], ◌∷◌}
use native.Mathlib.Omega.{arith}
use mathlib.Core.Logic.{inl, inr}
use mandala.Base.Tests.{if◌then◌else◌, Bool-cases}
use mandala.Base.Lists.{keep, All, length}
use mandala.Base.Order.{Ord, ◌≺◌, beq, beq_iff}

abbrev pub Set {ℓ} : Type ℓ → Type ℓ
Set K = List K

module _ {ℓ} {K : Type ℓ} ⦃o : Ord K⦄ where
  unfoldable pub contains : List K → K → Bool
  contains [] q = false
  contains (k ∷ s) q = beq q k || contains s q

  unfoldable pub insert : Set K → K → Set K
  insert [] q = q ∷ []
  insert (k ∷ s) q = elim (o.cmp q k) [ lt ↦ q ∷ k ∷ s | eq ↦ k ∷ s | gt ↦ k ∷ insert s q ]

  unfoldable pub remove : Set K → K → Set K
  remove [] q = []
  remove (k ∷ s) q = let rest = remove s q in elim (beq q k) [ true ↦ rest | false ↦ k ∷ rest ]

  unfoldable pub extend : Set K → List K → Set K
  extend s [] = s
  extend s (x ∷ xs) = extend (insert s x) xs

  -- How often a list holds an element.
  abbrev pub count : K → List K → ℕ
  count q [] = 0
  count q (a ∷ rest) = if beq q a then 1 + count q rest else count q rest

  -- `a.difference(&b)`, in order.
  abbrev pub difference : Set K → Set K → Set K
  difference a b = keep (λ x. not (contains b x)) a

  pub length-insert : (s : Set K) (q : K) → length (insert s q) ≤ length s + 1
  unfolding insert
  length-insert [] q = omega arith
  length-insert (k ∷ s) q = ground (arith, length-insert s q)

  pub length-extend : (xs : List K) (s : Set K) → length (extend s xs) ≤ length s + length xs
  unfolding extend
  length-extend [] s = omega arith
  length-extend (x ∷ xs) s = omega (arith, length-extend xs (insert s x), length-insert s x)

  pub contains-insert : (s : Set K) (q p : K) → contains (insert s q) p ≡ (beq p q || contains s p)
  unfolding contains insert
  contains-insert [] q p = refl
  contains-insert (k ∷ s) q p = ground (arith, contains-insert s q p, o.eq_of_cmp q k)

  pub contains-remove :
      (s : Set K) (q p : K) → contains (remove s q) p ≡ (not (beq p q) && contains s p)
  unfolding contains remove
  contains-remove [] q p = ground arith
  contains-remove (k ∷ s) q p = ground (
    arith,
    contains-remove s q p,
    o.eq_of_cmp q k,
    o.eq_of_cmp p q,
    o.eq_of_cmp p k,
    o.cmp_refl k,
    o.cmp_refl q,
  )

  pub contains-extend :
      (xs : List K) (s : Set K) (p : K) → contains (extend s xs) p ≡ (contains s p || contains xs p)
  unfolding contains extend
  contains-extend [] s p = ground arith
  contains-extend (x ∷ xs) s p =
      ground (arith, contains-extend xs (insert s x) p, contains-insert s x p)

  pub contains-keep :
      (f : K → Bool) (xs : List K) (p : K) → contains (keep f xs) p ≡ (contains xs p && f p)
  unfolding contains
  contains-keep f [] p = refl
  contains-keep f (x ∷ xs) p = ground (arith, contains-keep f xs p, o.eq_of_cmp p x)

  pub contains-difference :
      (a b : Set K) (p : K) → contains (difference a b) p ≡ (contains a p && not (contains b p))
  contains-difference a b p = contains-keep (λ x. not (contains b x)) a p

  -- Every element of the set comes behind `k`.
  abbrev pub Above : K → List K → Type 0
  Above k [] = Unit
  Above k (j ∷ s) = k ≺ j × Above k s

  -- In strictly ascending order: sorted, and with no element twice.
  abbrev pub IsSorted : List K → Type 0
  IsSorted [] = Unit
  IsSorted (k ∷ s) = Above k s × IsSorted s

  count-Above : (k : K) (s : List K) → Above k s → count k s ≡ 0
  count-Above k [] h = refl
  count-Above k (j ∷ s) h = ground (arith, count-Above k s h.1, h.0)

  pub count-IsSorted : (q : K) (s : List K) → IsSorted s → count q s ≤ 1
  count-IsSorted q [] h = omega arith
  count-IsSorted q (k ∷ s) h =
      ground (arith, count-IsSorted q s h.1, o.eq_of_cmp q k, count-Above k s h.0)

  pub Above-mono : (a b : K) (s : List K) → a ≺ b → Above b s → Above a s
  Above-mono a b [] h t = tt
  Above-mono a b (j ∷ s) h t = (o.lt_trans a b j h t.0, Above-mono a b s h t.1)

  Above-insert : (s : Set K) (k q : K) → k ≺ q → Above k s → Above k (insert s q)
  unfolding insert
  Above-insert [] k q h t = (h, tt)
  Above-insert (j ∷ s) k q h t = ground (arith, Above-insert s k q h t.1)

  pub insert-IsSorted : (s : Set K) (q : K) → IsSorted s → IsSorted (insert s q)
  unfolding insert
  insert-IsSorted [] q t = (tt, tt)
  insert-IsSorted (k ∷ s) q t = ground (
    arith,
    insert-IsSorted s q t.1,
    Above-mono q k s,
    Above-insert s k q,
    o.lt_of_gt q k,
    o.eq_of_cmp q k,
  )

  pub extend-IsSorted : (xs : List K) (s : Set K) → IsSorted s → IsSorted (extend s xs)
  unfolding extend
  extend-IsSorted [] s t = t
  extend-IsSorted (x ∷ xs) s t = extend-IsSorted xs (insert s x) (insert-IsSorted s x t)

  Above-keep : (f : K → Bool) (k : K) (xs : List K) → Above k xs → Above k (keep f xs)
  Above-keep f k [] t = tt
  Above-keep f k (x ∷ xs) t = ground (arith, Above-keep f k xs t.1)

  pub keep-IsSorted : (f : K → Bool) (xs : List K) → IsSorted xs → IsSorted (keep f xs)
  keep-IsSorted f [] t = tt
  keep-IsSorted f (x ∷ xs) t = ground (arith, keep-IsSorted f xs t.1, Above-keep f x xs t.0)

  pub contains-Above : (k : K) (s : List K) → Above k s → contains s k ≡ false
  unfolding contains
  contains-Above k [] t = refl
  contains-Above k (x ∷ s) t = ground (arith, contains-Above k s t.1)

  -- The least element of a sorted list, read off its membership test.
  contains-lt-head : (k p : K) (s : List K) → Above k s → p ≺ k → contains (k ∷ s) p ≡ false
  unfolding contains
  contains-lt-head k p s t h =
      ground (arith, contains-Above p s (Above-mono p k s h t), o.eq_of_cmp p k)

  contains_head : (k : K) (s : List K) → contains (k ∷ s) k ≡ true
  unfolding contains
  contains_head k s = ground (arith, o.cmp_refl k)

  head_unique :
      (a b : K) (s t : List K)
      → Above a s
      → Above b t
      → ((p : K) → contains (a ∷ s) p ≡ contains (b ∷ t) p)
      → o.cmp a b ≡ eq
  head_unique a b s t x y same = ground (
    arith,
    contains-lt-head b a t y,
    contains-lt-head a b s x,
    contains_head a s,
    contains_head b t,
    same a,
    same b,
    o.lt_of_gt a b,
  )

  tail_same :
      (a : K) (s t : List K)
      → Above a s
      → Above a t
      → ((p : K) → contains (a ∷ s) p ≡ contains (a ∷ t) p)
      → (p : K) → contains s p ≡ contains t p
  unfolding contains
  tail_same a s t x y same p =
      ground (arith, same p, contains-Above a s x, contains-Above a t y, o.eq_of_cmp p a)

  -- A sorted list is determined by its elements.
  pub IsSorted-ext :
      (s t : List K) → IsSorted s → IsSorted t → ((p : K) → contains s p ≡ contains t p) → s ≡ t
  IsSorted-ext [] [] x y same = refl
  IsSorted-ext [] (b ∷ t) x y same =
      absurd (unfold contains in ground (arith, same b, contains_head b t))
  IsSorted-ext (a ∷ s) [] x y same =
      absurd (unfold contains in ground (arith, same a, contains_head a s))
  IsSorted-ext (a ∷ s) (b ∷ t) x y same =
      let e = o.eq_of_cmp a b (head_unique a b s t x.0 y.0 same) in
      let y' : IsSorted (a ∷ t) = rw e y in
      let same' : (p : K) → contains (a ∷ s) p ≡ contains (a ∷ t) p = rw (← e) at same in
      rw (← e) (ap (λ r. a ∷ r) (IsSorted-ext s t x.1 y'.1 (tail_same a s t x.0 y'.0 same')))

  pub All-contains {κ} :
      (P : K → Type κ) (s : List K) → ((p : K) → contains s p ≡ true → P p) → All P s
  All-contains P [] h = tt
  All-contains P (k ∷ s) h =
      (h k (contains_head k s), All-contains P s λ p c. h p (unfold contains in ground (arith, c)))

  pub contains-All {κ} : (P : K → Type κ) (s : List K) (q : K) → All P s → contains s q ≡ true → P q
  unfolding contains
  contains-All P [] q h c = cc
  contains-All P (k ∷ s) q h c = elim (Bool-cases (beq q k)) [
    | inl e ↦ rw ((beq_iff q k).0 e) h.0
    | inr e ↦ contains-All P s q h.1 (ground (arith, e, c))
  ]

pub ruleset set_laws = (contains-insert, contains-remove, contains-extend, contains-difference)
