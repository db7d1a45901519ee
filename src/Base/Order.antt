-- ===== src/Base/Order.antt =====
-- `std::cmp::Ord`: a total order as a comparison function with the laws that the trait asks for.
use Prim.Native.Nat.{ℕ, compare, Ordering}
use Prim.Native.Nat.Ordering.{lt, eq, gt}
use mathlib.Core.Path.{◌≡◌, refl}
use mathlib.Core.Logic.{◌↔◌}
use mathlib.Core.Bool.{Bool, true, false}
use mathlib.Core.List.{List, [], ◌∷◌}
use native.Mathlib.Omega.{arith}

pub record Ord {ℓ} (K : Type ℓ) : Type ℓ where
  pub cmp : K → K → Ordering
  pub lt_trans : (low mid high : K) → cmp low mid ≡ lt → cmp mid high ≡ lt → cmp low high ≡ lt
  pub eq_of_cmp : (p q : K) → cmp p q ≡ eq → p ≡ q
  pub cmp_refl : (p : K) → cmp p p ≡ eq
  pub gt_of_lt : (low high : K) → cmp low high ≡ lt → cmp high low ≡ gt
  pub lt_of_gt : (high low : K) → cmp high low ≡ gt → cmp low high ≡ lt

module _ {ℓ} {K : Type ℓ} ⦃o : Ord K⦄ where
  infix 50 ◌≺◌
  abbrev pub ◌≺◌ : K → K → Type 0
  a ≺ b = o.cmp a b ≡ lt

  -- `==` of a type whose order is total.
  abbrev pub beq : K → K → Bool
  beq a b = elim (o.cmp a b) [ eq ↦ true | _ ↦ false ]

  pub beq_iff : (a b : K) → (beq a b ≡ true) ↔ (a ≡ b)
  beq_iff a b = (λ h. o.eq_of_cmp a b (ground arith), λ e. ground (arith, e, o.cmp_refl b))

  pub beq_refl : (a : K) → beq a a ≡ true
  beq_refl a = (beq_iff a a).1 refl

pub nat_eq_of_cmp : (a b : ℕ) → compare a b ≡ eq → a ≡ b
nat_eq_of_cmp a b h = ground arith

pub nat_lt_of_gt : (a b : ℕ) → compare a b ≡ gt → compare b a ≡ lt
nat_lt_of_gt a b h = ground arith

pub nat_gt_of_lt : (a b : ℕ) → compare a b ≡ lt → compare b a ≡ gt
nat_gt_of_lt a b h = ground arith

pub nat_lt_trans : (a b c : ℕ) → compare a b ≡ lt → compare b c ≡ lt → compare a c ≡ lt
nat_lt_trans a b c h k = ground arith

pub nat_cmp_refl : (a : ℕ) → compare a a ≡ eq
nat_cmp_refl a = ground arith

instance abbrev pub nat_ord : Ord ℕ
nat_ord = record {
  cmp = compare;
  cmp_refl = nat_cmp_refl;
  eq_of_cmp = nat_eq_of_cmp;
  lt_of_gt = nat_lt_of_gt;
  gt_of_lt = nat_gt_of_lt;
  lt_trans = nat_lt_trans;
}

-- The lexicographic order of lists of numbers, which is the order of texts.
abbrev pub list_cmp : List ℕ → List ℕ → Ordering
list_cmp [] [] = eq
list_cmp [] (y ∷ ys) = lt
list_cmp (x ∷ xs) [] = gt
list_cmp (x ∷ xs) (y ∷ ys) =
    let rest = list_cmp xs ys in elim (compare x y) [ lt ↦ lt | eq ↦ rest | gt ↦ gt ]

pub list_cmp_refl : (a : List ℕ) → list_cmp a a ≡ eq
list_cmp_refl [] = refl
list_cmp_refl (x ∷ xs) = ground (arith, list_cmp_refl xs)

pub list_eq_of_cmp : (a b : List ℕ) → list_cmp a b ≡ eq → a ≡ b
list_eq_of_cmp [] [] h = refl
list_eq_of_cmp [] (y ∷ ys) h = ground arith
list_eq_of_cmp (x ∷ xs) [] h = ground arith
list_eq_of_cmp (x ∷ xs) (y ∷ ys) h = ground (arith, list_eq_of_cmp xs ys)

pub list_lt_of_gt : (a b : List ℕ) → list_cmp a b ≡ gt → list_cmp b a ≡ lt
list_lt_of_gt [] [] h = ground arith
list_lt_of_gt [] (y ∷ ys) h = ground arith
list_lt_of_gt (x ∷ xs) [] h = refl
list_lt_of_gt (x ∷ xs) (y ∷ ys) h = ground (arith, list_lt_of_gt xs ys)

pub list_gt_of_lt : (a b : List ℕ) → list_cmp a b ≡ lt → list_cmp b a ≡ gt
list_gt_of_lt [] [] h = ground arith
list_gt_of_lt [] (y ∷ ys) h = refl
list_gt_of_lt (x ∷ xs) [] h = ground arith
list_gt_of_lt (x ∷ xs) (y ∷ ys) h = ground (arith, list_gt_of_lt xs ys)

pub list_lt_trans : (a b c : List ℕ) → list_cmp a b ≡ lt → list_cmp b c ≡ lt → list_cmp a c ≡ lt
list_lt_trans [] [] c h k = ground arith
list_lt_trans [] (y ∷ ys) [] h k = ground arith
list_lt_trans [] (y ∷ ys) (z ∷ zs) h k = refl
list_lt_trans (x ∷ xs) [] c h k = ground arith
list_lt_trans (x ∷ xs) (y ∷ ys) [] h k = ground arith
list_lt_trans (x ∷ xs) (y ∷ ys) (z ∷ zs) h k = ground (arith, list_lt_trans xs ys zs)

instance abbrev pub list_ord : Ord (List ℕ)
list_ord = record {
  cmp = list_cmp;
  cmp_refl = list_cmp_refl;
  eq_of_cmp = list_eq_of_cmp;
  lt_of_gt = list_lt_of_gt;
  gt_of_lt = list_gt_of_lt;
  lt_trans = list_lt_trans;
}
