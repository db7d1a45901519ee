-- ===== src/Base/Map.antt =====
-- `std::collections::BTreeMap` as the list of its entries in the order of the keys.
use Prim.Native.Nat.{◌+◌, ◌≤◌}
use Prim.Native.Nat.Ordering.{lt, eq, gt}
use mathlib.Core.Path.{◌≡◌, refl, ap}
use mathlib.Core.Bool.{Bool, true, false}
use mathlib.Core.List.{List, [], ◌∷◌, ◌++◌}
use mathlib.Core.Option.{Option, none, some}
use native.Mathlib.Omega.{arith}
use mandala.Base.Lists.{length}
use mandala.Base.Tests.{if◌then◌else◌, is_some, unwrap_or}
use mandala.Base.Set
use mandala.Base.Set.{contains}
use mandala.Base.Order.{Ord, ◌≺◌, beq}

abbrev pub Map {ℓ κ} : Type ℓ → Type κ → Type (ℓ ⊔ κ)
Map K V = List (K × V)

module _ {ℓ κ} {K : Type ℓ} {V : Type κ} where
  abbrev pub keys : Map K V → List K
  keys [] = []
  keys ((k, v) ∷ m) = k ∷ keys m

  abbrev pub values : Map K V → List V
  values [] = []
  values ((k, v) ∷ m) = v ∷ values m

module _ {ℓ κ} {K : Type ℓ} {V : Type κ} ⦃o : Ord K⦄ where
  unfoldable pub get : Map K V → K → Option V
  get [] q = none
  get ((k, v) ∷ m) q = if beq q k then some v else get m q

  unfoldable pub insert : Map K V → K → V → Map K V
  insert [] q w = (q, w) ∷ []
  insert ((k, v) ∷ m) q w = elim (o.cmp q k) [
    | lt ↦ (q, w) ∷ (k, v) ∷ m
    | eq ↦ (k, w) ∷ m
    | gt ↦ (k, v) ∷ insert m q w
  ]

  unfoldable pub remove : Map K V → K → Map K V
  remove [] q = []
  remove ((k, v) ∷ m) q =
      let rest = remove m q in elim (beq q k) [ true ↦ rest | false ↦ (k, v) ∷ rest ]

  abbrev pub contains_key : Map K V → K → Bool
  contains_key m q = is_some (get m q)

  -- `*m.entry(k).or_insert(d)`, changed in place by `f`.
  abbrev pub upsert : Map K V → K → V → (V → V) → Map K V
  upsert m q d f = insert m q (f (unwrap_or (get m q) d))

  pub get-insert :
      (m : Map K V) (q p : K) (w : V) → get (insert m q w) p ≡ (if beq p q then some w else get m p)
  unfolding get insert
  get-insert [] q p w = refl
  get-insert ((k, v) ∷ m) q p w = ground (
    arith,
    get-insert m q p w,
    o.eq_of_cmp q k,
    o.eq_of_cmp p q,
    o.eq_of_cmp p k,
    o.cmp_refl k,
    o.cmp_refl q,
  )

  pub get-remove :
      (m : Map K V) (q p : K) → get (remove m q) p ≡ (if beq p q then none else get m p)
  unfolding get remove
  get-remove [] q p = ground arith
  get-remove ((k, v) ∷ m) q p = ground (
    arith,
    get-remove m q p,
    o.eq_of_cmp q k,
    o.eq_of_cmp p q,
    o.eq_of_cmp p k,
    o.cmp_refl k,
    o.cmp_refl q,
  )

  -- Every key of the map comes behind `k`.
  abbrev pub Above : K → Map K V → Type 0
  Above k [] = Unit
  Above k ((j, v) ∷ m) = k ≺ j × Above k m

  abbrev pub IsSorted : Map K V → Type 0
  IsSorted [] = Unit
  IsSorted ((k, v) ∷ m) = Above k m × IsSorted m

  pub Above-mono : (a b : K) (m : Map K V) → a ≺ b → Above b m → Above a m
  Above-mono a b [] h s = tt
  Above-mono a b ((j, v) ∷ m) h s = (o.lt_trans a b j h s.0, Above-mono a b m h s.1)

  Above-insert : (m : Map K V) (k q : K) (w : V) → k ≺ q → Above k m → Above k (insert m q w)
  unfolding insert
  Above-insert [] k q w h s = (h, tt)
  Above-insert ((j, v) ∷ m) k q w h s = ground (arith, Above-insert m k q w h s.1)

  Above-remove : (m : Map K V) (k q : K) → Above k m → Above k (remove m q)
  unfolding remove
  Above-remove [] k q s = tt
  Above-remove ((j, v) ∷ m) k q s = ground (arith, Above-remove m k q s.1)

  pub insert-IsSorted : (m : Map K V) (q : K) (w : V) → IsSorted m → IsSorted (insert m q w)
  unfolding insert
  insert-IsSorted [] q w s = (tt, tt)
  insert-IsSorted ((k, v) ∷ m) q w s = ground (
    arith,
    insert-IsSorted m q w s.1,
    Above-mono q k m,
    Above-insert m k q w,
    o.lt_of_gt q k,
    o.eq_of_cmp q k,
  )

  pub remove-IsSorted : (m : Map K V) (q : K) → IsSorted m → IsSorted (remove m q)
  unfolding remove
  remove-IsSorted [] q s = tt
  remove-IsSorted ((k, v) ∷ m) q s = ground (arith, remove-IsSorted m q s.1, Above-remove m k q s.0)

  pub length-insert :
      (m : Map K V) (q : K) (w : V) → length (keys (insert m q w)) ≤ length (keys m) + 1
  unfolding insert
  length-insert [] q w = omega arith
  length-insert ((k, v) ∷ m) q w = ground (arith, length-insert m q w)

  Above-middle : (j k : K) (v : V) (a m : Map K V) → Above j (a ++ (k, v) ∷ m) → j ≺ k
  Above-middle j k v [] m s = s.0
  Above-middle j k v ((i, w) ∷ a) m s = Above-middle j k v a m s.1

  -- A key behind all others is inserted at the end.
  pub insert-last :
      (a : Map K V) (k : K) (v : V) (m : Map K V)
      → IsSorted (a ++ (k, v) ∷ m)
      → insert a k v ≡ a ++ (k, v) ∷ []
  unfolding insert
  insert-last [] k v m s = refl
  insert-last ((j, w) ∷ a) k v m s =
      rw (o.gt_of_lt j k (Above-middle j k v a m s.0), insert)
        (ap (λ rest. (j, w) ∷ rest) (insert-last a k v m s.1))

  pub contains-keys : (m : Map K V) (q : K) → contains (keys m) q ≡ contains_key m q
  unfolding get contains
  contains-keys [] q = refl
  contains-keys ((k, v) ∷ m) q = ground (arith, contains-keys m q)

  Above-keys : (k : K) (m : Map K V) → Above k m → Set.Above k (keys m)
  Above-keys k [] s = tt
  Above-keys k ((j, v) ∷ m) s = (s.0, Above-keys k m s.1)

  pub keys-IsSorted : (m : Map K V) → IsSorted m → Set.IsSorted (keys m)
  keys-IsSorted [] s = tt
  keys-IsSorted ((k, v) ∷ m) s = (Above-keys k m s.0, keys-IsSorted m s.1)

pub ruleset map_laws = (get-insert, get-remove)
