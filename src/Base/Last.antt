-- ===== src/Base/Last.antt =====
-- The last elements of a list.
use Prim.Native.Nat.{ℕ, zero, suc, ◌+◌, ◌-◌, ◌≤◌}
use mathlib.Core.Path.{◌≡◌, refl, ap, sym, ◌∙◌}
use mathlib.Core.Logic.{inl, inr}
use mathlib.Core.Bool.{true, false}
use mathlib.Core.List.{List, [], ◌∷◌, ◌++◌}
use native.Mathlib.Omega.{arith}
use mandala.Base.Lists.{length, drop, length-append, length-drop}
use mandala.Base.Tests.{ltb, Bool-cases}

module _ {ℓ} {A : Type ℓ} where
  abbrev pub last_n : ℕ → List A → List A
  last_n n xs = drop (length xs - n) xs

  -- `while xs.len() > n { xs.pop_front(); }`.
  unfoldable pub trimmed : ℕ → List A → List A
  trimmed n [] = []
  trimmed n (x ∷ xs) =
      let rest = trimmed n xs in elim (ltb n (length (x ∷ xs))) [ true ↦ rest | false ↦ x ∷ xs ]

  pub append_cons : (xs : List A) (x : A) (ys : List A) → (xs ++ (x ∷ [])) ++ ys ≡ xs ++ (x ∷ ys)
  append_cons [] x ys = refl
  append_cons (z ∷ xs) x ys = ap (λ r. z ∷ r) (append_cons xs x ys)

  pub drop-append : (n : ℕ) (xs ys : List A) → n ≤ length xs → drop n (xs ++ ys) ≡ drop n xs ++ ys
  drop-append zero xs ys h = refl
  drop-append (suc n) [] ys h = absurd (omega (arith, h))
  drop-append (suc n) (x ∷ xs) ys h = drop-append n xs ys (omega (arith, h))

  pub drop-drop : (m n : ℕ) (xs : List A) → drop m (drop n xs) ≡ drop (n + m) xs
  drop-drop m zero xs = let e : 0 + m ≡ m = omega arith in rw e refl
  drop-drop zero (suc n) [] = let e : suc n + 0 ≡ suc n = omega arith in rw e refl
  drop-drop (suc m) (suc n) [] = let e : suc n + suc m ≡ suc (n + suc m) = omega arith in rw e refl
  drop-drop m (suc n) (x ∷ xs) =
      let e : suc n + m ≡ suc (n + m) = omega arith in rw e (drop-drop m n xs)

  pub trimmed_lem : (n : ℕ) (xs : List A) → trimmed n xs ≡ last_n n xs
  unfolding trimmed
  trimmed_lem n [] = let e : 0 - n ≡ 0 = omega arith in rw e refl
  trimmed_lem n (x ∷ xs) = elim (Bool-cases (ltb n (length (x ∷ xs)))) [
    | inl e ↦
        let shifted : suc (length xs) - n ≡ suc (length xs - n) = ground (arith, e) in
        rw (trimmed, e, shifted) (trimmed_lem n xs)
    | inr e ↦
        let none_over : suc (length xs) - n ≡ 0 = ground (arith, e) in
        rw (trimmed, e, none_over) refl
  ]

  -- What is dropped before an append is dropped after it as well.
  pub last_n-append : (n : ℕ) (xs ys : List A) → last_n n (last_n n xs ++ ys) ≡ last_n n (xs ++ ys)
  last_n-append n xs ys =
      let k = length xs - n in
      let cut : drop k xs ++ ys ≡ drop k (xs ++ ys) = sym (drop-append k xs ys (omega arith)) in
      let there : k + (length (drop k xs ++ ys) - n) ≡ length (xs ++ ys) - n =
        omega (arith, length-append (drop k xs) ys, length-append xs ys, length-drop k xs) in
      ap (drop (length (drop k xs ++ ys) - n)) cut
      ∙ (drop-drop (length (drop k xs ++ ys) - n) k (xs ++ ys) ∙ ap (λ m. drop m (xs ++ ys)) there)
