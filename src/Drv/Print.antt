-- ===== src/Drv/Print.antt =====
-- How Nix writes the terms of a `.drv` file. A printer puts its text before what follows.
use mandala.Base.{
  ℕ, ◌≤◌, ◌<◌, ◌≡◌, true, false, List, [], ◌∷◌, ◌++◌, if◌then◌else◌, ◌==◌, length, arith, all,
}
use mandala.Base.Text.{Text, is_empty}
use mandala.Drv.Term.{Term, Terms, app, list, tuple, str, nil, cons}
use mandala.Drv.Parse.{is_name}

-- A quote, a backslash, a line feed, a carriage return and a tab are escaped.
unfoldable pub escape : ℕ → List ℕ → List ℕ
escape c k =
    if c == b'"'
    then b'\\' ∷ b'"' ∷ k
    else if c == b'\\'
    then b'\\' ∷ b'\\' ∷ k
    else if c == 10
    then b'\\' ∷ b'n' ∷ k
    else if c == 13
    then b'\\' ∷ b'r' ∷ k
    else if c == 9
    then b'\\' ∷ b't' ∷ k
    else c ∷ k

unfoldable pub quote : Text → List ℕ → List ℕ
quote [] k = k
quote (c ∷ s) k = escape c (quote s k)

unfoldable mutual
  pub print : Term → List ℕ → List ℕ
  print (str value) k = b'"' ∷ quote value (b'"' ∷ k)
  print (list ts) k = b'[' ∷ print_terms ts b']' k
  print (tuple ts) k = b'(' ∷ print_terms ts b')' k
  print (app name ts) k = name ++ (b'(' ∷ print_terms ts b')' k)

  pub print_terms : Terms → ℕ → List ℕ → List ℕ
  print_terms nil close k = close ∷ k
  print_terms (cons t ts) close k = print t (print_more ts close k)

  pub print_more : Terms → ℕ → List ℕ → List ℕ
  print_more nil close k = close ∷ k
  print_more (cons t ts) close k = b',' ∷ print t (print_more ts close k)

-- Each constructor is named by letters, digits, `_` and `-`.
unfoldable mutual
  pub IsNamed : Term → Type 0
  IsNamed (str value) = Unit
  IsNamed (list ts) = AreNamed ts
  IsNamed (tuple ts) = AreNamed ts
  IsNamed (app name ts) = (is_empty name ≡ false) × (all is_name name ≡ true) × AreNamed ts

  pub AreNamed : Terms → Type 0
  AreNamed nil = Unit
  AreNamed (cons t ts) = IsNamed t × AreNamed ts

escape-lt : (c : ℕ) (k : List ℕ) → length k < length (escape c k)
unfolding escape
escape-lt c k = ground arith

quote-le : (s : Text) (k : List ℕ) → length k ≤ length (quote s k)
unfolding quote
quote-le [] k = omega arith
quote-le (c ∷ s) k = omega (arith, quote-le s k, escape-lt c (quote s k))

pub append-le : (s k : List ℕ) → length k ≤ length (s ++ k)
append-le [] k = omega arith
append-le (c ∷ s) k = omega (arith, append-le s k)

mutual
  unfolding print print_terms print_more

  pub print-lt : (t : Term) (k : List ℕ) → length k < length (print t k)
  print-lt (str value) k = omega (arith, quote-le value (b'"' ∷ k))
  print-lt (list ts) k = omega (arith, print_terms-lt ts b']' k)
  print-lt (tuple ts) k = omega (arith, print_terms-lt ts b')' k)
  print-lt (app name ts) k =
      omega (arith, print_terms-lt ts b')' k, append-le name (b'(' ∷ print_terms ts b')' k))

  pub print_terms-lt :
      (ts : Terms) (close : ℕ) (k : List ℕ) → length k < length (print_terms ts close k)
  print_terms-lt nil close k = omega arith
  print_terms-lt (cons t ts) close k =
      omega (arith, print_more-lt ts close k, print-lt t (print_more ts close k))

  pub print_more-lt :
      (ts : Terms) (close : ℕ) (k : List ℕ) → length k < length (print_more ts close k)
  print_more-lt nil close k = omega arith
  print_more-lt (cons t ts) close k =
      omega (arith, print_more-lt ts close k, print-lt t (print_more ts close k))
