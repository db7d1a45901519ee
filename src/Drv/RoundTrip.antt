-- ===== src/Drv/RoundTrip.antt =====
-- crates/nix-build-forest/src/drv.rs: that what was printed is parsed.
use mandala.Base.{
  ℕ, zero, suc, ◌+◌, ◌*◌, ◌-◌, ◌≤◌, ◌<◌, ◌≡◌, refl, true, false, List, [], ◌∷◌, ◌++◌, ◌==◌, length,
  arith, all, &&_true,
}
use mandala.Base.Text.{Text, is_empty}
use mandala.Drv.Term.{Term, Terms, app, list, tuple, str, nil, cons}
use mandala.Drv.Parse.{
  Parser, Outcome, done, ◌>>=◌, is_ascii_whitespace, skip, take, expect, is_name, ident, string,
  Loop, comma_terms, sequence, application, dispatch, after_term, term, terms,
}
use mandala.Drv.Print.{
  quote, print, print_terms, print_more, IsNamed, AreNamed, print-lt, append-le,
}
use mandala.Drv.Front.{
  Reads, string_body-quote, print-starts, Closes, square-Closes, round-Closes, front, skip-black,
  take-close, take-other, ident-name,
}

bind-Reads {ℓ κ} :
    {A : Type ℓ} {B : Type κ} (o : Outcome A) (f : A → Parser → Outcome B) (a : A) (b : B)
    (j k : List ℕ)
    → Reads o a j
    → ((at : ℕ) → Reads (f a (front j at)) b k)
    → Reads (o >>= f) b k
bind-Reads o f a b j k (at, e) next = let (n, h) = next at in (n, rw e h)

expect-Reads :
    (byte : ℕ) (s : List ℕ) (at : ℕ)
    → is_ascii_whitespace byte ≡ false
    → (byte == byte) ≡ true
    → Reads (expect byte (front (byte ∷ s) at)) tt s
unfolding expect take
expect-Reads byte s at black same = (at + 1, rw (skip-black byte s at black) (rw same refl))

string-print :
    (value : Text) (k : List ℕ) (at : ℕ)
    → Reads (string (front (b'"' ∷ quote value (b'"' ∷ k)) at)) value k
unfolding string
string-print value k at =
    bind-Reads (expect b'"' (front (b'"' ∷ quote value (b'"' ∷ k)) at)) _ tt value
      (quote value (b'"' ∷ k)) k (expect-Reads b'"' (quote value (b'"' ∷ k)) at refl refl)
      (λ n. string_body-quote [] value k n)

-- A loop that reads the printed terms of any sequence of at most `n` bytes.
abbrev LoopReads : ℕ → Loop → Type 0
LoopReads n loop =
    (t : Term) (ts : Terms) (close : ℕ) (k : List ℕ) (at : ℕ)
    → Closes close
    → IsNamed t
    → AreNamed ts
    → length (print t (print_more ts close k)) ≤ n
    → Reads (loop close (front (print t (print_more ts close k)) at)) (cons t ts) k

comma_terms-print :
    (loop : Loop) (n : ℕ)
    → LoopReads n loop
    → (ts : Terms) (close : ℕ) (k : List ℕ) (at : ℕ) → Closes close
    → AreNamed ts
    → length (print_terms ts close k) ≤ n
    → Reads (comma_terms loop close (front (print_terms ts close k) at)) ts k
unfolding comma_terms print_terms AreNamed
comma_terms-print loop n reads nil close k at h named le =
    (at + 1, rw (skip-black close k at h.black) (rw (take-close close k at h) refl))
comma_terms-print loop n reads (cons t ts) close k at h named le =
    let (c, s, e, start) = print-starts t (print_more ts close k) named.0 in
    let (m, read) = reads t ts close k at h named.0 named.1 le in
    (
      m,
      rw e (
          rw (skip-black c s at start.0)
            (rw (take-other close c s at start.0 (h.ends_no_term c start)) (rw e at read))),
    )

after_term-print :
    (loop : Loop) (n : ℕ)
    → LoopReads n loop
    → (t : Term) (ts : Terms) (close : ℕ) (k : List ℕ) (at : ℕ) → Closes close
    → AreNamed ts
    → length (print_more ts close k) ≤ n + 1
    → Reads (after_term (loop close) close t (front (print_more ts close k) at)) (cons t ts) k
unfolding print_more AreNamed
after_term-print loop n reads t nil close k at h named le =
    (at + 1, rw (take-close close k at h) refl)
after_term-print loop n reads t (cons u ts) close k at h named le =
    let s = print u (print_more ts close k) in
    let (m, e) = expect-Reads b',' s at refl refl in
    let (j, read) = reads u ts close k m h named.0 named.1 (omega arith) in
    (j, rw (take-other close b',' s at refl h.no_comma) (rw e (rw read refl)))

application-print :
    (loop : Loop) (n : ℕ)
    → LoopReads n loop
    → (name : Text) (ts : Terms) (k : List ℕ) (at : ℕ) → is_empty name ≡ false
    → all is_name name ≡ true
    → AreNamed ts
    → length (print_terms ts b')' k) ≤ n
    → Reads (application loop (front (name ++ (b'(' ∷ print_terms ts b')' k)) at)) (app name ts) k
unfolding application
application-print loop n reads name ts k at some_name letters named le =
    let s = print_terms ts b')' k in
    bind-Reads (ident (front (name ++ (b'(' ∷ s)) at)) _ name (app name ts) (b'(' ∷ s) k
      (ident-name name s at some_name letters)
      λ m.
        bind-Reads (expect b'(' (front (b'(' ∷ s) m)) _ tt (app name ts) s k
          (expect-Reads b'(' s m refl refl)
          λ j.
            bind-Reads (comma_terms loop b')' (front s j)) (λ args q. done (app name args) q) ts
              (app name ts) k k (comma_terms-print loop n reads ts b')' k j round-Closes named le)
              λ i. (i, refl)

sequence-print :
    (loop : Loop) (n : ℕ)
    → LoopReads n loop
    → (opening close : ℕ) (ts : Terms) (k : List ℕ) (at : ℕ) → is_ascii_whitespace opening ≡ false
    → (opening == opening) ≡ true
    → Closes close
    → AreNamed ts
    → length (print_terms ts close k) ≤ n
    → Reads (sequence loop opening close (front (opening ∷ print_terms ts close k) at)) ts k
unfolding sequence
sequence-print loop n reads opening close ts k at black same h named le =
    let s = print_terms ts close k in
    bind-Reads (expect opening (front (opening ∷ s) at)) _ tt ts s k
      (expect-Reads opening s at black same)
      λ m. comma_terms-print loop n reads ts close k m h named le

-- A name is none of the bytes that begin another term.
name-dispatch :
    (loop : Loop) (c : ℕ) (s : List ℕ) (p : Parser)
    → is_name c ≡ true
    → dispatch loop (c ∷ s) p ≡ application loop p
name-dispatch loop c s p h = rw (no_quote c h, no_square c h, no_round c h) refl
  where
    no_quote : (d : ℕ) → is_name d ≡ true → (d == b'"') ≡ false
    no_quote d e = ground arith

    no_square : (d : ℕ) → is_name d ≡ true → (d == b'[') ≡ false
    no_square d e = ground arith

    no_round : (d : ℕ) → is_name d ≡ true → (d == b'(') ≡ false
    no_round d e = ground arith

dispatch-print :
    (loop : Loop) (n : ℕ)
    → LoopReads n loop
    → (t : Term) (k : List ℕ) (at : ℕ) → IsNamed t
    → length (print t k) ≤ n + 1
    → Reads (dispatch loop (print t k) (front (print t k) at)) t k
unfolding print IsNamed
dispatch-print loop n reads (str value) k at h le =
    let (m, e) = string-print value k at in (m, rw e refl)
dispatch-print loop n reads (list ts) k at h le =
    let (m, e) =
      sequence-print loop n reads b'[' b']' ts k at refl refl square-Closes h (omega arith) in
    (m, rw e refl)
dispatch-print loop n reads (tuple ts) k at h le =
    let (m, e) =
      sequence-print loop n reads b'(' b')' ts k at refl refl round-Closes h (omega arith) in
    (m, rw e refl)
dispatch-print loop n reads (app [] ts) k at h le = absurd (cc h.0)
dispatch-print loop n reads (app (c ∷ name) ts) k at h le =
    let s = b'(' ∷ print_terms ts b')' k in
    let short = append-le name s in
    let first = (&&_true (is_name c) (all is_name name) h.1).0 in
    rw (name-dispatch loop c (name ++ s) (front (c ∷ name ++ s) at) first)
      (application-print loop n reads (c ∷ name) ts k at h.0 h.1 h.2 (omega arith))

skip-print :
    (t : Term) (k : List ℕ) (at : ℕ) → IsNamed t → skip (print t k) at ≡ front (print t k) at
skip-print t k at h = let (c, s, e, start) = print-starts t k h in rw e (skip-black c s at start.0)

mutual
  unfolding term terms

  pub term-print :
      (fuel : ℕ) (t : Term) (k : List ℕ) (at : ℕ)
      → IsNamed t
      → 2 * length (print t k) < fuel
      → Reads (term fuel (front (print t k) at)) t k
  term-print zero t k at h le = absurd (omega arith)
  term-print (suc fuel) t k at h le = rw (skip-print t k at h) (
      dispatch-print (terms fuel) (length (print t k) - 1)
        (λ u us close j n closing named more short.
          terms-print fuel u us close j n closing named more (omega (arith, print-lt t k)))
        t k at h (omega arith))

  terms-print :
      (fuel : ℕ) (t : Term) (ts : Terms) (close : ℕ) (k : List ℕ) (at : ℕ)
      → Closes close
      → IsNamed t
      → AreNamed ts
      → 2 * length (print t (print_more ts close k)) + 1 < fuel
      → Reads (terms fuel close (front (print t (print_more ts close k)) at)) (cons t ts) k
  terms-print zero t ts close k at closing h named le = absurd (omega arith)
  terms-print (suc fuel) t ts close k at closing h named le =
      let s = print_more ts close k in
      let short = print-lt t s in
      bind-Reads (term fuel (front (print t s) at)) (λ u q. after_term (terms fuel close) close u q)
        t (cons t ts) s k (term-print fuel t s at h (omega arith))
        λ n.
          after_term-print (terms fuel) (length s - 1)
            (λ u us c j m closing' named' more shorter.
              terms-print fuel u us c j m closing' named' more (omega arith))
            t ts close k n closing named (omega arith)
