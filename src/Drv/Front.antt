-- ===== src/Drv/Front.antt =====
-- crates/nix-build-forest/src/drv.rs: what the parser does at the front of printed text.
use mandala.Base.{
  ℕ, ◌+◌, ◌≡◌, refl, ◌∙◌, Bool, true, false, List, [], ◌∷◌, ◌++◌, ◌==◌, arith, Bool-cases, inl, inr,
  all, ==_iff, &&_true,
}
use mathlib.Core.List.{append_assoc, append-nil}
use mandala.Base.Text.{Text, is_empty}
use mandala.Drv.Term.{Term, app, list, tuple, str}
use mandala.Drv.Parse.{
  Parser, Outcome, done, is_ascii_whitespace, skip, take_byte, take, is_name, name_end, ident,
  string_body,
}
use mandala.Drv.Print.{escape, quote, print, print_terms, IsNamed}

-- A value was read, and this is left.
abbrev pub Reads {ℓ} : {A : Type ℓ} → Outcome A → A → List ℕ → Type ℓ
Reads {A = A} o a k = (at : ℕ) × (o ≡ done a (record { rest = k; at = at }))

string_body-plain :
    (out : Text) (c : ℕ) (s : List ℕ) (at : ℕ)
    → (c == b'"') ≡ false
    → (c == b'\\') ≡ false
    → string_body out (c ∷ s) at ≡ string_body (out ++ c ∷ []) s (at + 1)
unfolding string_body
string_body-plain out c [] at e f = rw (e, f, string_body) refl
string_body-plain out c (d ∷ s) at e f = rw (e, string_body) (rw f refl)

-- An escaped character is read as it was.
string_body-escape :
    (out : Text) (c : ℕ) (s : List ℕ) (at : ℕ)
    → (n : ℕ) × (string_body out (escape c s) at ≡ string_body (out ++ c ∷ []) s n)
unfolding string_body escape
string_body-escape out c s at = elim (Bool-cases (c == b'"')) [
  | inl e ↦ (at + 2, rw (e, (==_iff c b'"').0 e) refl)
  | inr e ↦ elim (Bool-cases (c == b'\\')) [
    | inl f ↦ (at + 2, rw (e, f) (rw ((==_iff c b'\\').0 f) refl))
    | inr f ↦ elim (Bool-cases (c == 10)) [
      | inl g ↦ (at + 2, rw (e, f, g) (rw ((==_iff c 10).0 g) refl))
      | inr g ↦ elim (Bool-cases (c == 13)) [
        | inl h ↦ (at + 2, rw (e, f, g, h) (rw ((==_iff c 13).0 h) refl))
        | inr h ↦ elim (Bool-cases (c == 9)) [
          | inl i ↦ (at + 2, rw (e, f, g, h, i) (rw ((==_iff c 9).0 i) refl))
          | inr i ↦ (at + 1, rw (e, f, g, h, i) (string_body-plain out c s at e f))
        ]
      ]
    ]
  ]
]

pub string_body-quote :
    (out s : Text) (k : List ℕ) (at : ℕ)
    → Reads (string_body out (quote s (b'"' ∷ k)) at) (out ++ s) k
unfolding string_body quote
string_body-quote out [] [] at = (at + 1, rw (append-nil out) refl)
string_body-quote out [] (c ∷ k) at = (at + 1, rw (append-nil out) refl)
string_body-quote out (c ∷ s) k at =
    let (n, step) = string_body-escape out c (quote s (b'"' ∷ k)) at in
    let (m, rest) = string_body-quote (out ++ c ∷ []) s k n in
    (m, step ∙ rest ∙ rw (append_assoc out (c ∷ []) s) refl)

-- What a term can begin with.
abbrev pub IsStart : ℕ → Type 0
IsStart c = (is_ascii_whitespace c ≡ false) × ((c == b']') ≡ false) × ((c == b')') ≡ false)

pub is_name-IsStart : (c : ℕ) → is_name c ≡ true → IsStart c
is_name-IsStart c h = ground arith

pub print-starts :
    (t : Term) (k : List ℕ) → IsNamed t → (c : ℕ) × (s : List ℕ) × (print t k ≡ c ∷ s) × IsStart c
unfolding print IsNamed
print-starts (str value) k h = (b'"', quote value (b'"' ∷ k), refl, (refl, refl, refl))
print-starts (list ts) k h = (b'[', print_terms ts b']' k, refl, (refl, refl, refl))
print-starts (tuple ts) k h = (b'(', print_terms ts b')' k, refl, (refl, refl, refl))
print-starts (app [] ts) k h = absurd (cc h.0)
print-starts (app (c ∷ name) ts) k h = (
  c,
  name ++ (b'(' ∷ print_terms ts b')' k),
  refl,
  is_name-IsStart c (&&_true (is_name c) (all is_name name) h.1).0,
)

-- A byte that closes a sequence.
pub record Closes (close : ℕ) : Type 0 where
  pub black : is_ascii_whitespace close ≡ false
  pub is_itself : (close == close) ≡ true
  pub no_comma : ◌≡◌ {A = Bool} (44 == close) false
  pub ends_no_term : (c : ℕ) → IsStart c → (c == close) ≡ false

pub square-Closes : Closes b']'
square-Closes = record {
  black = refl;
  is_itself = refl;
  no_comma = refl;
  ends_no_term = λ c h. h.1;
}

pub round-Closes : Closes b')'
round-Closes = record { black = refl; is_itself = refl; no_comma = refl; ends_no_term = λ c h. h.2 }

abbrev pub front : List ℕ → ℕ → Parser
front s at = record { rest = s; at = at }

pub skip-black :
    (c : ℕ) (s : List ℕ) (at : ℕ)
    → is_ascii_whitespace c ≡ false
    → skip (c ∷ s) at ≡ front (c ∷ s) at
unfolding skip
skip-black c s at h = rw (h, skip) refl

take-black :
    (byte c : ℕ) (s : List ℕ) (at : ℕ)
    → is_ascii_whitespace c ≡ false
    → take byte (front (c ∷ s) at) ≡ take_byte byte (c ∷ s) at
unfolding take
take-black byte c s at h = rw (skip-black c s at h) refl

pub take-close :
    (close : ℕ) (s : List ℕ) (at : ℕ)
    → Closes close
    → take close (front (close ∷ s) at) ≡ (true, front s (at + 1))
take-close close s at h = take-black close close s at h.black ∙ rw (h.is_itself) refl

pub take-other :
    (close c : ℕ) (s : List ℕ) (at : ℕ)
    → is_ascii_whitespace c ≡ false
    → (c == close) ≡ false
    → take close (front (c ∷ s) at) ≡ (false, front (c ∷ s) at)
take-other close c s at black other = take-black close c s at black ∙ rw other refl

name_end-name :
    (name : Text) (k : List ℕ) (at : ℕ)
    → all is_name name ≡ true
    → (n : ℕ) × (name_end (name ++ (b'(' ∷ k)) at ≡ (name, front (b'(' ∷ k) n))
unfolding name_end
name_end-name [] k at h = (at, refl)
name_end-name (c ∷ name) k at h =
    let (here, more) = &&_true (is_name c) (all is_name name) h in
    let (n, e) = name_end-name name k (at + 1) more in (n, rw (here, name_end) (rw e refl))

pub ident-name :
    (name : Text) (k : List ℕ) (at : ℕ)
    → is_empty name ≡ false
    → all is_name name ≡ true
    → Reads (ident (front (name ++ (b'(' ∷ k)) at)) name (b'(' ∷ k)
unfolding ident
ident-name [] k at e h = absurd (cc e)
ident-name (c ∷ name) k at e h =
    let black = (is_name-IsStart c (&&_true (is_name c) (all is_name name) h).0).0 in
    let (n, found) = name_end-name (c ∷ name) k at h in
    (n, rw (skip-black c (name ++ (b'(' ∷ k)) at black) (rw found refl))
