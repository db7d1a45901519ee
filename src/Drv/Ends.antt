-- ===== src/Drv/Ends.antt =====
-- crates/nix-build-forest/src/drv.rs: that the parser ends, and where its errors point.
use mandala.Base.{
  ℕ, zero, suc, ◌+◌, ◌*◌, ◌≤◌, ◌<◌, ◌≡◌, refl, Bool, true, false, List, [], ◌∷◌, ◌++◌,
  if◌then◌else◌, ◌==◌, length, arith, Bool-cases, inl, inr,
}
use mandala.Base.Order.{list_ord}
use mandala.Base.Text.{Text, is_empty}
use mandala.Drv.Term.{Term, app, list, tuple, str, nil, cons}
use mandala.Drv.Parse.{
  Parser, Outcome, done, failed, out_of_fuel, ◌>>=◌, skip, skip_ws, take_byte, take, expect,
  name_end, ident, string_body, string, Loop, comma_terms, sequence, application, dispatch,
  after_term, term, terms, unescape,
}

pub skip_lem :
    (s : List ℕ) (at : ℕ)
    → (length (skip s at).rest ≤ length s)
      × ((skip s at).at + length (skip s at).rest ≡ at + length s)
unfolding skip
skip_lem [] at = (omega arith, refl)
skip_lem (c ∷ s) at = ground (arith, skip_lem s (at + 1))

abbrev cost : Bool → ℕ
cost true = 1
cost false = 0

take_byte_lem :
    (byte : ℕ) (s : List ℕ) (at : ℕ)
    → (length (take_byte byte s at).1.rest + cost (take_byte byte s at).0 ≡ length s)
      × ((take_byte byte s at).1.at + length (take_byte byte s at).1.rest ≡ at + length s)
take_byte_lem byte [] at = (omega arith, refl)
take_byte_lem byte (c ∷ s) at = ground arith

take_lem :
    (byte : ℕ) (p : Parser)
    → (length (take byte p).1.rest + cost (take byte p).0 ≤ length p.rest)
      × ((take byte p).1.at + length (take byte p).1.rest ≡ p.at + length p.rest)
unfolding take
take_lem byte p =
    omega (arith, skip_lem p.rest p.at, take_byte_lem byte (skip_ws p).rest (skip_ws p).at)

name_end_lem :
    (s : List ℕ) (at : ℕ)
    → (length (name_end s at).0 + length (name_end s at).1.rest ≡ length s)
      × ((name_end s at).1.at + length (name_end s at).1.rest ≡ at + length s)
unfolding name_end
name_end_lem [] at = (omega arith, refl)
name_end_lem (c ∷ s) at = ground (arith, name_end_lem s (at + 1))

pos_of_not_empty : (w : Text) → is_empty w ≡ false → 0 < length w
pos_of_not_empty w h = ground arith

pub length_of_empty : (s : List ℕ) → is_empty s ≡ true → length s ≡ 0
length_of_empty s h = ground arith

module _ (total : ℕ) where
  -- What is read and what is not make up the input.
  abbrev pub Placed : Parser → Type 0
  Placed p = p.at + length p.rest ≡ total

  -- With `n` bytes to read, a value leaves less of them, an error points into the input, and there
  -- was enough fuel.
  abbrev pub Ends {ℓ} : {A : Type ℓ} → ℕ → Outcome A → Type 0
  Ends n (done a p) = length p.rest < n × Placed p
  Ends n (failed e) = e.offset ≤ total
  Ends n out_of_fuel = ⊥

  Ends-mono {ℓ} : {A : Type ℓ} (m n : ℕ) (o : Outcome A) → m ≤ n → Ends m o → Ends n o
  Ends-mono m n (done a p) h e = (omega arith, e.1)
  Ends-mono m n (failed f) h e = e
  Ends-mono m n out_of_fuel h e = absurd e

  bind-Ends {ℓ κ} :
      {A : Type ℓ} {B : Type κ} (n : ℕ) (o : Outcome A) (f : A → Parser → Outcome B)
      → Ends n o
      → ((a : A) (p : Parser) → length p.rest < n → Placed p → Ends (length p.rest) (f a p))
      → Ends n (o >>= f)
  bind-Ends n (done a p) f e k = Ends-mono (length p.rest) n (f a p) (omega arith) (k a p e.0 e.1)
  bind-Ends n (failed x) f e k = e
  bind-Ends n out_of_fuel f e k = absurd e

  map-Ends {ℓ κ} :
      {A : Type ℓ} {B : Type κ} (n : ℕ) (o : Outcome A) (f : A → B)
      → Ends n o
      → Ends n (o >>= λ a q. done (f a) q)
  map-Ends n (done a p) f e = e
  map-Ends n (failed x) f e = e
  map-Ends n out_of_fuel f e = e

  if_Ends {ℓ} :
      {A : Type ℓ} (n : ℕ) (b : Bool) (x y : Outcome A)
      → (b ≡ true → Ends n x)
      → (b ≡ false → Ends n y)
      → Ends n (if b then x else y)
  if_Ends n true x y h k = h refl
  if_Ends n false x y h k = k refl

  expect-Ends : (byte : ℕ) (p : Parser) → Placed p → Ends (length p.rest) (expect byte p)
  unfolding expect
  expect-Ends byte p at =
      let read = take_lem byte p in
      if_Ends (length p.rest) (take byte p).0 _ _ (λ e. (ground (arith, read), omega arith))
        (λ e. omega arith)

  ident-Ends : (p : Parser) → Placed p → Ends (length p.rest) (ident p)
  unfolding ident
  ident-Ends p at =
      let q = skip_ws p in
      let skipped = skip_lem p.rest p.at in
      let named = name_end_lem q.rest q.at in
      if_Ends (length p.rest) (is_empty (name_end q.rest q.at).0) _ _ (λ e. omega arith)
        λ e. (omega (arith, pos_of_not_empty _ e), omega arith)

  string_body-Ends :
      (out : Text) (s : List ℕ) (at : ℕ)
      → at + length s ≡ total
      → Ends (length s) (string_body out s at)
  unfolding string_body
  string_body-Ends out [] at h = omega arith
  string_body-Ends out (c ∷ []) at h = ground arith
  string_body-Ends out (c ∷ e ∷ s) at h = elim (Bool-cases (c == b'"')) [
    | inl q ↦ rw (q, string_body) (omega arith, omega arith)
    | inr q ↦ elim (Bool-cases (c == b'\\')) [
      | inl w ↦
          rw (q, string_body)
            (rw w (
              Ends-mono (length s) _ (string_body (out ++ unescape e ∷ []) s (at + 2)) (omega arith)
                (string_body-Ends (out ++ unescape e ∷ []) s (at + 2) (omega arith))))
      | inr w ↦
          rw (q, string_body)
            (rw w (
              Ends-mono (length (e ∷ s)) _ (string_body (out ++ c ∷ []) (e ∷ s) (at + 1))
                (omega arith) (string_body-Ends (out ++ c ∷ []) (e ∷ s) (at + 1) (omega arith))))
    ]
  ]

  string-Ends : (p : Parser) → Placed p → Ends (length p.rest) (string p)
  unfolding string
  string-Ends p at =
      bind-Ends (length p.rest) (expect b'"' p) _ (expect-Ends b'"' p at)
        (λ _ q h here. string_body-Ends [] q.rest q.at here)

  -- A loop that ends on inputs of less than `n` bytes.
  abbrev LoopEnds : ℕ → Loop → Type 0
  LoopEnds n loop =
      (close : ℕ) (p : Parser) → length p.rest < n → Placed p → Ends (length p.rest) (loop close p)

  comma_terms-Ends :
      (loop : Loop) (n : ℕ)
      → LoopEnds n loop
      → (close : ℕ) (p : Parser) → length p.rest < n
      → Placed p
      → Ends (length p.rest) (comma_terms loop close p)
  unfolding comma_terms
  comma_terms-Ends loop n ends close p h at =
      let read = take_lem close (skip_ws p) in
      let skipped = skip_lem p.rest p.at in
      let taken = take close (skip_ws p) in
      if_Ends (length p.rest) taken.0 (done nil taken.1) (loop close taken.1)
        (λ e. (ground (arith, read, skipped), omega arith))
        (λ e.
          Ends-mono (length taken.1.rest) (length p.rest) (loop close taken.1) (omega arith)
            (ends close taken.1 (omega arith) (omega arith)))

  sequence-Ends :
      (loop : Loop) (n : ℕ)
      → LoopEnds n loop
      → (opening close : ℕ) (p : Parser) → length p.rest ≤ n
      → Placed p
      → Ends (length p.rest) (sequence loop opening close p)
  unfolding sequence
  sequence-Ends loop n ends opening close p h at =
      bind-Ends (length p.rest) (expect opening p) _ (expect-Ends opening p at)
        (λ _ q less here. comma_terms-Ends loop n ends close q (omega arith) here)

  application-Ends :
      (loop : Loop) (n : ℕ)
      → LoopEnds n loop
      → (p : Parser) → length p.rest ≤ n
      → Placed p
      → Ends (length p.rest) (application loop p)
  unfolding application
  application-Ends loop n ends p h at =
      bind-Ends (length p.rest) (ident p) _ (ident-Ends p at) λ name q less here.
        bind-Ends (length q.rest) (expect b'(' q) _ (expect-Ends b'(' q here) λ _ r less' here'.
          map-Ends (length r.rest) (comma_terms loop b')' r) (app name)
            (comma_terms-Ends loop n ends b')' r (omega arith) here')

  dispatch-Ends :
      (loop : Loop) (n : ℕ)
      → LoopEnds n loop
      → (s : List ℕ) (p : Parser) → length p.rest ≤ n
      → Placed p
      → Ends (length p.rest) (dispatch loop s p)
  dispatch-Ends loop n ends [] p h at = omega arith
  dispatch-Ends loop n ends (c ∷ s) p h at =
      let m = length p.rest in
      if_Ends m (c == b'"') _ _ (λ _. map-Ends m (string p) str (string-Ends p at))
        λ _.
          if_Ends m (c == b'[') _ _
            (λ _.
              map-Ends m (sequence loop b'[' b']' p) list
                (sequence-Ends loop n ends b'[' b']' p h at))
            λ _.
              if_Ends m (c == b'(') _ _
                (λ _.
                  map-Ends m (sequence loop b'(' b')' p) tuple
                    (sequence-Ends loop n ends b'(' b')' p h at))
                λ _. application-Ends loop n ends p h at

  after_term-Ends :
      (loop : Loop) (n : ℕ)
      → LoopEnds n loop
      → (close : ℕ) (t : Term) (p : Parser) → length p.rest < n
      → Placed p
      → Ends (length p.rest) (after_term (loop close) close t p)
  after_term-Ends loop n ends close t p h at =
      let read = take_lem close p in
      let taken = take close p in
      if_Ends (length p.rest) taken.0 _ _ (λ e. (ground (arith, read), omega arith))
        λ e. Ends-mono (length taken.1.rest) (length p.rest) _ (omega arith) (
          bind-Ends (length taken.1.rest) (expect b',' taken.1) _
            (expect-Ends b',' taken.1 (omega arith))
            λ _ q less here.
              map-Ends (length q.rest) (loop close q) (cons t) (ends close q (omega arith) here))

  mutual
    unfolding term terms

    pub term-Ends :
        (fuel : ℕ) (p : Parser)
        → 2 * length p.rest < fuel
        → Placed p
        → Ends (length p.rest) (term fuel p)
    term-Ends zero p h at = absurd (omega arith)
    term-Ends (suc fuel) p h at =
        let skipped = skip_lem p.rest p.at in
        let q = skip_ws p in
        Ends-mono (length q.rest) (length p.rest) (dispatch (terms fuel) q.rest q) (omega arith) (
          dispatch-Ends (terms fuel) (length q.rest)
            (λ close r shorter here. terms-Ends fuel close r (omega arith) here) q.rest q
            (omega arith) (omega arith))

    terms-Ends :
        (fuel : ℕ) (close : ℕ) (p : Parser)
        → 2 * length p.rest + 1 < fuel
        → Placed p
        → Ends (length p.rest) (terms fuel close p)
    terms-Ends zero close p h at = absurd (omega arith)
    terms-Ends (suc fuel) close p h at =
        bind-Ends (length p.rest) (term fuel p) _ (term-Ends fuel p (omega arith) at)
          λ t q less here.
            after_term-Ends (terms fuel) (length p.rest)
              (λ c r shorter there. terms-Ends fuel c r (omega arith) there) close t q less here
