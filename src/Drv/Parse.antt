-- ===== src/Drv/Parse.antt =====
-- crates/nix-build-forest/src/drv.rs: `Parser` and `parse_derivation`. The input is given as its
-- bytes; a parser is what it has not read and the offset of that.
use mandala.Base.{
  ℕ, zero, suc, ◌+◌, ◌*◌, Bool, true, false, ◌||◌, List, [], ◌∷◌, ◌++◌, if◌then◌else◌, ◌==◌, length,
}
use mandala.Base.Order.{list_ord, beq}
use mandala.Base.Text.{Text, text, is_ascii_alphanumeric, is_empty}
use mandala.Forest.State.{Derivation}
use mandala.Drv.Term.{Term, Terms, app, list, tuple, str, nil, cons, outputs_of, inputs_of}

pub record ParseError : Type 0 where
  pub offset : ℕ
  pub message : Text

pub record Parser : Type 0 where
  pub rest : List ℕ
  pub at : ℕ

abbrev pub new_parser : List ℕ → Parser
new_parser input = record { rest = input; at = 0 }

-- What a parser comes to: a value and what is left of the input, an error, or no more fuel.
pub data Outcome {ℓ} (A : Type ℓ) : Type ℓ where
  done : A → Parser → Outcome A
  failed : ParseError → Outcome A
  out_of_fuel : Outcome A

infixl 5 ◌>>=◌
abbrev pub ◌>>=◌ {ℓ κ} :
    {A : Type ℓ} {B : Type κ} → Outcome A → (A → Parser → Outcome B) → Outcome B
done a p >>= f = f a p
failed e >>= f = failed e
out_of_fuel >>= f = out_of_fuel

-- `self.error(message)`.
abbrev pub error {ℓ} : {A : Type ℓ} → Parser → Text → Outcome A
error p message = failed (record { offset = p.at; message = message })

-- `u8::is_ascii_whitespace`: tab, line feed, form feed, carriage return, space.
abbrev pub is_ascii_whitespace : ℕ → Bool
is_ascii_whitespace c = c == 9 || c == 10 || c == 12 || c == 13 || c == 32

unfoldable pub skip : List ℕ → ℕ → Parser
skip [] at = record { rest = []; at = at }
skip (c ∷ s) at = elim (is_ascii_whitespace c) [
  | true ↦ skip s (at + 1)
  | false ↦ record { rest = c ∷ s; at = at }
]

abbrev pub skip_ws : Parser → Parser
skip_ws p = skip p.rest p.at

abbrev pub take_byte : ℕ → List ℕ → ℕ → Bool × Parser
take_byte byte [] at = (false, record { rest = []; at = at })
take_byte byte (c ∷ s) at =
    if c == byte
    then (true, record { rest = s; at = at + 1 })
    else (false, record { rest = c ∷ s; at = at })

unfoldable pub take : ℕ → Parser → Bool × Parser
take byte p = let q = skip_ws p in take_byte byte q.rest q.at

unfoldable pub expect : ℕ → Parser → Outcome (Unit {0})
unfolding take
expect byte p =
    let taken = take byte p in
    if taken.0 then done tt taken.1 else error taken.1 (text "unexpected token")

abbrev pub is_name : ℕ → Bool
is_name c = is_ascii_alphanumeric c || c == b'_' || c == b'-'

-- The characters of a name at the front, and where it ends.
unfoldable pub name_end : List ℕ → ℕ → Text × Parser
name_end [] at = ([], record { rest = []; at = at })
name_end (c ∷ s) at =
    let more = name_end s (at + 1) in
    elim (is_name c) [
      | true ↦ (c ∷ more.0, more.1)
      | false ↦ ([], record { rest = c ∷ s; at = at })
    ]

unfoldable pub ident : Parser → Outcome Text
unfolding name_end
ident p =
    let q = skip_ws p in
    let found = name_end q.rest q.at in
    if is_empty found.0 then error q (text "expected constructor name") else done found.0 found.1

-- A byte is read as the code point of that number.
abbrev pub unescape : ℕ → ℕ
unescape c = if c == b'n' then 10 else if c == b'r' then 13 else if c == b't' then 9 else c

-- The loop over the bytes of a string behind its quote.
unfoldable pub string_body : (out : Text) → List ℕ → ℕ → Outcome Text
string_body out [] at = error (record { rest = []; at = at }) (text "unterminated string")
string_body out (c ∷ []) at = elim (c == b'"') [
  | true ↦ done out (record { rest = []; at = at + 1 })
  | false ↦
      if c == b'\\'
      then error (record { rest = []; at = at + 1 }) (text "unterminated escape")
      else error (record { rest = []; at = at + 1 }) (text "unterminated string")
]
string_body out (c ∷ e ∷ s) at = elim (c == b'"') [
  | true ↦ done out (record { rest = e ∷ s; at = at + 1 })
  | false ↦ elim (c == b'\\') [
    | true ↦ string_body (out ++ unescape e ∷ []) s (at + 2)
    | false ↦ string_body (out ++ c ∷ []) (e ∷ s) (at + 1)
  ]
]

unfoldable pub string : Parser → Outcome Text
unfolding expect string_body
string p = expect b'"' p >>= λ _ q. string_body [] q.rest q.at

-- The loop of `comma_terms`, which is passed to what calls it.
abbrev pub Loop : Type 0
Loop = ℕ → Parser → Outcome Terms

unfoldable pub comma_terms : Loop → ℕ → Parser → Outcome Terms
unfolding take
comma_terms loop close p =
    let taken = take close (skip_ws p) in if taken.0 then done nil taken.1 else loop close taken.1

unfoldable pub sequence : Loop → (opening close : ℕ) → Parser → Outcome Terms
unfolding expect comma_terms
sequence loop opening close p = expect opening p >>= λ _ q. comma_terms loop close q

unfoldable pub application : Loop → Parser → Outcome Term
unfolding ident expect comma_terms
application loop p = ident p >>= λ name q.
    expect b'(' q >>= λ _ r. comma_terms loop b')' r >>= λ args s. done (app name args) s

-- The match on the byte at the front.
abbrev pub dispatch : Loop → List ℕ → Parser → Outcome Term
dispatch loop [] p = error p (text "unexpected end of input")
dispatch loop (c ∷ s) p =
    if c == b'"'
    then (string p >>= λ value q. done (str value) q)
    else if c == b'['
    then (sequence loop b'[' b']' p >>= λ ts q. done (list ts) q)
    else if c == b'('
    then (sequence loop b'(' b')' p >>= λ ts q. done (tuple ts) q)
    else application loop p

-- What the loop does after a term.
abbrev pub after_term : (Parser → Outcome Terms) → ℕ → Term → Parser → Outcome Terms
after_term loop close t p =
    let taken = take close p in
    if taken.0
    then done (cons t nil) taken.1
    else (expect b',' taken.1 >>= λ _ q. loop q >>= λ ts r. done (cons t ts) r)

-- Each term and each round of a loop costs a unit of fuel.
unfoldable mutual
  pub term : ℕ → Parser → Outcome Term
  term zero p = out_of_fuel
  term (suc fuel) p = let q = skip_ws p in dispatch (terms fuel) q.rest q

  pub terms : ℕ → Loop
  terms zero close p = out_of_fuel
  terms (suc fuel) close p = term fuel p >>= λ t q. after_term (terms fuel close) close t q

abbrev pub from_args : Text → Terms → Parser → Outcome Derivation
from_args name (cons outputs (cons inputs args)) p =
    if beq name (text "Derive")
    then done (record { outputs = outputs_of outputs; input_drvs = inputs_of inputs }) p
    else error p (text "expected Derive outputs and inputDrvs")
from_args name _ p = error p (text "expected Derive outputs and inputDrvs")

abbrev pub from_term : Term → Parser → Outcome Derivation
from_term (app name args) p = from_args name args p
from_term _ p = error p (text "expected Derive application")

-- What follows the term.
abbrev pub finish : Term → Parser → Outcome Derivation
finish t p =
    let q = skip_ws p in if is_empty q.rest then from_term t q else error q (text "trailing input")

-- Enough fuel for any input: see `parse_derivation_ends`.
unfoldable pub parse_derivation : List ℕ → Outcome Derivation
unfolding term skip
parse_derivation input = term (2 * length input + 1) (new_parser input) >>= finish
