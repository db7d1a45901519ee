-- ===== src/Drv/Settled.antt =====
-- crates/nix-build-forest/src/drv.rs: what parsing comes to.
use mandala.Base.{
  ℕ, ◌+◌, ◌*◌, ◌≤◌, ◌≡◌, refl, Bool, true, false, List, if◌then◌else◌, length, arith,
}
use mandala.Base.Order.{list_ord, beq}
use mandala.Base.Text.{text, is_empty}
use mandala.Forest.State.{Derivation}
use mandala.Drv.Term.{Term, app, list, tuple, str, nil, cons}
use mandala.Drv.Parse.{
  Parser, new_parser, Outcome, done, failed, out_of_fuel, ◌>>=◌, skip_ws, term, from_term, finish,
  parse_derivation,
}
use mandala.Drv.Ends.{Placed, Ends, skip_lem, length_of_empty, term-Ends}

module _ (total : ℕ) where
  -- What parsing came to: all of the input was read, or an error points into it.
  abbrev pub Settled : Outcome Derivation → Type 0
  Settled (done d p) = p.at ≡ total
  Settled (failed e) = e.offset ≤ total
  Settled out_of_fuel = ⊥

  if_Settled :
      (b : Bool) (x y : Outcome Derivation)
      → (b ≡ true → Settled x)
      → (b ≡ false → Settled y)
      → Settled (if b then x else y)
  if_Settled true x y h k = h refl
  if_Settled false x y h k = k refl

  from_term-Settled : (t : Term) (p : Parser) → p.at ≡ total → Settled (from_term t p)
  from_term-Settled (app name (cons outputs (cons inputs args))) p h =
      if_Settled (beq name (text "Derive")) _ _ (λ _. h) (λ _. omega arith)
  from_term-Settled (app name (cons outputs nil)) p h = omega arith
  from_term-Settled (app name nil) p h = omega arith
  from_term-Settled (list ts) p h = omega arith
  from_term-Settled (tuple ts) p h = omega arith
  from_term-Settled (str value) p h = omega arith

  finish-Settled : (t : Term) (p : Parser) → Placed total p → Settled (finish t p)
  finish-Settled t p at =
      let skipped = skip_lem p.rest p.at in
      let q = skip_ws p in
      if_Settled (is_empty q.rest) _ _
        (λ e. from_term-Settled t q (omega (arith, length_of_empty q.rest e))) (λ e. omega arith)

  then_Settled : (n : ℕ) (o : Outcome Term) → Ends total n o → Settled (o >>= finish)
  then_Settled n (done t p) e = finish-Settled t p e.1
  then_Settled n (failed x) e = e
  then_Settled n out_of_fuel e = e

-- The parser ends on every input, whatever the bytes are: it returns a derivation, and then has
-- read the input to its end, or it returns an error whose offset is not behind that end.
pub parse_derivation-Settled : (input : List ℕ) → Settled (length input) (parse_derivation input)
unfolding parse_derivation
parse_derivation-Settled input =
    then_Settled (length input) (length input) (term (2 * length input + 1) (new_parser input)) (
      term-Ends (length input) (2 * length input + 1) (new_parser input) (omega arith)
        (omega arith))
