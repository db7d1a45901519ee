-- ===== src/Drv/Derivation.antt =====
-- crates/nix-build-forest/src/drv.rs: that a printed derivation is parsed.
use mandala.Base.{ℕ, ◌+◌, ◌*◌, ◌≡◌, refl, sym, ap, ◌∙◌, List, [], ◌∷◌, ◌++◌, length, arith}
use mathlib.Core.List.{append_assoc, append-nil}
use mandala.Base.Order.{list_ord}
use mandala.Base.Map.{Map, insert, IsSorted, insert-last}
use mandala.Base.Text.{Text, text}
use mandala.Forest.State.{Derivation}
use mandala.Drv.Term.{
  Term, Terms, app, list, tuple, str, nil, cons, strings, add_outputs, add_inputs,
}
use mandala.Drv.Parse.{done, skip, parse_derivation}
use mandala.Drv.Print.{print, IsNamed, AreNamed}
use mandala.Drv.Front.{Reads, front}
use mandala.Drv.RoundTrip.{term-print}
use mandala.Drv.Settled.{Settled, parse_derivation-Settled}

unfoldable pub str_terms : List Text → Terms
str_terms [] = nil
str_terms (value ∷ values) = cons (str value) (str_terms values)

-- The outputs of a derivation, with what else is said of each.
unfoldable pub output_terms : (Text → Terms) → Map Text Text → Terms
output_terms more [] = nil
output_terms more ((name, path) ∷ outputs) =
    cons (tuple (cons (str name) (cons (str path) (more name)))) (output_terms more outputs)

unfoldable pub input_terms : Map Text (List Text) → Terms
input_terms [] = nil
input_terms ((path, names) ∷ inputs) =
    cons (tuple (cons (str path) (cons (list (str_terms names)) nil))) (input_terms inputs)

-- The term of a `.drv` file: `args` are its sources, system, builder, arguments and environment.
abbrev pub derive_term : (Text → Terms) → Terms → Derivation → Term
derive_term more args d =
    app (text "Derive")
      (cons (list (output_terms more d.outputs)) (cons (list (input_terms d.input_drvs)) args))

strings-str_terms : (values : List Text) → strings (str_terms values) ≡ values
unfolding strings str_terms
strings-str_terms [] = refl
strings-str_terms (value ∷ values) = ap (λ rest. value ∷ rest) (strings-str_terms values)

add_outputs-terms :
    (more : Text → Terms) (m before : Map Text Text)
    → IsSorted (before ++ m)
    → add_outputs (output_terms more m) before ≡ before ++ m
unfolding add_outputs output_terms
add_outputs-terms more [] before h = sym (append-nil before)
add_outputs-terms more ((name, path) ∷ m) before h =
    let last = insert-last before name path m h in
    let regroup = append_assoc before ((name, path) ∷ []) m in
    ap (λ outputs. add_outputs (output_terms more m) outputs) last
    ∙ add_outputs-terms more m (before ++ (name, path) ∷ []) (rw regroup h)
    ∙ regroup

add_inputs-terms :
    (m before : Map Text (List Text))
    → IsSorted (before ++ m)
    → add_inputs (input_terms m) before ≡ before ++ m
unfolding add_inputs input_terms
add_inputs-terms [] before h = sym (append-nil before)
add_inputs-terms ((path, names) ∷ m) before h =
    let last = insert-last before path names m h in
    let regroup = append_assoc before ((path, names) ∷ []) m in
    ap (λ found. add_inputs (input_terms m) (insert before path found)) (strings-str_terms names)
    ∙ ap (λ inputs. add_inputs (input_terms m) inputs) last
    ∙ add_inputs-terms m (before ++ (path, names) ∷ []) (rw regroup h)
    ∙ regroup

str_terms-AreNamed : (values : List Text) → AreNamed (str_terms values)
unfolding str_terms AreNamed IsNamed
str_terms-AreNamed [] = tt
str_terms-AreNamed (value ∷ values) = (tt, str_terms-AreNamed values)

output_terms-AreNamed :
    (more : Text → Terms) (m : Map Text Text)
    → ((name : Text) → AreNamed (more name))
    → AreNamed (output_terms more m)
unfolding output_terms AreNamed IsNamed
output_terms-AreNamed more [] h = tt
output_terms-AreNamed more ((name, path) ∷ m) h =
    ((tt, (tt, h name)), output_terms-AreNamed more m h)

input_terms-AreNamed : (m : Map Text (List Text)) → AreNamed (input_terms m)
unfolding input_terms AreNamed IsNamed
input_terms-AreNamed [] = tt
input_terms-AreNamed ((path, names) ∷ m) =
    ((tt, (str_terms-AreNamed names, tt)), input_terms-AreNamed m)

-- What is read off a printed derivation, up to the offset.
derive_term-Reads :
    (more : Text → Terms) (args : Terms) (d : Derivation)
    → IsSorted d.outputs
    → IsSorted d.input_drvs
    → ((name : Text) → AreNamed (more name))
    → AreNamed args
    → Reads (parse_derivation (print (derive_term more args d) [])) d []
unfolding parse_derivation skip IsNamed AreNamed
derive_term-Reads more args d outs ins fields named =
    let input = print (derive_term more args d) [] in
    let (at, read) =
      term-print (2 * length input + 1) (derive_term more args d) [] 0
        (
          refl,
          refl,
          (output_terms-AreNamed more d.outputs fields, (input_terms-AreNamed d.input_drvs, named)),
        )
        (omega arith) in
    (
      at,
      rw read (
          rw (add_outputs-terms more d.outputs [] outs)
            (rw (add_inputs-terms d.input_drvs [] ins) refl)),
    )

-- What Nix writes of a derivation is parsed to that derivation, and the input is read to its end,
-- whatever else is said of the outputs and whatever arguments follow, where each constructor in
-- those has a name of letters, digits, `_` and `-`; a byte stands for the character of its number.
pub parse_derivation-print :
    (more : Text → Terms) (args : Terms) (d : Derivation)
    → IsSorted d.outputs
    → IsSorted d.input_drvs
    → ((name : Text) → AreNamed (more name))
    → AreNamed args
    → parse_derivation (print (derive_term more args d) [])
      ≡ done d (front [] (length (print (derive_term more args d) [])))
parse_derivation-print more args d outs ins fields named =
    let input = print (derive_term more args d) [] in
    let (at, read) = derive_term-Reads more args d outs ins fields named in
    let ends = parse_derivation-Settled input in
    read ∙ ap (λ n. done d (front [] n)) (at_end at input d read ends)
  where
    at_end :
        (at : ℕ) (s : List ℕ) (e : Derivation)
        → parse_derivation s ≡ done e (front [] at)
        → Settled (length s) (parse_derivation s)
        → at ≡ length s
    at_end at s e read ends = rw read at ends
