-- ===== src/Drv/Tests.antt =====
-- Runs of the parser.
use mandala.Base.{◌≡◌, refl, [], ◌∷◌, length}
use mandala.Base.Order.{list_ord}
use mandala.Base.Text.{Text, text}
use mandala.Forest.State.{Derivation}
use mandala.Drv.Term.{Terms, str, list, nil, cons}
use mandala.Drv.Parse.{done, parse_derivation}
use mandala.Drv.Print.{print, AreNamed}
use mandala.Drv.Front.{front}
use mandala.Drv.Derivation.{derive_term, parse_derivation-print}
use mandala.Drv.Settled.{Settled, parse_derivation-Settled}

abbrev app : Derivation
app = record {
  outputs = (text "dev", text "/nix/store/dev") ∷ (text "out", text "/nix/store/out") ∷ [];
  input_drvs = (text "/nix/store/lib.drv", text "out" ∷ []) ∷ [];
}

abbrev hashes : Text → Terms
hashes _ = cons (str []) (cons (str []) nil)

abbrev arguments : Terms
arguments = cons (list nil) (cons (str (text "say \"hi\"\n")) nil)

parse_derivation-print_example :
    parse_derivation (print (derive_term hashes arguments app) [])
    ≡ done app (front [] (length (print (derive_term hashes arguments app) [])))
unfolding AreNamed
parse_derivation-print_example =
    parse_derivation-print hashes arguments app (((refl, tt), (tt, tt))) (tt, tt)
      (λ _. (tt, (tt, tt))) (tt, (tt, tt))

parse_derivation-Settled_example : Settled 11 (parse_derivation (text "Derive([],)"))
parse_derivation-Settled_example = parse_derivation-Settled (text "Derive([],)")
