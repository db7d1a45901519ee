-- ===== src/Drv/Term.antt =====
-- crates/nix-build-forest/src/drv.rs: the terms of a `.drv` file, and what is retained of them.
use mandala.Base.{Option, none, some, List, [], ◌∷◌}
use mandala.Base.Order.{list_ord}
use mandala.Base.Map.{Map, insert}
use mandala.Base.Text.{Text}

mutual
  pub data Term : Type 0 where
    app : Text → Terms → Term
    list tuple : Terms → Term
    str : Text → Term

  pub data Terms : Type 0 where
    nil : Terms
    cons : Term → Terms → Terms

abbrev pub as_str : Term → Option Text
as_str (str value) = some value
as_str _ = none

-- `filter_map(as_str)`.
unfoldable pub strings : Terms → List Text
strings nil = []
strings (cons (str value) ts) = value ∷ strings ts
strings (cons _ ts) = strings ts

abbrev pub set_output : Map Text Text → Option Text → Option Text → Map Text Text
set_output outputs (some name) (some path) = insert outputs name path
set_output outputs _ _ = outputs

-- The body of the loop over the outputs.
abbrev pub add_output : Term → Map Text Text → Map Text Text
add_output (tuple (cons name (cons path fields))) outputs =
    set_output outputs (as_str name) (as_str path)
add_output _ outputs = outputs

unfoldable pub add_outputs : Terms → Map Text Text → Map Text Text
add_outputs nil outputs = outputs
add_outputs (cons entry entries) outputs = add_outputs entries (add_output entry outputs)

-- The names of the outputs that are used of an input, where the second field is a list.
abbrev pub names_in : Terms → List Text
names_in (cons (list names) fields) = strings names
names_in _ = []

abbrev pub set_input : Map Text (List Text) → Option Text → List Text → Map Text (List Text)
set_input inputs (some path) names = insert inputs path names
set_input inputs none names = inputs

-- The body of the loop over the inputs.
abbrev pub add_input : Term → Map Text (List Text) → Map Text (List Text)
add_input (tuple (cons path fields)) inputs = set_input inputs (as_str path) (names_in fields)
add_input _ inputs = inputs

unfoldable pub add_inputs : Terms → Map Text (List Text) → Map Text (List Text)
add_inputs nil inputs = inputs
add_inputs (cons entry entries) inputs = add_inputs entries (add_input entry inputs)

abbrev pub outputs_of : Term → Map Text Text
outputs_of (list entries) = add_outputs entries []
outputs_of _ = []

abbrev pub inputs_of : Term → Map Text (List Text)
inputs_of (list entries) = add_inputs entries []
inputs_of _ = []
