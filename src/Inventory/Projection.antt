-- ===== src/Inventory/Projection.antt =====
-- The accessors of `Inventory` for the projections that the deploy and ansible engines read.
use mandala.Base.{Option, none, some, List, [], ◌∷◌, bind, map_or}
use mandala.Base.Order.{list_ord}
use mandala.Base.Map.{Map}
use mandala.Base.Text.{Text, text}
use mandala.Base.Json.{Value, as_object, as_array, as_str, field_of}
use mandala.Inventory.Validate.{Inventory, projections_of}

abbrev pub projections : Inventory → Option Value
projections inv = projections_of inv.aggregate

abbrev filter_strings : List Value → List Text
filter_strings [] = []
filter_strings (v ∷ vs) = let rest = filter_strings vs in map_or (as_str v) rest (λ s. s ∷ rest)

unfoldable pub deploy_nodes : Inventory → List Text
deploy_nodes inv =
    let nodes =
      bind (bind (bind (projections inv) (field_of (text "deploy"))) (field_of (text "nodes")))
        as_array in
    map_or nodes [] filter_strings

abbrev pub pick_platform : Option Text → Value → Option Value
pick_platform none projected = some projected
pick_platform (some platform) projected =
    bind (field_of (text "byControllerPlatform") projected) (field_of platform)

unfoldable pub connection_projections : Inventory → Option Value
connection_projections inv = bind (projections inv) (pick_platform inv.controller_platform)

unfoldable pub deploy_settings : Inventory → Option (Map Text Value)
unfolding connection_projections
deploy_settings inv =
    bind
      (bind (bind (connection_projections inv) (field_of (text "deploy")))
        (field_of (text "settings")))
      as_object

unfoldable pub ansible_inventory : Inventory → Option Value
unfolding connection_projections
ansible_inventory inv = bind (connection_projections inv) (field_of (text "ansibleInventory"))
