-- ===== src/Inventory/Member.antt =====
-- `struct Member` and its views.
use mandala.Base.{Bool, false, List, [], ◌∷◌, if◌then◌else◌, bind, map_or}
use mandala.Base.Order.{list_ord}
use mandala.Base.Map.{Map, get, insert}
use mandala.Base.Text.{Text, text}
use mandala.Base.Json.{Value, string, field_of, json_truthy}

-- The raw JSON object of a member.
abbrev pub Member : Type 0
Member = Map Text Value

abbrev flag : Member → Text → Text → Bool
flag member key leaf =
    map_or (bind (bind (get member (text "deployment")) (field_of key)) (field_of leaf)) false
      json_truthy

-- One letter for each management surface that the member has.
unfoldable pub surfaces : Member → Text
surfaces member =
    (if flag member (text "ansible") (text "enable") then b'a' else b'-')
    ∷ (if flag member (text "deployRs") (text "enable") then b'd' else b'-')
    ∷ (if flag member (text "sops") (text "recipient") then b's' else b'-')
    ∷ []

abbrev pub kept : List Text
kept = text "platform" ∷ text "architecture" ∷ text "category" ∷ text "role" ∷ text "tags" ∷ []

-- The loop over `KEEP`.
copy_kept : Member → List Text → Map Text Value → Map Text Value
copy_kept member [] out = out
copy_kept member (key ∷ ks) out =
    copy_kept member ks (map_or (get member key) out (λ v. insert out key v))

unfoldable pub compact : Member → Map Text Value
unfolding copy_kept
compact member = insert (copy_kept member kept []) (text "surfaces") (string (surfaces member))
