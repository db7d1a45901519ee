-- ===== src/Base/Json.antt =====
-- `serde_json::Value` and its accessors. An object is the list of its entries in key order, as
-- the crate's map is a `BTreeMap` here.
use Prim.Native.Nat.{ℕ, ◌%◌, ◌^◌}
use mathlib.Core.Bool.{Bool, true, false, not, ◌&&◌, ◌||◌}
use mathlib.Core.List.{List, [], ◌∷◌}
use mathlib.Core.Option.{Option, none, some}
use mandala.Base.Tests.{ltb, ◌==◌, if◌then◌else◌, bind}
use mandala.Base.Order.{list_ord, beq}
use mandala.Base.Map.{Map, get}
use mandala.Base.Text.{Text, is_empty}
use mandala.Base.Int.{ℤ, pos, negsuc}

-- `neg_int n` is -(n + 1), and `float` holds the 64 bits of a finite double.
pub data Number : Type 0 where
  pos_int neg_int float : ℕ → Number

mutual
  pub data Value : Type 0 where
    null : Value
    bool : Bool → Value
    number : Number → Value
    string : Text → Value
    array : Items → Value
    object : Fields → Value

  pub data Items : Type 0 where
    nil : Items
    cons : Value → Items → Items

  pub data Fields : Type 0 where
    end : Fields
    field : Text → Value → Fields → Fields

abbrev pub elements : Items → List Value
elements nil = []
elements (cons v vs) = v ∷ elements vs

abbrev pub entries : Fields → Map Text Value
entries end = []
entries (field k v fs) = (k, v) ∷ entries fs

abbrev pub of_elements : List Value → Items
of_elements [] = nil
of_elements (v ∷ vs) = cons v (of_elements vs)

abbrev pub of_entries : Map Text Value → Fields
of_entries [] = end
of_entries ((k, v) ∷ m) = field k v (of_entries m)

abbrev pub as_object : Value → Option (Map Text Value)
as_object (object fs) = some (entries fs)
as_object _ = none

abbrev pub as_array : Value → Option (List Value)
as_array (array vs) = some (elements vs)
as_array _ = none

abbrev pub as_str : Value → Option Text
as_str (string s) = some s
as_str _ = none

abbrev pub as_bool : Value → Option Bool
as_bool (bool b) = some b
as_bool _ = none

abbrev pub as_u64 : Value → Option ℕ
as_u64 (number (pos_int n)) = some n
as_u64 _ = none

abbrev pub as_i64 : Value → Option ℤ
as_i64 (number (pos_int n)) = if ltb n (2 ^ 63) then some (pos n) else none
as_i64 (number (neg_int n)) = some (negsuc n)
as_i64 _ = none

-- `value.get(key)`: the entry of an object, and nothing of any other value.
abbrev pub field_of : Text → Value → Option Value
field_of k v = bind (as_object v) (λ m. get m k)

abbrev is_nonzero : Number → Bool
is_nonzero (pos_int n) = not (n == 0)
is_nonzero (neg_int n) = true
is_nonzero (float bits) = not (bits % 2 ^ 63 == 0)

abbrev no_items : Items → Bool
no_items nil = true
no_items (cons v vs) = false

abbrev no_fields : Fields → Bool
no_fields end = true
no_fields (field k v fs) = false

-- `json_truthy`: null, false, zero and whatever is empty are falsy.
unfoldable pub json_truthy : Value → Bool
json_truthy null = false
json_truthy (bool b) = b
json_truthy (number n) = is_nonzero n
json_truthy (string s) = not (is_empty s)
json_truthy (array vs) = not (no_items vs)
json_truthy (object fs) = not (no_fields fs)

abbrev float_eq : ℕ → ℕ → Bool
float_eq a b = a == b || (a % 2 ^ 63 == 0 && b % 2 ^ 63 == 0)

abbrev number_eq : Number → Number → Bool
number_eq (pos_int a) (pos_int b) = a == b
number_eq (neg_int a) (neg_int b) = a == b
number_eq (float a) (float b) = float_eq a b
number_eq _ _ = false

abbrev bool_eq : Bool → Bool → Bool
bool_eq true b = b
bool_eq false b = not b

-- `==` on values.
unfoldable mutual
  pub value_eq : Value → Value → Bool
  value_eq null null = true
  value_eq (bool a) (bool b) = bool_eq a b
  value_eq (number a) (number b) = number_eq a b
  value_eq (string a) (string b) = beq a b
  value_eq (array a) (array b) = items_eq a b
  value_eq (object a) (object b) = fields_eq a b
  value_eq _ _ = false

  pub items_eq : Items → Items → Bool
  items_eq nil nil = true
  items_eq (cons v vs) (cons w ws) = value_eq v w && items_eq vs ws
  items_eq _ _ = false

  pub fields_eq : Fields → Fields → Bool
  fields_eq end end = true
  fields_eq (field k v fs) (field j w gs) = beq k j && value_eq v w && fields_eq fs gs
  fields_eq _ _ = false
