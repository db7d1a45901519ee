-- ===== src/Runner/Bounds.antt =====
-- What `bound_strings` makes of a value: no string of it is long.
use mandala.Base.{ℕ, ◌+◌, ◌-◌, ◌≤◌, ◌≡◌, [], ◌∷◌, ◌++◌, ltb, arith, Bool-cases, inl, inr}
use mandala.Base.Text.{Text, byte_len, len_utf8}
use mandala.Base.Json.{
  Value, null, bool, number, string, array, object, Items, nil, cons, Fields, end, field,
}
use mandala.Runner.BuildLog.{
  bound_strings, bound_items, bound_fields, bound_string, truncate, marker,
}

byte_len-append : (s t : Text) → byte_len (s ++ t) ≡ byte_len s + byte_len t
byte_len-append [] t = ground arith
byte_len-append (c ∷ s) t = ground (arith, byte_len-append s t)

byte_len-truncate : (budget : ℕ) (s : Text) → byte_len (truncate budget s) ≤ budget
unfolding truncate
byte_len-truncate budget [] = ground arith
byte_len-truncate budget (c ∷ s) = ground (arith, byte_len-truncate (budget - len_utf8 c) s)

-- 8192 bytes and those of the marker.
abbrev pub longest : ℕ
longest = 8207

byte_len-bound_string : (s : Text) → byte_len (bound_string s) ≤ longest
unfolding bound_string
byte_len-bound_string s = elim (Bool-cases (ltb 8192 (byte_len s))) [
  | inl e ↦
      rw (bound_string, e, byte_len-append (truncate 8192 s) marker)
        (ground (arith, byte_len-truncate 8192 s))
  | inr e ↦ rw (bound_string, e) (ground (arith, e))
]

unfoldable mutual
  -- No string of the value is longer than `longest` bytes.
  pub IsBounded : Value → Type 0
  IsBounded (string s) = byte_len s ≤ longest
  IsBounded (array vs) = ItemsBounded vs
  IsBounded (object fs) = FieldsBounded fs
  IsBounded v = Unit

  pub ItemsBounded : Items → Type 0
  ItemsBounded nil = Unit
  ItemsBounded (cons v vs) = IsBounded v × ItemsBounded vs

  pub FieldsBounded : Fields → Type 0
  FieldsBounded end = Unit
  FieldsBounded (field k v fs) = IsBounded v × FieldsBounded fs

mutual
  unfolding bound_strings IsBounded

  bounded : (v : Value) → IsBounded (bound_strings v)
  bounded (string s) = byte_len-bound_string s
  bounded (array vs) = bounded_items vs
  bounded (object fs) = bounded_fields fs
  bounded null = tt
  bounded (bool b) = tt
  bounded (number n) = tt

  bounded_items : (vs : Items) → ItemsBounded (bound_items vs)
  bounded_items nil = tt
  bounded_items (cons v vs) = (bounded v, bounded_items vs)

  bounded_fields : (fs : Fields) → FieldsBounded (bound_fields fs)
  bounded_fields end = tt
  bounded_fields (field k v fs) = (bounded v, bounded_fields fs)

-- No string anywhere in a value is longer than 8207 bytes after `bound_strings`.
bound_strings-IsBounded : (v : Value) → IsBounded (bound_strings v)
bound_strings-IsBounded v = bounded v
