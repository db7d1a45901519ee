-- ===== src/Base/Text.antt =====
-- `str` and `String` as the list of the code points. The order of the code points is the order
-- of the UTF-8 bytes, by which Rust compares strings.
use Prim.Native.Nat.{ℕ, ◌+◌}
use Prim.Native.Char.{code}
use Prim.Native.String.{String}
use mathlib.Core.Path.{◌≡◌, refl}
use mathlib.Core.Bool.{Bool, true, false, ◌&&◌, ◌||◌}
use mathlib.Core.List.{List, [], ◌∷◌, ◌++◌}
use mathlib.Core.Option
use mathlib.Core.Option.{Option, none, some}
use native.Mathlib.Omega.{arith}
use mandala.Base.Tests.{ltb, leb, ◌==◌, if◌then◌else◌, is_some}
use mandala.Base.Lists.{All}
use mandala.Base.Order.{list_ord, beq}

abbrev pub Text : Type 0
Text = List ℕ

-- A literal of the source.
abbrev pub text : String → Text
text String.[] = []
text (String.◌∷◌ c s) = code c ∷ text s

abbrev pub is_empty {ℓ} : {A : Type ℓ} → List A → Bool
is_empty [] = true
is_empty (c ∷ s) = false

-- `char::is_whitespace`, the property White_Space of Unicode.
abbrev pub is_whitespace : ℕ → Bool
is_whitespace c =
    leb 9 c && leb c 13
    || c == 0x20
    || c == 0x85
    || c == 0xa0
    || c == 0x1680
    || leb 0x2000 c && leb c 0x200a
    || c == 0x2028
    || c == 0x2029
    || c == 0x202f
    || c == 0x205f
    || c == 0x3000

abbrev pub is_ascii_digit : ℕ → Bool
is_ascii_digit c = leb b'0' c && leb c b'9'

abbrev pub is_ascii_alphanumeric : ℕ → Bool
is_ascii_alphanumeric c = is_ascii_digit c || leb b'A' c && leb c b'Z' || leb b'a' c && leb c b'z'

abbrev pub to_ascii_lowercase : ℕ → ℕ
to_ascii_lowercase c = if leb b'A' c && leb c b'Z' then c + 32 else c

-- The length in bytes of the UTF-8 encoding of one code point.
abbrev pub len_utf8 : ℕ → ℕ
len_utf8 c = if ltb c 0x80 then 1 else if ltb c 0x800 then 2 else if ltb c 0x10000 then 3 else 4

-- `str::len`, in bytes.
abbrev pub byte_len : Text → ℕ
byte_len [] = 0
byte_len (c ∷ s) = len_utf8 c + byte_len s

unfoldable pub trim_start : Text → Text
trim_start [] = []
trim_start (c ∷ s) = elim (is_whitespace c) [ true ↦ trim_start s | false ↦ c ∷ s ]

-- `trim_end_matches` by a test of the characters.
unfoldable pub trim_end_matches : (ℕ → Bool) → Text → Text
trim_end_matches p [] = []
trim_end_matches p (c ∷ s) = elim (trim_end_matches p s) [
  | [] ↦ if p c then [] else c ∷ []
  | d ∷ r ↦ c ∷ d ∷ r
]

abbrev pub trim_end : Text → Text
trim_end = trim_end_matches is_whitespace

unfoldable pub trim : Text → Text
unfolding trim_start trim_end_matches
trim s = trim_end (trim_start s)

-- `strip_prefix` by one character.
abbrev pub strip_char : ℕ → Text → Option Text
strip_char p [] = none
strip_char p (c ∷ s) = if c == p then some s else none

unfoldable pub strip_prefix : Text → Text → Option Text
strip_prefix [] s = some s
strip_prefix (p ∷ ps) [] = none
strip_prefix (p ∷ ps) (c ∷ s) = let rest = strip_prefix ps s in if c == p then rest else none

unfoldable pub strip_suffix : Text → Text → Option Text
strip_suffix suffix [] = if is_empty suffix then some [] else none
strip_suffix suffix (c ∷ s) =
    let rest = Option.map (λ r. c ∷ r) (strip_suffix suffix s) in
    if beq (c ∷ s) suffix then some [] else rest

abbrev pub ends_with : Text → Text → Bool
ends_with suffix s = is_some (strip_suffix suffix s)

abbrev pub starts_with : Text → Text → Bool
starts_with prefix s = is_some (strip_prefix prefix s)

-- What stands behind the last `sep`: the second half of `rsplit_once`.
unfoldable pub after_last : ℕ → Text → Option Text
after_last sep [] = none
after_last sep (c ∷ s) = elim (after_last sep s) [
  | some r ↦ some r
  | none ↦ if c == sep then some s else none
]

unfoldable pub split_once : ℕ → Text → Option (Text × Text)
split_once sep [] = none
split_once sep (c ∷ s) =
    let rest = Option.map (λ (p : Text × Text). (c ∷ p.0, p.1)) (split_once sep s) in
    if c == sep then some ([], s) else rest

-- The part in front of the first character that passes the test.
unfoldable pub take_until : (ℕ → Bool) → Text → Text
take_until p [] = []
take_until p (c ∷ s) = let rest = take_until p s in if p c then [] else c ∷ rest

abbrev pub push_head : ℕ → List Text → List Text
push_head c [] = (c ∷ []) ∷ []
push_head c (w ∷ ws) = (c ∷ w) ∷ ws

-- `s.split(p)`: the pieces between the separators, of which there is one more than separators.
unfoldable pub split : (ℕ → Bool) → Text → List Text
split p [] = [] ∷ []
split p (c ∷ s) = let rest = split p s in elim (p c) [ true ↦ [] ∷ rest | false ↦ push_head c rest ]

unfoldable pub join : Text → List Text → Text
join sep [] = []
join sep (w ∷ []) = w
join sep (w ∷ v ∷ ws) = w ++ (sep ++ join sep (v ∷ ws))

-- No character of the text is a separator.
abbrev pub Free : (ℕ → Bool) → Text → Type 0
Free p [] = Unit
Free p (c ∷ s) = (p c ≡ false) × Free p s

pub Free-imp :
    (p q : ℕ → Bool) → ((c : ℕ) → p c ≡ false → q c ≡ false) → (w : Text) → Free p w → Free q w
Free-imp p q f [] h = tt
Free-imp p q f (c ∷ w) h = (f c h.0, Free-imp p q f w h.1)

split-Free : (p : ℕ → Bool) (w : Text) → Free p w → split p w ≡ w ∷ []
unfolding split
split-Free p [] h = refl
split-Free p (c ∷ s) h = ground (arith, split-Free p s h.1)

split-append :
    (p : ℕ → Bool) (w s : Text) (c : ℕ)
    → Free p w
    → p c ≡ true
    → split p (w ++ (c ∷ s)) ≡ w ∷ split p s
unfolding split
split-append p [] s c h sep = ground arith
split-append p (d ∷ w) s c h sep = ground (arith, split-append p w s c h.1 sep)

-- Splitting undoes joining, for pieces in which the separator does not occur.
pub split-join :
    (p : ℕ → Bool) (c : ℕ) (w : Text) (ws : List Text)
    → p c ≡ true
    → All (Free p) (w ∷ ws)
    → split p (join (c ∷ []) (w ∷ ws)) ≡ w ∷ ws
unfolding join
split-join p c w [] sep h = split-Free p w h.0
split-join p c w (v ∷ ws) sep h =
    ground (arith, split-append p w (join (c ∷ []) (v ∷ ws)) c h.0 sep, split-join p c v ws sep h.1)

abbrev pub NoSpace : Text → Type 0
NoSpace = Free is_whitespace

trim_end_matches-Free : (p : ℕ → Bool) (w : Text) → Free p w → trim_end_matches p w ≡ w
unfolding trim_end_matches
trim_end_matches-Free p [] h = refl
trim_end_matches-Free p (c ∷ []) h = rw (h.0, trim_end_matches)
trim_end_matches-Free p (c ∷ d ∷ s) h = rw (trim_end_matches-Free p (d ∷ s) h.1, trim_end_matches)

pub trim-NoSpace : (w : Text) → NoSpace w → trim w ≡ w
unfolding trim trim_start
trim-NoSpace [] h = refl
trim-NoSpace (c ∷ s) h = ground (arith, trim_end_matches-Free is_whitespace (c ∷ s) h)
