-- ===== src/Inventory/Name.antt =====
-- `is_valid_member_name`, and what the rest of the program relies on: a member's name holds no
-- separator of the selector language, and is none of its keywords.
use mandala.Base.{
  ℕ, ◌≡◌, Bool, true, false, not, ◌&&◌, ◌||◌, Option, none, some, [], ◌∷◌, map, arith, inl, inr,
  Bool-cases, leb, ◌==◌, all, map_or, get_elem?,
}
use mandala.Base.Order.{list_ord, beq, beq_iff}
use mandala.Base.Text.{
  Text, text, is_ascii_alphanumeric, to_ascii_lowercase, byte_len, is_whitespace, Free,
}

-- `bytes.last()`.
abbrev pub last? : Text → Option ℕ
last? [] = none
last? (c ∷ []) = some c
last? (c ∷ d ∷ s) = last? (d ∷ s)

abbrev pub eq_ignore_ascii_case : Text → Text → Bool
eq_ignore_ascii_case a b = beq (map to_ascii_lowercase a) (map to_ascii_lowercase b)

abbrev is_label_char : ℕ → Bool
is_label_char c = is_ascii_alphanumeric c || c == b'-'

-- A bare RFC 1123 host label that is not `all`.
unfoldable pub is_valid_member_name : Text → Bool
is_valid_member_name name =
    (leb 1 (byte_len name) && leb (byte_len name) 63)
    && map_or (get_elem? name 0) false is_ascii_alphanumeric
    && map_or (last? name) false is_ascii_alphanumeric
    && all is_label_char name
    && not (eq_ignore_ascii_case name (text "all"))

-- What a valid name is free of.
abbrev pub is_selector_syntax : ℕ → Bool
is_selector_syntax c = c == b',' || c == b':' || c == b'!' || c == b'@' || is_whitespace c

label_char_plain : (c : ℕ) → is_label_char c ≡ true → is_selector_syntax c ≡ false
label_char_plain c h = ground arith

all-Free : (name : Text) → all is_label_char name ≡ true → Free is_selector_syntax name
all-Free [] h = tt
all-Free (c ∷ s) h = ground (arith, label_char_plain c, all-Free s)

pub valid_name-Free :
    (name : Text) → is_valid_member_name name ≡ true → Free is_selector_syntax name
unfolding is_valid_member_name
valid_name-Free name h = all-Free name (ground arith)

pub valid_name-ne-all :
    (name : Text) → is_valid_member_name name ≡ true → beq name (text "all") ≡ false
unfolding is_valid_member_name
valid_name-ne-all name h = elim (Bool-cases (beq name (text "all"))) [
  | inl e ↦
      let same : name ≡ text "all" = (beq_iff name (text "all")).0 e in
      let refuted : is_valid_member_name (text "all") ≡ true = rw same at h in cc refuted
  | inr e ↦ e
]
