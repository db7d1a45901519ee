-- ===== src/Forest/Paths.antt =====
-- crates/nix-build-forest/src/forest.rs: the store paths that a message names, and their names.
use mandala.Base.{
  ℕ, zero, suc, Bool, true, false, ◌||◌, Option, none, some, List, [], ◌∷◌, if◌then◌else◌, ◌==◌,
  unwrap_or,
}
use mandala.Base.Order.{list_ord}
use mandala.Base.Set.{Set, insert}
use mandala.Base.Text.{
  Text, text, byte_len, is_whitespace, trim_end_matches, starts_with, ends_with, strip_suffix,
  after_last, split_once, take_until,
}

abbrev pub store : Text
store = text "/nix/store/"

abbrev named : Text → Option (Text × Text) → Text
named base none = base
named base (some (hash, name)) = if byte_len hash == 32 then name else base

unfoldable pub derivation_name : Text → Text
derivation_name path =
    let base =
      unwrap_or (strip_suffix (text ".drv") (unwrap_or (after_last b'/' path) path)) path in
    named base (split_once b'-' base)

-- What `match_indices` yields, as the suffixes that start at the matches; `skip` characters
-- belong to the last match.
unfoldable pub matches : (skip : ℕ) → Text → List Text
matches skip [] = []
matches (suc skip) (c ∷ s) = matches skip s
matches zero (c ∷ s) = elim (starts_with store (c ∷ s)) [
  | true ↦ (c ∷ s) ∷ matches 10 s
  | false ↦ matches 0 s
]

abbrev pub ends_path : ℕ → Bool
ends_path c = is_whitespace c || c == 39 || c == 34 || c == 27 || c == 41 || c == 93 || c == 44

abbrev pub is_punctuation : ℕ → Bool
is_punctuation c = c == b'.' || c == b':' || c == b';'

abbrev pub candidate : Text → Text
candidate suffix = trim_end_matches is_punctuation (take_until ends_path suffix)

unfoldable pub collect_paths : List Text → Set Text → Set Text
collect_paths [] paths = paths
collect_paths (suffix ∷ rest) paths = elim (ends_with (text ".drv") (candidate suffix)) [
  | true ↦ collect_paths rest (insert paths (candidate suffix))
  | false ↦ collect_paths rest paths
]

unfoldable pub drv_paths : Text → Set Text
drv_paths s = collect_paths (matches 0 s) []
