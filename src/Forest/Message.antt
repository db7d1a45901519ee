-- ===== src/Forest/Message.antt =====
-- crates/nix-build-forest/src/msg.rs: the records of Nix's internal-JSON logger.
use mandala.Base.{
  ℕ, compare, Ordering, lt, eq, gt, ◌≡◌, refl, Option, none, some, List, arith, if◌then◌else◌, ◌==◌,
}
use mathlib.Core.Option
use mandala.Base.Order.{Ord}
use mandala.Base.Map.{Map}
use mandala.Base.Int.{
  ℤ, pos, negsuc, int_cmp, int_cmp_refl, int_eq_of_cmp, int_lt_of_gt, int_gt_of_lt, int_lt_trans,
}
use mandala.Base.Text.{Text, text, trim_end, strip_prefix}
use mandala.Base.Json.{Value}
use mandala.Base.Result.{Result, ok, err}

pub data ActivityType : Type 0 where
  unknown copy_path file_transfer realise copy_paths builds build optimise_store : ActivityType
  verify_paths substitute query_path_info post_build_hook build_waiting fetch_tree : ActivityType
  other : ℤ → ActivityType

unfoldable pub activity_from_code : ℤ → ActivityType
activity_from_code (negsuc n) = other (negsuc n)
activity_from_code (pos n) =
    if n == 0
    then unknown
    else if n == 100
    then copy_path
    else if n == 101
    then file_transfer
    else if n == 102
    then realise
    else if n == 103
    then copy_paths
    else if n == 104
    then builds
    else if n == 105
    then build
    else if n == 106
    then optimise_store
    else if n == 107
    then verify_paths
    else if n == 108
    then substitute
    else if n == 109
    then query_path_info
    else if n == 110
    then post_build_hook
    else if n == 111
    then build_waiting
    else if n == 112
    then fetch_tree
    else other (pos n)

pub data ResultType : Type 0 where
  file_linked build_log_line untrusted_path corrupted_path set_phase progress : ResultType
  set_expected post_build_log_line fetch_status : ResultType
  other_result : ℤ → ResultType

unfoldable pub result_from_code : ℤ → ResultType
result_from_code (negsuc n) = other_result (negsuc n)
result_from_code (pos n) =
    if n == 100
    then file_linked
    else if n == 101
    then build_log_line
    else if n == 102
    then untrusted_path
    else if n == 103
    then corrupted_path
    else if n == 104
    then set_phase
    else if n == 105
    then progress
    else if n == 106
    then set_expected
    else if n == 107
    then post_build_log_line
    else if n == 108
    then fetch_status
    else other_result (pos n)

-- The derived order of the variants, which `BTreeMap` keys by.
abbrev index : ActivityType → ℕ
index unknown = 0
index copy_path = 1
index file_transfer = 2
index realise = 3
index copy_paths = 4
index builds = 5
index build = 6
index optimise_store = 7
index verify_paths = 8
index substitute = 9
index query_path_info = 10
index post_build_hook = 11
index build_waiting = 12
index fetch_tree = 13
index (other code) = 14

abbrev payload : ActivityType → ℤ
payload (other code) = code
payload _ = pos 0

abbrev pub activity_cmp : ActivityType → ActivityType → Ordering
activity_cmp a b = elim (compare (index a) (index b)) [
  | lt ↦ lt
  | eq ↦ int_cmp (payload a) (payload b)
  | gt ↦ gt
]

of_index : ℕ → ℤ → ActivityType
of_index n code =
    if n == 0
    then unknown
    else if n == 1
    then copy_path
    else if n == 2
    then file_transfer
    else if n == 3
    then realise
    else if n == 4
    then copy_paths
    else if n == 5
    then builds
    else if n == 6
    then build
    else if n == 7
    then optimise_store
    else if n == 8
    then verify_paths
    else if n == 9
    then substitute
    else if n == 10
    then query_path_info
    else if n == 11
    then post_build_hook
    else if n == 12
    then build_waiting
    else if n == 13
    then fetch_tree
    else other code

of_index-index : (a : ActivityType) → of_index (index a) (payload a) ≡ a
unfolding of_index
of_index-index unknown = refl
of_index-index _ = refl

pub activity_cmp_refl : (a : ActivityType) → activity_cmp a a ≡ eq
activity_cmp_refl a = ground (arith, int_cmp_refl (payload a))

pub activity_eq_of_cmp : (a b : ActivityType) → activity_cmp a b ≡ eq → a ≡ b
activity_eq_of_cmp a b h =
    let same_index : index a ≡ index b = ground arith in
    let same_code : payload a ≡ payload b = ground (arith, int_eq_of_cmp (payload a) (payload b)) in
    cc (of_index-index a, of_index-index b)

pub activity_lt_of_gt : (a b : ActivityType) → activity_cmp a b ≡ gt → activity_cmp b a ≡ lt
activity_lt_of_gt a b h = flip (index a) (index b) (payload a) (payload b) h
  where
    flip :
        (m n : ℕ) (x y : ℤ)
        → (elim (compare m n) as (λ _. Ordering) [ lt ↦ lt | eq ↦ int_cmp x y | gt ↦ gt ]) ≡ gt
        → (elim (compare n m) as (λ _. Ordering) [ lt ↦ lt | eq ↦ int_cmp y x | gt ↦ gt ]) ≡ lt
    flip m n x y h = ground (arith, int_lt_of_gt x y)

pub activity_gt_of_lt : (a b : ActivityType) → activity_cmp a b ≡ lt → activity_cmp b a ≡ gt
activity_gt_of_lt a b h = flip (index a) (index b) (payload a) (payload b) h
  where
    flip :
        (m n : ℕ) (x y : ℤ)
        → (elim (compare m n) as (λ _. Ordering) [ lt ↦ lt | eq ↦ int_cmp x y | gt ↦ gt ]) ≡ lt
        → (elim (compare n m) as (λ _. Ordering) [ lt ↦ lt | eq ↦ int_cmp y x | gt ↦ gt ]) ≡ gt
    flip m n x y h = ground (arith, int_gt_of_lt x y)

pub activity_lt_trans :
    (a b c : ActivityType) → activity_cmp a b ≡ lt → activity_cmp b c ≡ lt → activity_cmp a c ≡ lt
activity_lt_trans a b c h k =
    chain (index a) (index b) (index c) (payload a) (payload b) (payload c) h k
  where
    chain :
        (l m n : ℕ) (x y z : ℤ)
        → (elim (compare l m) as (λ _. Ordering) [ lt ↦ lt | eq ↦ int_cmp x y | gt ↦ gt ]) ≡ lt
        → (elim (compare m n) as (λ _. Ordering) [ lt ↦ lt | eq ↦ int_cmp y z | gt ↦ gt ]) ≡ lt
        → (elim (compare l n) as (λ _. Ordering) [ lt ↦ lt | eq ↦ int_cmp x z | gt ↦ gt ]) ≡ lt
    chain l m n x y z h k = ground (arith, int_lt_trans x y z)

instance abbrev pub activity_ord : Ord ActivityType
activity_ord = record {
  cmp = activity_cmp;
  cmp_refl = activity_cmp_refl;
  eq_of_cmp = activity_eq_of_cmp;
  lt_of_gt = activity_lt_of_gt;
  gt_of_lt = activity_gt_of_lt;
  lt_trans = activity_lt_trans;
}

pub record NixMessage : Type 0 where
  pub action : Text
  pub id : Option ℕ
  pub type_code : Option ℤ
  pub level : Option ℤ
  pub parent : Option ℕ
  pub label : Option Text
  pub msg : Option Text
  pub raw_msg : Option Text
  pub fields : List Value
  pub extra : Map Text Value

abbrev pub activity_type : NixMessage → Option ActivityType
activity_type message = Option.map activity_from_code message.type_code

abbrev pub result_type : NixMessage → Option ResultType
result_type message = Option.map result_from_code message.type_code

abbrev or_else : Option Text → Option Text → Option Text
or_else (some a) b = some a
or_else none b = b

abbrev pub message_text : NixMessage → Option Text
message_text message = or_else (or_else message.raw_msg message.msg) message.label

-- `parse_nix_line`, over serde's parser of a record.
abbrev pub parse_nix_line : (Text → Option NixMessage) → Text → Result (Option NixMessage) Text
parse_nix_line from_str line = elim (strip_prefix (text "@nix ") (trim_end line)) [
  | none ↦ ok none
  | some payload ↦ elim (from_str payload) [ none ↦ err payload | some m ↦ ok (some m) ]
]
