-- ===== src/Drift/Compare.antt =====
-- crates/mandala-core/src/drift.rs: the comparison of the snapshots of the hosts with what was
-- evaluated. What chrono makes of the stamp of a snapshot is a parameter: its age, if it can be
-- parsed.
use mandala.Base.{
  Bool, true, false, not, ◌&&◌, ◌||◌, Option, none, some, List, [], ◌∷◌, if◌then◌else◌, keep,
  is_some, unwrap_or, map_or, map, gt,
}
use mandala.Base.Order.{list_ord, beq}
use mandala.Base.Map.{Map, get}
use mandala.Base.Int.{ℤ, int_ord, int_cmp}
use mandala.Base.Text.{Text, text, is_empty, is_whitespace, split, join, ends_with}
use mandala.Base.Json.{Value, as_object, as_str, json_truthy, value_eq}

pub data DriftStatus : Type 0 where
  in_sync drift reboot_pending activated stale incomplete no_snapshot unreachable_host eval_failed :
      DriftStatus

pub record DriftEntry : Type 0 where
  pub host : Text
  pub status : DriftStatus
  pub expected : Option Text
  pub current : Option Text
  pub booted : Option Text
  pub system_profile : Option Text
  pub captured_at : Option Text
  pub eval_error : Option Text

pub record Snapshot : Type 0 where
  pub current : Option Text
  pub booted : Option Text
  pub system_profile : Option Text
  pub captured_at : Option Text
  pub unreachable : Value
  pub current_boot : Value
  pub booted_boot : Value

pub record Toplevels : Type 0 where
  pub paths : Map Text Text
  pub errors : Map Text Text

-- `Toplevels::default()`.
abbrev pub no_toplevels : Toplevels
no_toplevels = record { paths = []; errors = [] }

-- `==` of two `Option<String>`.
abbrev pub same : Option Text → Option Text → Bool
same none none = true
same (some a) (some b) = beq a b
same _ _ = false

abbrev pub split_whitespace : Text → List Text
split_whitespace s = keep (λ w. not (is_empty w)) (split is_whitespace s)

unfoldable pub normalize_tokens : Text → Text
normalize_tokens s = join (text " ") (split_whitespace s)

-- `a == b` of the command lines: as sequences of tokens, if both are strings.
abbrev pub same_params : Value → Value → Bool
same_params a b = elim (as_str a) [
  | none ↦ value_eq a b
  | some s ↦ elim (as_str b) [
    | none ↦ value_eq a b
    | some t ↦ beq (normalize_tokens s) (normalize_tokens t)
  ]
]

-- The body of the loop over the keys.
abbrev pub fact_changed : Text → Option Value → Option Value → Bool
fact_changed key (some a) (some b) =
    if not (json_truthy a) || not (json_truthy b)
    then true
    else if beq key (text "kernel_params")
    then not (same_params a b)
    else not (value_eq a b)
fact_changed key _ _ = true

-- `BOOT_CRITICAL`.
abbrev pub boot_critical : List Text
boot_critical = text "kernel" ∷ text "kernel_modules" ∷ text "initrd" ∷ text "kernel_params" ∷ []

unfoldable pub facts_changed : List Text → Map Text Value → Map Text Value → Bool
facts_changed [] current booted = false
facts_changed (key ∷ keys) current booted =
    fact_changed key (get current key) (get booted key) || facts_changed keys current booted

unfoldable pub boot_critical_changed : Snapshot → Bool
boot_critical_changed snap = elim (as_object snap.current_boot) [
  | none ↦ true
  | some current ↦ elim (as_object snap.booted_boot) [
    | none ↦ true
    | some booted ↦ facts_changed boot_critical current booted
  ]
]

-- `sort` of a list of texts.
abbrev pub insert_text : Text → List Text → List Text
insert_text a [] = a ∷ []
insert_text a (b ∷ bs) =
    let rest = insert_text a bs in elim (list_ord.cmp a b) [ gt ↦ b ∷ rest | _ ↦ a ∷ b ∷ bs ]

unfoldable pub sort : List Text → List Text
sort [] = []
sort (a ∷ rest) = insert_text a (sort rest)

-- `cache_fresh`.
unfoldable pub cache_fresh : Option Text → Option Text → Bool
cache_fresh (some cached) (some current) =
    beq cached current && not (ends_with (text "-dirty") current)
cache_fresh _ _ = false

module _ (age_of : Text → Option ℤ) where
  abbrev pub older : ℤ → Option ℤ → Bool
  older max_age none = true
  older max_age (some age) = elim (int_cmp age max_age) [ gt ↦ true | _ ↦ false ]

  abbrev pub too_old : Option Text → Option ℤ → Bool
  too_old (some captured_at) (some max_age) =
      if is_empty captured_at then false else older max_age (age_of captured_at)
  too_old _ _ = false

  unfoldable pub judge :
      (exp eval_error : Option Text) → (max_age : Option ℤ) → Snapshot → DriftStatus
  judge exp eval_error max_age snap =
      if json_truthy snap.unreachable
      then unreachable_host
      else if not (is_some snap.current)
      then incomplete
      else if too_old snap.captured_at max_age
      then stale
      else if is_some eval_error
      then eval_failed
      else if is_some exp && not (same snap.current exp) && same snap.system_profile exp
      then reboot_pending
      else if is_some exp && not (same snap.current exp)
      then drift
      else if map_or snap.booted false (λ b. not (is_empty b))
          && not (same snap.booted snap.current)
      then (if boot_critical_changed snap then reboot_pending else activated)
      else in_sync

  -- The body of the loop over the hosts.
  abbrev pub entry : Toplevels → Option ℤ → Text → Option Snapshot → DriftEntry
  entry expected max_age host none = record {
    host = host;
    status = no_snapshot;
    expected = none;
    current = none;
    booted = none;
    system_profile = none;
    captured_at = none;
    eval_error = get expected.errors host;
  }
  entry expected max_age host (some snap) = record {
    host = host;
    status = judge (get expected.paths host) (get expected.errors host) max_age snap;
    expected = get expected.paths host;
    current = snap.current;
    booted = snap.booted;
    system_profile = snap.system_profile;
    captured_at = snap.captured_at;
    eval_error = get expected.errors host;
  }

  unfoldable pub compare :
      (deploy_nodes : List Text)
      → (snapshots : Map Text Snapshot) → (expected : Option Toplevels) → (max_age : Option ℤ)
      → List DriftEntry
  compare deploy_nodes snapshots expected max_age =
      map (λ host. entry (unwrap_or expected no_toplevels) max_age host (get snapshots host))
        (sort deploy_nodes)
