-- ===== src/Registry/Prune.antt =====
-- crates/mandala-core/src/registry.rs: `prune_policy`. What the system says of a process and what
-- chrono says of the age of a run are parameters; the runs are listed with the most recent first.
use mandala.Base.{
  ℕ, ◌+◌, ◌-◌, ◌*◌, Bool, false, ◌&&◌, ◌||◌, Option, none, some, List, [], ◌∷◌, if◌then◌else◌, ltb,
  leb, ◌==◌, min, bind, map_or,
}
use mandala.Base.Order.{list_ord}
use mandala.Base.Map.{Map, get}
use mandala.Base.Int.{ℤ, pos, negsuc}
use mandala.Base.Text.{Text, text, is_empty, is_ascii_digit, after_last}
use mandala.Base.Json.{Value, as_i64}

pub record RunInfo : Type 0 where
  pub run_id : Text
  pub meta : Map Text Value

abbrev pub int_in : Text → Map Text Value → Option ℤ
int_in key meta = bind (get meta key) as_i64

abbrev pub pid : RunInfo → Option ℤ
pid info = int_in (text "pid") info.meta

abbrev digits : ℕ → Text → Option ℕ
digits n [] = some n
digits n (c ∷ s) =
    let rest = digits (n * 10 + (c - b'0')) s in if is_ascii_digit c then rest else none

abbrev i64_max : ℕ
i64_max = 9223372036854775807

abbrev bounded : Option ℕ → Option ℤ
bounded none = none
bounded (some n) = if leb n i64_max then some (pos n) else none

abbrev magnitude : Text → Option ℤ
magnitude [] = none
magnitude (c ∷ s) = bounded (digits 0 (c ∷ s))

-- `parse::<i64>` of what stands behind the last dash, which no minus sign starts.
unfoldable pub parse_pid : Text → Option ℤ
parse_pid [] = none
parse_pid (c ∷ s) = if c == b'+' then magnitude s else magnitude (c ∷ s)

unfoldable pub allocating_pid : RunInfo → Option ℤ
allocating_pid info =
    if is_empty info.meta then bind (after_last b'-' info.run_id) parse_pid else none

module _ (pid_alive : Option ℤ → Bool) (age_days : Text → Option ℤ) where
  unfoldable pub is_active : RunInfo → Bool
  is_active info =
      pid_alive (pid info)
      || pid_alive (int_in (text "supervisor_pid") info.meta)
      || pid_alive (allocating_pid info)

  -- `age >= max_age_days.min(i64::MAX as u64) as i64`.
  abbrev at_least : ℕ → ℤ → Bool
  at_least bound (pos n) = leb (min bound i64_max) n
  at_least bound (negsuc n) = false

  unfoldable pub is_expired : (max_age_days : ℕ) → RunInfo → Bool
  is_expired max_age_days info =
      ltb 0 max_age_days && map_or (age_days info.run_id) false (at_least max_age_days)

  -- The runs that stay.
  unfoldable pub prune_policy : (limit max_age_days survivors : ℕ) → List RunInfo → List RunInfo
  prune_policy limit max_age_days survivors [] = []
  prune_policy limit max_age_days survivors (info ∷ infos) =
      let as_active = prune_policy limit max_age_days survivors infos in
      let as_survivor = prune_policy limit max_age_days (survivors + 1) infos in
      if is_active info
      then info ∷ as_active
      else if ltb limit (survivors + 1) || is_expired max_age_days info
      then as_survivor
      else info ∷ as_survivor
