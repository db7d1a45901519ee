-- ===== src/Deploy/Settle.antt =====
-- crates/mandala-core/src/engines/deploy.rs: how a fan-out settles, and the exit code of a child.
use mandala.Base.{
  ℕ, Bool, true, false, not, ◌||◌, Option, none, some, List, [], ◌∷◌, if◌then◌else◌, ltb, leb, keep,
  length, map_or, is_some,
}
use mandala.Base.Order.{list_ord}
use mandala.Base.Map.{Map, insert, values}
use mandala.Base.Int.{ℤ, pos, int_eq, low_byte}
use mandala.Base.Text.{Text}
use mandala.Runner.Host.{HostState, confirmed, reboot_pending, rolled_back, failed}

pub record HostDeployResult : Type 0 where
  pub host : Text
  pub state : HostState
  pub error : Option Text

pub record DeploySummary : Type 0 where
  pub total : ℕ
  pub confirmed_count : ℕ
  pub reboot_pending_count : ℕ
  pub failed_count : ℕ
  pub rolled_back_count : ℕ

pub record DeployOutcome : Type 0 where
  pub results : Map Text HostDeployResult
  pub summary : DeploySummary
  pub process_rc : ℕ
  pub rc : ℕ

abbrev pub is_confirmed : HostState → Bool
is_confirmed confirmed = true
is_confirmed _ = false

abbrev pub is_reboot_pending : HostState → Bool
is_reboot_pending reboot_pending = true
is_reboot_pending _ = false

abbrev pub is_failed : HostState → Bool
is_failed failed = true
is_failed _ = false

abbrev pub is_rolled_back : HostState → Bool
is_rolled_back rolled_back = true
is_rolled_back _ = false

abbrev pub count : (HostState → Bool) → Map Text HostDeployResult → ℕ
count p results = length (keep (λ (r : HostDeployResult). p r.state) (values results))

unfoldable pub summarize : Map Text HostDeployResult → DeploySummary
summarize results = record {
  total = length results;
  confirmed_count = count is_confirmed results;
  reboot_pending_count = count is_reboot_pending results;
  failed_count = count is_failed results;
  rolled_back_count = count is_rolled_back results;
}

-- `host_result`, where `event_error` is what writing the terminal status failed with, if it did:
-- the code of that status, and the result.
unfoldable pub host_result :
    Text → HostState → (error event_error : Option Text) → ℕ × HostDeployResult
host_result host state error event_error = (
  if is_some error then 1 else 0,
  record {
    host = host;
    state = if is_some event_error then failed else state;
    error = elim event_error [ none ↦ error | some e ↦ some e ];
  },
)

abbrev pub build_failed : Option ℤ → Bool
build_failed build_rc = map_or build_rc false (λ rc. not (int_eq rc (pos 0)))

-- `build_rc` is what the metadata of the run says of the build.
unfoldable pub settle_fan_out : Option ℤ → Map Text HostDeployResult → DeployOutcome
settle_fan_out build_rc results =
    let summary = summarize results in
    record {
      results = results;
      summary = summary;
      process_rc = 0;
      rc =
          if build_failed build_rc || ltb 0 summary.failed_count || ltb 0 summary.rolled_back_count
          then 1
          else 0;
    }

-- A task of the fan-out that has ended, in the order in which they end: the result of the host's
-- pipeline, or the host whose task failed abnormally with the result that stands for it.
abbrev pub collect :
    List (Text × HostDeployResult) → Map Text HostDeployResult → Map Text HostDeployResult
collect [] results = results
collect ((host, result) ∷ joined) results = collect joined (insert results host result)

-- `u8::try_from(c & 0xff).unwrap_or(1).max(1)` of a code that is not 0.
unfoldable pub exit_byte : Option ℤ → ℕ
exit_byte none = 1
exit_byte (some code) =
    if int_eq code (pos 0) then 0 else if leb 1 (low_byte code) then low_byte code else 1
