-- ===== src/Registry/Tests.antt =====
-- Runs of the registry.
use mandala.Base.{
  ℕ, ◌≡◌, refl, Bool, true, false, not, Option, none, some, List, [], ◌∷◌, keep, take, map_or,
}
use mandala.Base.Order.{list_ord}
use mandala.Base.Map.{Map, get}
use mandala.Base.Int.{ℤ, pos, int_eq}
use mandala.Base.Text.{Text, text}
use mandala.Base.Json.{Value, number}
use mandala.Base.Json.Number.{pos_int}
use mandala.Runner.Host.{HostRun, new_host, confirmed}
use mandala.Runner.Tail.{EventTailer, new_tailer, has_unsuccessful_host}
use mandala.Registry.Prune.{RunInfo, prune_policy, is_active, is_expired, allocating_pid, int_in}
use mandala.Registry.Kept.{prune_policy-keeps}
use mandala.Registry.Liveness.{liveness, judge_settled, all_terminal}
use mandala.Registry.Verdict.{liveness-finished}

abbrev pid_alive : Option ℤ → Bool
pid_alive p = map_or p false (int_eq (pos 7))

abbrev age_days : Text → Option ℤ
age_days run_id = some (pos 3)

abbrev run_of : Text → ℕ → RunInfo
run_of run_id pid = record { run_id = run_id; meta = (text "pid", number (pos_int pid)) ∷ [] }

abbrev infos : List RunInfo
infos =
    run_of (text "20260103T000000_000000-9") 9
    ∷ run_of (text "20260102T000000_000000-7") 7
    ∷ run_of (text "20260101T000000_000000-8") 8
    ∷ []

one_kept :
    prune_policy pid_alive age_days 1 30 0 infos
    ≡ run_of (text "20260103T000000_000000-9") 9 ∷ run_of (text "20260102T000000_000000-7") 7 ∷ []
unfolding prune_policy is_active is_expired allocating_pid get
one_kept = refl

prune_policy-keeps_example :
    (keep (is_active pid_alive age_days) (prune_policy pid_alive age_days 1 30 0 infos)
      ≡ keep (is_active pid_alive age_days) infos)
    × (keep
          (λ r. not (is_active pid_alive age_days r))
          (prune_policy pid_alive age_days 1 30 0 infos)
        ≡ keep
            (λ r. not (is_expired pid_alive age_days 30 r))
            (take 1 (keep (λ r. not (is_active pid_alive age_days r)) infos)))
prune_policy-keeps_example = prune_policy-keeps pid_alive age_days 1 30 infos

abbrev web : HostRun
web = record (new_host (text "web")) { state = confirmed }

abbrev tailer : EventTailer
tailer = record (new_tailer []) { hosts = (text "web", web) ∷ [] }

abbrev meta : Map Text Value
meta = (text "pid", number (pos_int 9)) ∷ []

abbrev poll : EventTailer → EventTailer
poll t = t

liveness-finished_example :
    (pid_alive (int_in (text "pid") meta) ≡ false)
    × (has_unsuccessful_host (poll tailer).hosts ≡ false)
    × ((elim (int_in (text "rc") meta) as (λ _. Bool) [
      | none ↦ all_terminal (poll tailer).hosts
      | some rc ↦ int_eq rc (pos 0)
    ])
        ≡ true)
unfolding liveness judge_settled get
liveness-finished_example = liveness-finished pid_alive poll meta tailer refl
