-- ===== src/Registry/Verdict.antt =====
-- What a verdict on a run rests on.
use mandala.Base.{◌≡◌, refl, Bool, true, false, ◌||◌, Option, none, some, [], ◌∷◌, arith}
use mandala.Base.Map.{Map}
use mandala.Base.Int.{ℤ, pos, int_eq}
use mandala.Base.Text.{Text, text}
use mandala.Base.Json.{Value}
use mandala.Runner.Host.{HostRun}
use mandala.Runner.Tail.{EventTailer, has_unsuccessful_host}
use mandala.Registry.Prune.{int_in}
use mandala.Registry.Liveness.{
  RunLiveness, finished, liveness, judge_settled, some_failed, some_rolled_back, all_terminal,
}

abbrev is_finished : RunLiveness → Bool
is_finished finished = true
is_finished _ = false

unsuccessful_split :
    (hosts : Map Text HostRun)
    → has_unsuccessful_host hosts ≡ (some_rolled_back hosts || some_failed hosts)
unfolding has_unsuccessful_host
unsuccessful_split [] = refl
unsuccessful_split ((name, h) ∷ hosts) = ground (arith, unsuccessful_split hosts)

-- A run is called finished only when its process is gone and no host has failed or rolled back,
-- and then its recorded code is 0, or it has none and has hosts, all in a terminal state.
pub liveness-finished :
    (pid_alive : Option ℤ → Bool) (poll : EventTailer → EventTailer) (meta : Map Text Value)
    (t : EventTailer)
    → is_finished (liveness pid_alive poll meta t).0 ≡ true
    → (pid_alive (int_in (text "pid") meta) ≡ false)
      × (has_unsuccessful_host (poll t).hosts ≡ false)
      × ((elim (int_in (text "rc") meta) [
        | none ↦ all_terminal (poll t).hosts
        | some rc ↦ int_eq rc (pos 0)
      ])
          ≡ true)
unfolding liveness judge_settled
liveness-finished pid_alive poll meta t h = ground (arith, h, unsuccessful_split (poll t).hosts)
