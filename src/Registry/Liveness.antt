-- ===== src/Registry/Liveness.antt =====
-- crates/mandala-core/src/registry.rs: `liveness`. The system's answer for a process and the poll
-- of the streams are arguments.
use mandala.Base.{
  Bool, true, false, not, ◌&&◌, Option, none, some, if◌then◌else◌, all, any, is_some,
}
use mandala.Base.Order.{list_ord}
use mandala.Base.Map.{Map, values, contains_key}
use mandala.Base.Int.{ℤ, pos, int_eq}
use mandala.Base.Text.{Text, text, is_empty}
use mandala.Base.Json.{Value}
use mandala.Runner.Host.{HostRun, HostState, is_terminal, is_failure, failed, rolled_back}
use mandala.Runner.Tail.{EventTailer}
use mandala.Registry.Prune.{int_in}

pub data RunLiveness : Type 0 where
  running finished has_failed has_rolled_back not_known : RunLiveness

abbrev is_rolled_back : HostState → Bool
is_rolled_back rolled_back = true
is_rolled_back _ = false

abbrev is_failed : HostState → Bool
is_failed failed = true
is_failed _ = false

abbrev pub some_rolled_back : Map Text HostRun → Bool
some_rolled_back hosts = any (λ (h : HostRun). is_rolled_back h.state) (values hosts)

abbrev pub some_failed : Map Text HostRun → Bool
some_failed hosts = any (λ (h : HostRun). is_failed h.state) (values hosts)

abbrev pub all_terminal : Map Text HostRun → Bool
all_terminal hosts =
    not (is_empty hosts) && all (λ (h : HostRun). is_terminal h.state) (values hosts)

-- What is left when no code was recorded.
abbrev pub judge_streams : EventTailer → RunLiveness
judge_streams t =
    if all_terminal t.hosts
    then finished
    else if t.build.is_done && is_failure t.build.rc
    then has_failed
    else not_known

abbrev pub judge_rc : Option ℤ → EventTailer → RunLiveness
judge_rc none t = judge_streams t
judge_rc (some rc) t = if int_eq rc (pos 0) then finished else has_failed

unfoldable pub judge_settled : Option ℤ → EventTailer → RunLiveness
judge_settled rc t =
    if some_rolled_back t.hosts
    then has_rolled_back
    else if some_failed t.hosts
    then has_failed
    else judge_rc rc t

module _ (pid_alive : Option ℤ → Bool) (poll : EventTailer → EventTailer) where
  abbrev pub supervisor_died : Map Text Value → Bool
  supervisor_died meta =
      not (contains_key meta (text "rc"))
      && is_some (int_in (text "supervisor_pid") meta)
      && not (pid_alive (int_in (text "supervisor_pid") meta))

  -- `meta` is what the metadata of the run holds when it is read.
  unfoldable pub liveness : Map Text Value → EventTailer → RunLiveness × EventTailer
  liveness meta t =
      if supervisor_died meta
      then (has_failed, t)
      else if pid_alive (int_in (text "pid") meta)
      then (running, t)
      else (judge_settled (int_in (text "rc") meta) (poll t), poll t)
