-- ===== src/Scheduler/Delays.antt =====
-- The intervals and the backoffs of src/scheduler.rs, and the age of a worker's heartbeat in
-- src/worker.rs. A `Duration` is its number of seconds, where no other unit is named.
use clt_rs.Prelude.{
  ℕ, ◌+◌, ◌-◌, ◌/◌, Bool, true, Option, none, some, ◌++◌, if◌then◌else◌, ltb, leb, ◌==◌, Text,
  codes, u64_max, parse_u64, decimal,
}
use clt_rs.Store.{AgentProject}
use clt_rs.Scheduler.{AgentTaskSelection, resume_doing, resume_session, recover_blocked}

-- In milliseconds.
unfoldable pub agent_lease_renew_interval : ℕ → ℕ
agent_lease_renew_interval lease_timeout =
    let third = if leb (lease_timeout / 3) 250 then 250 else lease_timeout / 3 in
    if leb third 15000 then third else 15000

-- `none` is the error.
unfoldable pub parse_agent_run_timeout : Option Text → Option ℕ
parse_agent_run_timeout none = some 0
parse_agent_run_timeout (some raw) = parse_u64 raw

abbrev pub positive : Option ℕ → Option ℕ
positive none = none
positive (some n) = if n == 0 then none else some n

unfoldable pub parse_agent_timeout_duration : Text → Option ℕ
parse_agent_timeout_duration raw = positive (parse_u64 raw)

-- `usize` has 64 bits.
unfoldable pub parse_agent_positive_usize : Text → Option ℕ
parse_agent_positive_usize raw = positive (parse_u64 raw)

unfoldable pub saturating_add_u64 : ℕ → ℕ → ℕ
saturating_add_u64 a b = if leb (a + b) u64_max then a + b else u64_max

abbrev pub remaining_until : ℕ → ℕ → Option ℕ
remaining_until ready_at now = if ltb now ready_at then some (ready_at - now) else none

abbrev pub parsed_at : Option Text → Option ℕ
parsed_at none = none
parsed_at (some raw) = parse_u64 raw

abbrev pub delay_from : Option ℕ → ℕ → ℕ → Option ℕ
delay_from none now delay = none
delay_from (some last_at) now delay = remaining_until (saturating_add_u64 last_at delay) now

unfoldable pub remaining_agent_delay : Option Text → ℕ → ℕ → Option ℕ
unfolding saturating_add_u64
remaining_agent_delay last_at now delay = delay_from (parsed_at last_at) now delay

-- `format!("{reason} active for {remaining}s")`.
unfoldable pub active_for : Text → Option ℕ → Option Text
active_for reason none = none
active_for reason (some remaining) =
    some (reason ++ codes " active for " ++ decimal remaining ++ codes "s")

abbrev pub or_else : Option Text → Option Text → Option Text
or_else none b = b
or_else (some a) b = some a

unfoldable pub failure_backoff_reason : AgentProject → ℕ → ℕ → Option Text
failure_backoff_reason project now failure_backoff =
    if ltb 0 project.failure_count
    then active_for (codes "failure backoff")
        (remaining_agent_delay project.last_failure_at now failure_backoff)
    else none

unfoldable pub agent_project_cooldown_reason : AgentProject → ℕ → ℕ → ℕ → Option Text
agent_project_cooldown_reason project now success_cooldown failure_backoff =
    or_else (failure_backoff_reason project now failure_backoff) (
      active_for (codes "success cooldown")
        (remaining_agent_delay project.last_success_at now success_cooldown))

unfoldable pub blocked_recovery_backoff_reason : AgentProject → ℕ → ℕ → Option Text
blocked_recovery_backoff_reason project now failure_backoff =
    active_for (codes "blocked-task recovery backoff")
      (remaining_agent_delay project.last_blocked_recovery_at now failure_backoff)

unfoldable pub agent_task_cooldown_reason :
    AgentProject → AgentTaskSelection → ℕ → ℕ → ℕ → Option Text
agent_task_cooldown_reason project resume_doing now success_cooldown failure_backoff =
    failure_backoff_reason project now failure_backoff
agent_task_cooldown_reason project resume_session now success_cooldown failure_backoff =
    failure_backoff_reason project now failure_backoff
agent_task_cooldown_reason project recover_blocked now success_cooldown failure_backoff =
    or_else (agent_project_cooldown_reason project now success_cooldown failure_backoff)
      (blocked_recovery_backoff_reason project now failure_backoff)
agent_task_cooldown_reason project _ now success_cooldown failure_backoff =
    agent_project_cooldown_reason project now success_cooldown failure_backoff

unfoldable pub agent_worker_observation_is_stale : Option Text → ℕ → ℕ → Bool
agent_worker_observation_is_stale raw now timeout_seconds = elim (parsed_at raw) [
  | none ↦ true
  | some observed ↦ leb timeout_seconds (now - observed)
]
