-- ===== src/Examples/Scheduling.antt =====
-- The theorems on the scheduler and on ended runs at concrete inputs.
use clt_rs.Prelude.{
  ℕ, ◌+◌, ◌-◌, ◌≤◌, ◌<◌, ◌≡◌, refl, Bool, true, false, not, Option, none, some, List, [], ◌∷◌, ◌==◌,
  Text, codes, text_eq, starts_with, parse_digits, parse_unsigned, parse_u64, decimal,
}
use clt_rs.Scheduler.{controls_suspend_ready_work}
use clt_rs.Scheduler.Reclaim.{
  is_dead, is_claimed_by_session, interactive_lease_holder_pid,
  interactive_lease_holder_is_proven_dead, guardian_process_id, guardian_holder_prefix,
  from_guardian_holder, find_pid, find_disposition, agent_pid_liveness, agent_lease_holder_pid,
  agent_lease_holder_liveness, reclaimable_liveness, strip_prefix, pid_after,
  recovered_supervisor_pid, agent_lease_is_reclaimable, before_dash, parse_u32,
  try_reclaim_inactive_agent_lease, is_worker_fenced,
}
use clt_rs.Sql.{count, any, delete}
use clt_rs.Leases.{release_lease, AgentLeaseRecord, held_by}
use clt_rs.Store.{project_exists, is_active, pos, AgentProject}
use clt_rs.Projects.{is_failure}
use clt_rs.Scheduler.Delays.{remaining_agent_delay}
use clt_rs.Sessions.{AgentSessionControlRecord, AgentSessionControlState, stopped, resume_requested}
use clt_rs.Scheduler.Decisions.{controls_suspend-is_clear, is_clear, stands_in_the_way}
use clt_rs.Scheduler.Cooldowns.{remaining_agent_delay-counts_down}
use clt_rs.Scheduler.Reclaiming.{reclaim-spares_reattached, reclaim-releases}
use clt_rs.Runner.{AgentSupervisionOutcomeRequest, timed_out, classify_agent_supervision_stage}
use clt_rs.Runner.Outcomes.{failed_run, classify-is_failure}
use clt_rs.Examples.{project, scheduler, leased}

abbrev two : ℕ
two = 2

abbrev no_task : ℕ
no_task = 0

remaining_agent_delay-counts_down_example :
    (30 < 50 → remaining_agent_delay (some (codes "100")) (110 + 30) 60 ≡ some (50 - 30))
    × (50 ≤ 30 → remaining_agent_delay (some (codes "100")) (110 + 30) 60 ≡ none)
unfolding remaining_agent_delay parse_u64
remaining_agent_delay-counts_down_example =
    remaining_agent_delay-counts_down (some (codes "100")) 110 60 50 30 refl

abbrev failed_project : AgentProject
failed_project = record project { failure_count = 2; last_failure_at = some (codes "100") }

-- Process 42 runs, every other process is dead.
abbrev only_42 : ℕ → Option Bool
only_42 pid = some (pid == 42)

abbrev lease_of : Text → AgentLeaseRecord
lease_of holder = record {
  project_id = 1;
  project_name = codes "work";
  project_path = codes "/work";
  holder = holder;
  acquired_at = codes "100";
  expires_at = codes "160";
}

reclaim-spares_reattached_example :
    try_reclaim_inactive_agent_lease only_42 7 1
      (lease_of (codes "clt-reattached-42-a"))
      true
      500
      leased
    ≡ (false, leased)
unfolding parse_u32 parse_u64 before_dash
reclaim-spares_reattached_example =
    reclaim-spares_reattached only_42 7 1 (lease_of (codes "clt-reattached-42-a")) true 500 leased
      (codes "42-a") 42 refl refl (λ e. cc)

reclaim-releases_example :
    (is_worker_fenced leased 1 scheduler ≡ false)
    × (any (held_by 1 scheduler) leased.leases ≡ true)
    × ((try_reclaim_inactive_agent_lease only_42 9 1 (lease_of scheduler) false 120 leased).1
        ≡ record leased { leases = delete (held_by 1 scheduler) leased.leases })
unfolding try_reclaim_inactive_agent_lease agent_lease_is_reclaimable recovered_supervisor_pid
    pid_after mathlib.Core.Option.bind strip_prefix parse_u64 reclaimable_liveness
    agent_lease_holder_liveness agent_lease_holder_pid parse_u32 agent_pid_liveness is_worker_fenced
    any release_lease count held_by parse_digits parse_unsigned starts_with text_eq before_dash
    find_disposition find_pid from_guardian_holder guardian_holder_prefix guardian_process_id
    interactive_lease_holder_is_proven_dead interactive_lease_holder_pid is_claimed_by_session
    is_dead delete is_active project_exists
reclaim-releases_example = reclaim-releases only_42 9 1 (lease_of scheduler) false 120 leased refl

abbrev timeout_request : AgentSupervisionOutcomeRequest ℕ
timeout_request = record {
  wait_result = timed_out (some 137);
  requested_control = none;
  reported_no_tasks = false;
  timeout = 60;
}

classify-is_failure_example :
    is_failure
      (classify_agent_supervision_stage
        (λ n. some (pos n))
        (λ n. n == 0)
        decimal
        timeout_request).status
    ≡ failed_run (λ n. n == 0) timeout_request
classify-is_failure_example =
    classify-is_failure (λ n. some (pos n)) (λ n. n == 0) decimal timeout_request

abbrev session_in : AgentSessionControlState → AgentSessionControlRecord
session_in state = record {
  project_id = 1;
  codex_session_id = codes "s1";
  state = state;
  child_pid = none;
  run_token = none;
  interactive_holder = none;
  interactive_launch_token = none;
  stdout_path = none;
  stderr_path = none;
  updated_at = codes "100";
}

abbrev sessions : List AgentSessionControlRecord
sessions = session_in stopped ∷ session_in resume_requested ∷ []

abbrev always_waits : AgentSessionControlRecord → Option Bool
always_waits c = some true

controls_suspend-is_clear_example :
    is_clear (controls_suspend_ready_work always_waits sessions)
    ≡ not (any (stands_in_the_way always_waits) sessions)
controls_suspend-is_clear_example = controls_suspend-is_clear always_waits sessions
