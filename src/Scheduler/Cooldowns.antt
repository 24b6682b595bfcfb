-- ===== src/Scheduler/Cooldowns.antt =====
-- When a project waits, and for how long: src/scheduler.rs.
use clt_rs.Prelude.{
  ℕ, ◌+◌, ◌-◌, ◌*◌, ◌≤◌, ◌<◌, ◌≡◌, refl, Bool, true, false, Option, none, some, arith,
  if◌then◌else◌, Text, codes,
}
use clt_rs.Store.{AgentProject}
use clt_rs.Projects.{is_success, project_after_run}
use clt_rs.Scheduler.{
  AgentTaskSelection, next_todo, resume_doing, recover_blocked, resume_session, supervisor_review,
  supervisor_retry,
}
use clt_rs.Scheduler.Delays.{
  agent_lease_renew_interval, parsed_at, delay_from, remaining_agent_delay, active_for,
  failure_backoff_reason, agent_project_cooldown_reason, blocked_recovery_backoff_reason,
  agent_task_cooldown_reason,
}

-- A lease of a second or more is renewed at an interval between a quarter of a second and 15
-- seconds, and three such intervals fit into the lease.
pub agent_lease_renew_interval_bounds :
    (lease_timeout : ℕ)
    → 1000 ≤ lease_timeout
    → (250 ≤ agent_lease_renew_interval lease_timeout)
      × (agent_lease_renew_interval lease_timeout ≤ 15000)
      × (3 * agent_lease_renew_interval lease_timeout ≤ lease_timeout)
unfolding agent_lease_renew_interval
agent_lease_renew_interval_bounds t h = ground arith

counts_down :
    (at : Option ℕ) (now delay k j : ℕ)
    → delay_from at now delay ≡ some k
    → (j < k → delay_from at (now + j) delay ≡ some (k - j))
      × (k ≤ j → delay_from at (now + j) delay ≡ none)
counts_down none now delay k j h = absurd cc
counts_down (some last) now delay k j h = ground arith

-- A delay of `k` seconds counts down: after fewer seconds what is left of it remains, after `k`
-- seconds nothing does.
pub remaining_agent_delay-counts_down :
    (last_at : Option Text) (now delay k j : ℕ)
    → remaining_agent_delay last_at now delay ≡ some k
    → (j < k → remaining_agent_delay last_at (now + j) delay ≡ some (k - j))
      × (k ≤ j → remaining_agent_delay last_at (now + j) delay ≡ none)
unfolding remaining_agent_delay
remaining_agent_delay-counts_down last_at now delay k j h =
    counts_down (parsed_at last_at) now delay k j h

failure_first :
    (p : AgentProject) (s : AgentTaskSelection) (now cooldown backoff : ℕ) (reason : Text)
    → failure_backoff_reason p now backoff ≡ some reason
    → agent_task_cooldown_reason p s now cooldown backoff ≡ some reason
unfolding agent_task_cooldown_reason agent_project_cooldown_reason
failure_first p next_todo now cooldown backoff reason h = ground arith
failure_first p resume_doing now cooldown backoff reason h = h
failure_first p recover_blocked now cooldown backoff reason h = ground arith
failure_first p resume_session now cooldown backoff reason h = h
failure_first p supervisor_review now cooldown backoff reason h = ground arith
failure_first p supervisor_retry now cooldown backoff reason h = ground arith

-- Whatever the scheduler would run, a project whose last failure is too recent waits for the rest
-- of the backoff.
pub every_selection_backs_off :
    (p : AgentProject) (s : AgentTaskSelection) (now cooldown backoff k : ℕ)
    → 0 < p.failure_count
    → remaining_agent_delay p.last_failure_at now backoff ≡ some k
    → agent_task_cooldown_reason p s now cooldown backoff
      ≡ active_for (codes "failure backoff") (some k)
unfolding failure_backoff_reason active_for
every_selection_backs_off p s now cooldown backoff k f h =
    failure_first p s now cooldown backoff _ (ground arith)

-- The selections that go on with a task.
abbrev pub resumes : AgentTaskSelection → Bool
resumes resume_doing = true
resumes resume_session = true
resumes _ = false

no_delay : (now delay : ℕ) → remaining_agent_delay none now delay ≡ none
unfolding remaining_agent_delay
no_delay now delay = refl

-- After a successful run a project goes on with a task at once, and waits for the rest of the
-- success cooldown before any other run.
pub after_success :
    (p : AgentProject) (s : AgentTaskSelection) (status finished_at : Text)
    (now cooldown backoff : ℕ)
    → is_success status ≡ true
    → agent_task_cooldown_reason (project_after_run status finished_at p) s now cooldown backoff ≡ (
        if resumes s
        then none
        else active_for
            (codes "success cooldown")
            (remaining_agent_delay (some finished_at) now cooldown))
unfolding agent_task_cooldown_reason agent_project_cooldown_reason failure_backoff_reason
    project_after_run blocked_recovery_backoff_reason active_for
after_success p s status finished_at now cooldown backoff h = elim s [
  | next_todo ↦ ground (arith, no_delay now backoff)
  | resume_doing ↦ ground (arith, no_delay now backoff)
  | recover_blocked ↦ ground (arith, no_delay now backoff)
  | resume_session ↦ ground (arith, no_delay now backoff)
  | supervisor_review ↦ ground (arith, no_delay now backoff)
  | supervisor_retry ↦ ground (arith, no_delay now backoff)
]
