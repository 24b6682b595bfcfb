-- ===== src/Scheduler.antt =====
-- What the scheduler of src/scheduler.rs decides for a project: the scan of its board, the stage to
-- run, whether its sessions suspend it, and how long the daemon sleeps; `AgentTaskSelection` and
-- `AgentProjectScan` of src/application.rs. The text of an unavailable project is the library's.
pub mod Delays
pub mod Reclaim
pub mod Decisions
pub mod Cooldowns
pub mod Reclaiming
use clt_rs.Prelude.{
  ℕ, zero, suc, ◌+◌, ◌-◌, ◌*◌, ◌/◌, ◌%◌, ◌^◌, ◌≤◌, ◌<◌, ◌≡◌, refl, sym, ap, ◌∙◌, ◌≢◌, ◌↔◌, ◌⊎◌, inl,
  inr, Bool, true, false, ◌&&◌, ◌||◌, not, Option, none, some, List, [], ◌∷◌, ◌++◌, arith,
  if◌then◌else◌, ltb, leb, ◌==◌, ==_iff, ==_refl, Bool-cases, Option-cases, is_some, is_none,
  unwrap_or, Text, codes, text_eq, text_eq→eq, text_eq_refl, text_eq_iff, starts_with, text_leb,
  is_digit, cast_digits, cast_integer, u64_max, parse_digits, parse_unsigned, parse_u64,
  like_prefix, decimal, length,
}
use clt_rs.Sql.{any}
use clt_rs.Sessions.{AgentSessionControlRecord, AgentSessionControlState, stopped}

pub data AgentTaskSelection : Type 0 where
  next_todo resume_doing recover_blocked resume_session supervisor_review supervisor_retry :
      AgentTaskSelection

unfoldable pub selection_label : AgentTaskSelection → Text
selection_label next_todo = codes "next_todo"
selection_label resume_doing = codes "resume_doing"
selection_label recover_blocked = codes "recover_blocked"
selection_label resume_session = codes "resume_session"
selection_label supervisor_review = codes "supervisor_review"
selection_label supervisor_retry = codes "supervisor_retry"

-- `none` is the error `Unknown agent worker task selection`.
unfoldable pub selection_from_label : Text → Option AgentTaskSelection
selection_from_label value =
    if text_eq value (codes "next_todo")
    then some next_todo
    else if text_eq value (codes "resume_doing")
    then some resume_doing
    else if text_eq value (codes "recover_blocked")
    then some recover_blocked
    else if text_eq value (codes "resume_session")
    then some resume_session
    else if text_eq value (codes "supervisor_review")
    then some supervisor_review
    else if text_eq value (codes "supervisor_retry")
    then some supervisor_retry
    else none

pub record AgentSchedulingDecisionRequest : Type 0 where
  pub has_resume_session : Bool
  pub resume_interrupted_task : Bool
  pub has_blocked_task : Bool
  pub blocked_recovery_backoff_active : Bool
  pub has_pending_task : Bool

unfoldable pub decide_agent_scheduling_stage :
    AgentSchedulingDecisionRequest → Option AgentTaskSelection
decide_agent_scheduling_stage request =
    if request.has_resume_session
    then some resume_session
    else if request.resume_interrupted_task
    then some resume_doing
    else if request.has_blocked_task && not request.blocked_recovery_backoff_active
    then some recover_blocked
    else if request.has_pending_task
    then some next_todo
    else if request.has_blocked_task
    then some recover_blocked
    else none

abbrev pub empty_registry_poll_interval : ℕ
empty_registry_poll_interval = 5

-- In seconds.
unfoldable pub agent_daemon_sleep_interval : ℕ → ℕ → ℕ
agent_daemon_sleep_interval scanned_projects poll_interval =
    if scanned_projects == 0
    then if leb poll_interval empty_registry_poll_interval
      then poll_interval
      else empty_registry_poll_interval
    else poll_interval

abbrev pub is_stopped : AgentSessionControlState → Bool
is_stopped stopped = true
is_stopped _ = false

unfoldable pub session_controls_suspend_project : List AgentSessionControlRecord → Bool
session_controls_suspend_project controls = any (λ c. not (is_stopped c.state)) controls

-- The loop over the controls: the first that is not stopped and cannot wait suspends. `none` is an
-- error. `queued_resume_can_wait` reads the board and the supervisor's queue: it is the parameter
-- `can_wait`.
unfoldable pub any_cannot_wait :
    (AgentSessionControlRecord → Option Bool) → List AgentSessionControlRecord → Option Bool
any_cannot_wait can_wait [] = some false
any_cannot_wait can_wait (c ∷ cs) =
    let rest = any_cannot_wait can_wait cs in
    if is_stopped c.state
    then rest
    else elim (can_wait c) [ none ↦ none | some waits ↦ if waits then rest else some true ]

unfoldable pub controls_suspend_ready_work :
    (AgentSessionControlRecord → Option Bool) → List AgentSessionControlRecord → Option Bool
controls_suspend_ready_work can_wait controls =
    if not (session_controls_suspend_project controls)
    then some false
    else any_cannot_wait can_wait controls

pub data AgentProjectScanStatus : Type 0 where
  pending blocked vacant missing uninitialized : AgentProjectScanStatus
  unavailable : Text → AgentProjectScanStatus

pub record AgentProjectScan : Type 0 where
  pub status : AgentProjectScanStatus
  pub todo_count : ℕ
  pub manual_todo_count : ℕ
  pub coordination_wait_count : ℕ
  pub blocked_todo_count : ℕ
  pub stopped_todo_count : ℕ
  pub doing_count : ℕ
  pub blocked_doing_count : ℕ

abbrev pub usize_max : ℕ
usize_max = 18446744073709551615

unfoldable pub saturating_add : ℕ → ℕ → ℕ
saturating_add a b = if leb (a + b) usize_max then a + b else usize_max

unfoldable pub scan_status : ℕ → ℕ → ℕ → AgentProjectScanStatus
scan_status available_todo_count task_count blocked_task_count =
    if ltb 0 available_todo_count
    then pending
    else if ltb 0 task_count && blocked_task_count == task_count
    then blocked
    else vacant

unfoldable pub from_counts : ℕ → ℕ → ℕ → ℕ → ℕ → AgentProjectScan
from_counts todo_count blocked_todo_count stopped_todo_count doing_count blocked_doing_count =
    record {
      status =
          scan_status (todo_count - blocked_todo_count - stopped_todo_count)
            (saturating_add todo_count doing_count)
            (saturating_add blocked_todo_count blocked_doing_count);
      todo_count = todo_count;
      manual_todo_count = 0;
      coordination_wait_count = 0;
      blocked_todo_count = blocked_todo_count;
      stopped_todo_count = stopped_todo_count;
      doing_count = doing_count;
      blocked_doing_count = blocked_doing_count;
    }

-- A board that was not counted.
abbrev pub uncounted : AgentProjectScanStatus → AgentProjectScan
uncounted status = record {
  status = status;
  todo_count = 0;
  manual_todo_count = 0;
  coordination_wait_count = 0;
  blocked_todo_count = 0;
  stopped_todo_count = 0;
  doing_count = 0;
  blocked_doing_count = 0;
}

unfoldable pub missing_scan : AgentProjectScan
missing_scan = uncounted missing

unfoldable pub uninitialized_scan : AgentProjectScan
uninitialized_scan = uncounted uninitialized

unfoldable pub unavailable_scan : Text → AgentProjectScan
unavailable_scan error = uncounted (unavailable error)

unfoldable pub has_pending_task : AgentProjectScan → Bool
has_pending_task scan = elim scan.status [ pending ↦ true | _ ↦ false ]

unfoldable pub blocked_task_count : AgentProjectScan → ℕ
blocked_task_count scan = saturating_add scan.blocked_todo_count scan.blocked_doing_count

unfoldable pub has_blocked_task : AgentProjectScan → Bool
has_blocked_task scan = ltb 0 (blocked_task_count scan)

unfoldable pub available_todo_count : AgentProjectScan → ℕ
available_todo_count scan =
    scan.todo_count - scan.manual_todo_count - scan.blocked_todo_count - scan.stopped_todo_count
    - scan.coordination_wait_count

unfoldable pub has_schedulable_work : AgentProjectScan → Bool
has_schedulable_work scan = has_pending_task scan || has_blocked_task scan
