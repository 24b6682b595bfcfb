-- ===== src/Scheduler/Decisions.antt =====
-- What the scheduler's decision and its scan of a board have to do with each other: src/scheduler.rs.
use clt_rs.Prelude.{
  ℕ, ◌+◌, ◌≤◌, ◌≡◌, refl, ◌↔◌, inl, inr, Bool, false, ◌&&◌, not, Option, none, some, List, [], ◌∷◌,
  arith, Option-cases, is_some, Text, codes, text_eq, text_eq→eq,
}
use clt_rs.Sql.{any}
use clt_rs.Sql.Laws.{any_mono}
use clt_rs.Sessions.{AgentSessionControlRecord}
use clt_rs.Scheduler.{
  any_cannot_wait, controls_suspend_ready_work, session_controls_suspend_project, is_stopped,
  AgentTaskSelection, next_todo, resume_doing, recover_blocked, resume_session, supervisor_review,
  supervisor_retry, selection_label, selection_from_label, AgentSchedulingDecisionRequest,
  decide_agent_scheduling_stage, saturating_add, scan_status, from_counts, has_pending_task,
  blocked_task_count, has_blocked_task, has_schedulable_work, AgentProjectScan,
}

-- The request for a project with no session to resume.
abbrev pub request_of : AgentProjectScan → Bool → AgentSchedulingDecisionRequest
request_of scan backoff = record {
  has_resume_session = false;
  resume_interrupted_task = false;
  has_blocked_task = has_blocked_task scan;
  blocked_recovery_backoff_active = backoff;
  has_pending_task = has_pending_task scan;
}

-- A project with no session or task to resume is given a run exactly where its scan has schedulable
-- work, whether or not the recovery of blocked tasks backs off.
pub decide-has_schedulable_work :
    (scan : AgentProjectScan) (backoff : Bool)
    → is_some (decide_agent_scheduling_stage (request_of scan backoff)) ≡ has_schedulable_work scan
unfolding decide_agent_scheduling_stage has_schedulable_work
decide-has_schedulable_work scan backoff = ground arith

-- Where no more todos are blocked or stopped than the board has, a counted board without
-- schedulable work has no blocked task, and all its todos are stopped.
pub from_counts-idle :
    (todo blocked_todo stopped_todo doing blocked_doing : ℕ)
    → blocked_todo + stopped_todo ≤ todo
    → has_schedulable_work (from_counts todo blocked_todo stopped_todo doing blocked_doing) ≡ false
    → (todo ≡ stopped_todo) × (blocked_todo ≡ 0) × (blocked_doing ≡ 0)
unfolding has_schedulable_work has_blocked_task blocked_task_count has_pending_task from_counts
    scan_status saturating_add
from_counts-idle t b s d e h k = ground arith

selection-read_back : (s : AgentTaskSelection) → selection_from_label (selection_label s) ≡ some s
unfolding selection_from_label selection_label text_eq
selection-read_back next_todo = refl
selection-read_back resume_doing = refl
selection-read_back recover_blocked = refl
selection-read_back resume_session = refl
selection-read_back supervisor_review = refl
selection-read_back supervisor_retry = refl

selection-text :
    (value : Text) (s : AgentTaskSelection)
    → selection_from_label value ≡ some s
    → value ≡ selection_label s
unfolding selection_from_label selection_label
selection-text value s h = ground (
  arith,
  text_eq→eq value (codes "next_todo"),
  text_eq→eq value (codes "resume_doing"),
  text_eq→eq value (codes "recover_blocked"),
  text_eq→eq value (codes "resume_session"),
  text_eq→eq value (codes "supervisor_review"),
  text_eq→eq value (codes "supervisor_retry"),
)

-- The text of a task selection reads back as the selection, and every other text is refused.
pub selection_from_label_iff :
    (value : Text) (s : AgentTaskSelection)
    → (selection_from_label value ≡ some s) ↔ (value ≡ selection_label s)
selection_from_label_iff value s = (selection-text value s, λ e. rw e (selection-read_back s))

abbrev pub may_wait : Option Bool → Bool
may_wait none = false
may_wait (some waits) = waits

-- The answer that ready work is not suspended.
abbrev pub is_clear : Option Bool → Bool
is_clear none = false
is_clear (some suspends) = not suspends

-- The session is not stopped, and cannot be shown to wait.
abbrev pub stands_in_the_way :
    (AgentSessionControlRecord → Option Bool) → AgentSessionControlRecord → Bool
stands_in_the_way can_wait c = not (is_stopped c.state) && not (may_wait (can_wait c))

loop_is_clear :
    (can_wait : AgentSessionControlRecord → Option Bool) (cs : List AgentSessionControlRecord)
    → is_clear (any_cannot_wait can_wait cs) ≡ not (any (stands_in_the_way can_wait) cs)
unfolding any_cannot_wait any
loop_is_clear can_wait [] = refl
loop_is_clear can_wait (c ∷ cs) = elim (Option-cases (can_wait c)) [
  | inl e ↦ ground (arith, loop_is_clear can_wait cs)
  | inr (b, e) ↦ ground (arith, loop_is_clear can_wait cs)
]

-- Ready work is let run exactly where every session is stopped or can wait: one error while that is
-- looked up keeps it from running.
pub controls_suspend-is_clear :
    (can_wait : AgentSessionControlRecord → Option Bool) (controls : List AgentSessionControlRecord)
    → is_clear (controls_suspend_ready_work can_wait controls)
      ≡ not (any (stands_in_the_way can_wait) controls)
unfolding controls_suspend_ready_work session_controls_suspend_project
controls_suspend-is_clear can_wait controls = ground (
  arith,
  loop_is_clear can_wait controls,
  any_mono (stands_in_the_way can_wait) (λ c. not (is_stopped c.state)) controls
      (λ c h. ground arith),
)
