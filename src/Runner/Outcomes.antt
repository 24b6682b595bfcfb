-- ===== src/Runner/Outcomes.antt =====
-- What the classification of a run does to its project's failure count: src/runner.rs, and
-- `update_project_after_run` of src/agent.rs.
use clt_rs.Prelude.{
  ℕ, ◌≡◌, refl, inl, inr, Bool, true, false, ◌&&◌, not, Option, none, some, Bool-cases, is_none,
  Text, text_eq,
}
use clt_rs.Store.{ℤ}
use clt_rs.Sessions.{AgentSessionControlAction, stop, interrupt}
use clt_rs.Projects.{is_failure}
use clt_rs.Runner.{
  AgentProcessWait, exited, timed_out, interrupted, AgentSupervisionOutcomeRequest,
  classify_controlled, classify_exited, classify_wait, classify_requested,
  classify_agent_supervision_stage,
}

-- The run failed by itself: it timed out, or it exited without success and did not report that no
-- tasks are left.
abbrev pub failed_wait : {E : Type 0} → (E → Bool) → AgentProcessWait E → Bool → Bool
failed_wait success (exited status) no_tasks = not no_tasks && not (success status)
failed_wait success (timed_out status) no_tasks = true
failed_wait success (interrupted status) no_tasks = false

abbrev pub failed_run : {E : Type 0} → (E → Bool) → AgentSupervisionOutcomeRequest E → Bool
failed_run success r =
    is_none r.requested_control && failed_wait success r.wait_result r.reported_no_tasks

module _ {E : Type 0} (code : E → Option ℤ) (success : E → Bool) (display : E → Text) where
  failure_of :
      (o : Option AgentSessionControlAction) (w : AgentProcessWait E) (no_tasks : Bool) (t : ℕ)
      → is_failure (classify_requested code success display o w no_tasks t).status
        ≡ (is_none o && failed_wait success w no_tasks)
  unfolding is_failure classify_controlled classify_wait classify_exited text_eq
  failure_of (some stop) w no_tasks t = refl
  failure_of (some interrupt) w no_tasks t = refl
  failure_of none (exited e) true t = refl
  failure_of none (exited e) false t = elim (Bool-cases (success e)) [
    | inl h ↦ rw h refl
    | inr h ↦ rw h refl
  ]
  failure_of none (timed_out e) no_tasks t = refl
  failure_of none (interrupted e) no_tasks t = refl

  -- The status that the classification gives a run counts as a failure of its project exactly where
  -- no session control ended the run and it either timed out, or exited without success and without
  -- reporting that no tasks are left: a stop, a handoff, a shutdown and an idle run do not count.
  pub classify-is_failure :
      (r : AgentSupervisionOutcomeRequest E)
      → is_failure (classify_agent_supervision_stage code success display r).status
        ≡ failed_run success r
  unfolding classify_agent_supervision_stage
  classify-is_failure r = failure_of r.requested_control r.wait_result r.reported_no_tasks r.timeout
