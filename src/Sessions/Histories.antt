-- ===== src/Sessions/Histories.antt =====
-- Sequences of the operations of src/agent/repositories/sessions_runs.rs on the controls, of any
-- processes.
use clt_rs.Prelude.{ℕ, Bool, Option, List, [], ◌∷◌, Text}
use clt_rs.Git.{AgentGitMode}
use clt_rs.Sessions.{AgentSessionControlState, AgentSessionControlRecord}
use clt_rs.Store.{Db}
use clt_rs.Scheduler.Reclaim.{InteractiveGuardianDisposition}
use clt_rs.Sessions.Requests.{
  request_session_interrupt, cancel_session_interrupt_handoff, request_session_stop,
  request_interactive_session_stop, request_stopped_session_resume,
  begin_stopped_session_interactive, transition_session_control_state,
  recover_stale_automated_session_control, recover_stale_interactive_session_control,
  complete_session_stop,
}
use clt_rs.Sessions.Planning.{
  register_planning_session, register_shared_planning_session,
  reserve_idle_session_interactive_for_state, reserve_shared_session_interactive,
  cancel_idle_session_interactive,
}
use clt_rs.Sessions.Handoffs.{
  claim_orphaned_session_supervision, AutomatedSessionFinalization,
  finalize_automated_session_after_exit, complete_session_interrupt_handoff,
}
use clt_rs.Sessions.Guardians.{
  adopt_interactive_guardian, register_interactive_guardian_child, finish_interactive_guardian,
  recover_stale_interactive_guardian,
}
use clt_rs.Sessions.Registration.{
  Launch, AgentKnownSessionRegistration, register_known_session_with_child,
}
use clt_rs.Sessions.Registration.Journals.{mark_session_running}
use clt_rs.Sessions.Clearing.{
  retire_completed_resume_request, clear_orphaned_resume_requested_session,
  clear_running_session_control, clear_autonomous_push_resume_request,
  ensure_pending_git_finalization_resume_requested,
}
use clt_rs.Sessions.Steps.{
  Action, watching, interrupting, cancelling, stopping, stopping_interactive, resuming, opening,
  finishing, planning, releasing, ending, handing, adopting, closing, starting, retiring, dropping,
  clearing, requesting, registering, changing, Step, state_in, IsKeyed,
}
use clt_rs.Sessions.Refinement.{MovesDb}
use clt_rs.Sessions.Refinement.Requests.{
  request_session_interrupt-Moves, cancel_session_interrupt_handoff-Moves,
  request_session_stop-Moves, request_interactive_session_stop-Moves,
  request_stopped_session_resume-Moves, begin_stopped_session_interactive-Moves,
  complete_session_stop-Moves, transition_session_control_state-Moves,
  recover_stale_automated_session_control-Moves, recover_stale_interactive_session_control-Moves,
}
use clt_rs.Sessions.Refinement.Planning.{
  register_planning_session-Moves, register_shared_planning_session-Moves,
  reserve_idle_session_interactive_for_state-Moves, reserve_shared_session_interactive-Moves,
  cancel_idle_session_interactive-Moves,
}
use clt_rs.Sessions.Refinement.Handoffs.{
  claim_orphaned_session_supervision-Moves, finalize_automated_session_after_exit-Moves,
  complete_session_interrupt_handoff-Moves,
}
use clt_rs.Sessions.Refinement.Guardians.{
  adopt_interactive_guardian-Moves, register_interactive_guardian_child-Moves,
  finish_interactive_guardian-Moves, recover_stale_interactive_guardian-Moves,
}
use clt_rs.Sessions.Refinement.Registration.{
  mark_session_running-Moves, register_known_session_with_child-Moves,
}
use clt_rs.Sessions.Refinement.Clearing.{
  retire_completed_resume_request-Moves, clear_orphaned_resume_requested_session-Moves,
  clear_running_session_control-Moves, clear_autonomous_push_resume_request-Moves,
  ensure_pending_git_finalization_resume_requested-Moves,
}

pub data Operation : Type 0 where
  interrupt : ℕ → Text → ℕ → Text → Text → Text → Operation
  cancel_interrupt : ℕ → Text → Text → Text → Operation
  stop : ℕ → Text → ℕ → Text → Text → Operation
  stop_interactive : ℕ → Text → ℕ → Text → Text → Operation
  resume : ℕ → Text → Option Text → Text → Operation
  begin_stopped : ℕ → Text → Text → Option Text → Text → Operation
  complete_stop : ℕ → Text → Text → Text → Operation
  transition : ℕ → Text → AgentSessionControlState → AgentSessionControlState → Text → Operation
  recover_automated :
      ℕ
      → Text
      → AgentSessionControlState
      → AgentSessionControlState
      → ℕ
      → Option Text
      → Text
      → Operation
  recover_interactive :
      ℕ
      → Text
      → AgentSessionControlState
      → AgentSessionControlState
      → Option Text
      → Text
      → Operation
  plan : ℕ → Text → Text → Text → Operation
  plan_shared : ℕ → Text → Text → Operation
  reserve_idle : ℕ → Text → Text → Option Text → Option AgentSessionControlState → Text → Operation
  reserve_shared : ℕ → Text → Text → Option Text → Bool → Text → Operation
  cancel_idle : ℕ → Text → Text → Text → Operation
  claim_supervision : AgentSessionControlRecord → Text → Text → Text → Operation
  finalize : AutomatedSessionFinalization → Operation
  complete_interrupt : ℕ → Text → Text → Text → Text → Text → Text → Operation
  adopt : ℕ → Option Text → Text → Text → Text → Text → Text → Operation
  register_child : ℕ → Text → Text → ℕ → Text → Text → Operation
  finish : ℕ → Text → Text → InteractiveGuardianDisposition → Text → Operation
  recover_guardian : ℕ → Text → Text → Option ℕ → InteractiveGuardianDisposition → Text → Operation
  mark_running : Launch → Option AgentGitMode → Text → Operation
  register_known : AgentKnownSessionRegistration → Operation
  retire : AgentSessionControlRecord → Text → Operation
  clear_orphaned : ℕ → Text → Text → Operation
  clear_running : ℕ → Text → Option Text → Operation
  clear_push : ℕ → Text → Operation
  ensure_resume : ℕ → Text → Text → Text → Operation

unfoldable pub apply : Operation → Db → Db
apply (interrupt a0 a1 a2 a3 a4 a5) db = (request_session_interrupt a0 a1 a2 a3 a4 a5 db).1
apply (cancel_interrupt a0 a1 a2 a3) db = (cancel_session_interrupt_handoff a0 a1 a2 a3 db).1
apply (stop a0 a1 a2 a3 a4) db = (request_session_stop a0 a1 a2 a3 a4 db).1
apply (stop_interactive a0 a1 a2 a3 a4) db = (request_interactive_session_stop a0 a1 a2 a3 a4 db).1
apply (resume a0 a1 a2 a3) db = (request_stopped_session_resume a0 a1 a2 a3 db).1
apply (begin_stopped a0 a1 a2 a3 a4) db = (begin_stopped_session_interactive a0 a1 a2 a3 a4 db).1
apply (complete_stop a0 a1 a2 a3) db = (complete_session_stop a0 a1 a2 a3 db).1
apply (transition a0 a1 a2 a3 a4) db = (transition_session_control_state a0 a1 a2 a3 a4 db).1
apply (recover_automated a0 a1 a2 a3 a4 a5 a6) db =
    (recover_stale_automated_session_control a0 a1 a2 a3 a4 a5 a6 db).1
apply (recover_interactive a0 a1 a2 a3 a4 a5) db =
    (recover_stale_interactive_session_control a0 a1 a2 a3 a4 a5 db).1
apply (plan a0 a1 a2 a3) db = (register_planning_session a0 a1 a2 a3 db).1
apply (plan_shared a0 a1 a2) db = (register_shared_planning_session a0 a1 a2 db).1
apply (reserve_idle a0 a1 a2 a3 a4 a5) db =
    (reserve_idle_session_interactive_for_state a0 a1 a2 a3 a4 a5 db).1
apply (reserve_shared a0 a1 a2 a3 a4 a5) db =
    (reserve_shared_session_interactive a0 a1 a2 a3 a4 a5 db).1
apply (cancel_idle a0 a1 a2 a3) db = (cancel_idle_session_interactive a0 a1 a2 a3 db).1
apply (claim_supervision a0 a1 a2 a3) db = (claim_orphaned_session_supervision a0 a1 a2 a3 db).1
apply (finalize a0) db = (finalize_automated_session_after_exit a0 db).1
apply (complete_interrupt a0 a1 a2 a3 a4 a5 a6) db =
    (complete_session_interrupt_handoff a0 a1 a2 a3 a4 a5 a6 db).1
apply (adopt a0 a1 a2 a3 a4 a5 a6) db = (adopt_interactive_guardian a0 a1 a2 a3 a4 a5 a6 db).1
apply (register_child a0 a1 a2 a3 a4 a5) db =
    (register_interactive_guardian_child a0 a1 a2 a3 a4 a5 db).1
apply (finish a0 a1 a2 a3 a4) db = (finish_interactive_guardian a0 a1 a2 a3 a4 db).1
apply (recover_guardian a0 a1 a2 a3 a4 a5) db =
    (recover_stale_interactive_guardian a0 a1 a2 a3 a4 a5 db).1
apply (mark_running a0 a1 a2) db = (mark_session_running a0 a1 a2 db).1
apply (register_known a0) db = (register_known_session_with_child a0 db).1
apply (retire a0 a1) db = (retire_completed_resume_request a0 a1 db).1
apply (clear_orphaned a0 a1 a2) db = (clear_orphaned_resume_requested_session a0 a1 a2 db).1
apply (clear_running a0 a1 a2) db = (clear_running_session_control a0 a1 a2 db).1
apply (clear_push a0 a1) db = (clear_autonomous_push_resume_request a0 a1 db).1
apply (ensure_resume a0 a1 a2 a3) db =
    (ensure_pending_git_finalization_resume_requested a0 a1 a2 a3 db).1

-- What each operation sets out to do.
unfoldable pub action_of : Operation → Action
action_of (interrupt a0 a1 a2 a3 a4 a5) = interrupting
action_of (cancel_interrupt a0 a1 a2 a3) = cancelling
action_of (stop a0 a1 a2 a3 a4) = stopping
action_of (stop_interactive a0 a1 a2 a3 a4) = stopping_interactive
action_of (resume a0 a1 a2 a3) = resuming
action_of (begin_stopped a0 a1 a2 a3 a4) = opening
action_of (complete_stop a0 a1 a2 a3) = finishing
action_of (transition a0 a1 a2 a3 a4) = changing a2 a3
action_of (recover_automated a0 a1 a2 a3 a4 a5 a6) = changing a2 a3
action_of (recover_interactive a0 a1 a2 a3 a4 a5) = changing a2 a3
action_of (plan a0 a1 a2 a3) = planning
action_of (plan_shared a0 a1 a2) = planning
action_of (reserve_idle a0 a1 a2 a3 a4 a5) = opening
action_of (reserve_shared a0 a1 a2 a3 a4 a5) = opening
action_of (cancel_idle a0 a1 a2 a3) = releasing
action_of (claim_supervision a0 a1 a2 a3) = watching
action_of (finalize a0) = ending
action_of (complete_interrupt a0 a1 a2 a3 a4 a5 a6) = handing
action_of (adopt a0 a1 a2 a3 a4 a5 a6) = adopting
action_of (register_child a0 a1 a2 a3 a4 a5) = watching
action_of (finish a0 a1 a2 a3 a4) = closing
action_of (recover_guardian a0 a1 a2 a3 a4 a5) = closing
action_of (mark_running a0 a1 a2) = starting
action_of (register_known a0) = registering
action_of (retire a0 a1) = retiring
action_of (clear_orphaned a0 a1 a2) = dropping
action_of (clear_running a0 a1 a2) = clearing
action_of (clear_push a0 a1) = dropping
action_of (ensure_resume a0 a1 a2 a3) = requesting

apply-Moves : (o : Operation) (db : Db) → MovesDb (action_of o) db (apply o db)
unfolding apply action_of
apply-Moves (interrupt a0 a1 a2 a3 a4 a5) db = request_session_interrupt-Moves a0 a1 db a2 a3 a4 a5
apply-Moves (cancel_interrupt a0 a1 a2 a3) db =
    cancel_session_interrupt_handoff-Moves a0 a1 db a2 a3
apply-Moves (stop a0 a1 a2 a3 a4) db = request_session_stop-Moves a0 a1 db a2 a3 a4
apply-Moves (stop_interactive a0 a1 a2 a3 a4) db =
    request_interactive_session_stop-Moves a0 a1 db a2 a3 a4
apply-Moves (resume a0 a1 a2 a3) db = request_stopped_session_resume-Moves a0 a1 db a2 a3
apply-Moves (begin_stopped a0 a1 a2 a3 a4) db =
    begin_stopped_session_interactive-Moves a0 a1 db a2 a3 a4
apply-Moves (complete_stop a0 a1 a2 a3) db = complete_session_stop-Moves a0 a1 db a2 a3
apply-Moves (transition a0 a1 a2 a3 a4) db =
    transition_session_control_state-Moves a0 a1 db a2 a3 a4
apply-Moves (recover_automated a0 a1 a2 a3 a4 a5 a6) db =
    recover_stale_automated_session_control-Moves a0 a1 db a2 a3 a4 a5 a6
apply-Moves (recover_interactive a0 a1 a2 a3 a4 a5) db =
    recover_stale_interactive_session_control-Moves a0 a1 db a2 a3 a4 a5
apply-Moves (plan a0 a1 a2 a3) db = register_planning_session-Moves a0 a1 db a2 a3
apply-Moves (plan_shared a0 a1 a2) db = register_shared_planning_session-Moves a0 a1 db a2
apply-Moves (reserve_idle a0 a1 a2 a3 a4 a5) db =
    reserve_idle_session_interactive_for_state-Moves a0 a1 db a2 a3 a4 a5
apply-Moves (reserve_shared a0 a1 a2 a3 a4 a5) db =
    reserve_shared_session_interactive-Moves a0 a1 db a2 a3 a4 a5
apply-Moves (cancel_idle a0 a1 a2 a3) db = cancel_idle_session_interactive-Moves a0 a1 db a2 a3
apply-Moves (claim_supervision a0 a1 a2 a3) db =
    claim_orphaned_session_supervision-Moves a0 a1 a2 a3 db
apply-Moves (finalize a0) db = finalize_automated_session_after_exit-Moves a0 db
apply-Moves (complete_interrupt a0 a1 a2 a3 a4 a5 a6) db =
    complete_session_interrupt_handoff-Moves a0 a1 a2 a3 a4 a5 a6 db
apply-Moves (adopt a0 a1 a2 a3 a4 a5 a6) db =
    adopt_interactive_guardian-Moves a0 a1 a2 a3 a4 a5 a6 db
apply-Moves (register_child a0 a1 a2 a3 a4 a5) db =
    register_interactive_guardian_child-Moves a0 a1 a2 a3 a4 a5 db
apply-Moves (finish a0 a1 a2 a3 a4) db = finish_interactive_guardian-Moves a0 a1 a2 a3 a4 db
apply-Moves (recover_guardian a0 a1 a2 a3 a4 a5) db =
    recover_stale_interactive_guardian-Moves a0 a1 a2 a3 a4 a5 db
apply-Moves (mark_running a0 a1 a2) db = mark_session_running-Moves a0 a1 a2 db
apply-Moves (register_known a0) db = register_known_session_with_child-Moves a0 db
apply-Moves (retire a0 a1) db = retire_completed_resume_request-Moves a0 a1 db
apply-Moves (clear_orphaned a0 a1 a2) db = clear_orphaned_resume_requested_session-Moves a0 a1 a2 db
apply-Moves (clear_running a0 a1 a2) db = clear_running_session_control-Moves a0 a1 a2 db
apply-Moves (clear_push a0 a1) db = clear_autonomous_push_resume_request-Moves a0 a1 db
apply-Moves (ensure_resume a0 a1 a2 a3) db =
    ensure_pending_git_finalization_resume_requested-Moves a0 a1 a2 a3 db

unfoldable pub apply_all : List Operation → Db → Db
apply_all [] db = db
apply_all (o ∷ os) db = apply_all os (apply o db)

unfoldable pub actions : List Operation → List Action
unfolding action_of
actions [] = []
actions (o ∷ os) = action_of o ∷ actions os

-- A session goes through a list of actions, one step for each.
pub data Steps
    : List Action → Option AgentSessionControlState → Option AgentSessionControlState → Type 0 where
  done : {s : Option AgentSessionControlState} → Steps [] s s
  next :
      {a : Action} {acts : List Action} {r s t : Option AgentSessionControlState}
      → Step a r s
      → Steps acts s t
      → Steps (a ∷ acts) r t

-- Over every sequence of operations, in any order and by any processes, from a table in which no
-- session has two controls, each session's state stays for each operation in turn or takes a step
-- that the operation's own action may take: a request to stop moves only a session that runs, and
-- only to `stop_requested`, a recovery only one in the state that it names, to the state that it
-- names, and so for every operation.
pub apply_all-refines :
    (os : List Operation) (db : Db) (project_id : ℕ) (session : Text)
    → IsKeyed db.controls
    → Steps
        (actions os)
        (state_in project_id session db.controls)
        (state_in project_id session (apply_all os db).controls)
unfolding apply_all actions
apply_all-refines [] db p s k = done
apply_all-refines (o ∷ os) db p s k =
    let m = apply-Moves o db in
    next (m.step k p s) (apply_all-refines os (apply o db) p s (m.keyed k))
