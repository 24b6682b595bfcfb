-- ===== src/Sessions.antt =====
-- The control record of a Codex session: `AgentSessionControlState`, `AgentSessionControlAction` and
-- the row of `session_controls`, of src/agent.rs.
pub mod Statements
pub mod Requests
pub mod Planning
pub mod Handoffs
pub mod Guardians
pub mod Registration
pub mod Clearing
pub mod Steps
pub mod Refinement
pub mod Histories
pub mod Running
pub mod Exits
use clt_rs.Prelude.{ℕ, Option, none, some, Text, codes, text_eq, if◌then◌else◌}

pub data AgentSessionControlAction : Type 0 where
  stop interrupt : AgentSessionControlAction

pub data AgentSessionControlState : Type 0 where
  running stop_requested stopped interrupt_requested ready_interactive interactive
        resume_requested :
      AgentSessionControlState

unfoldable pub control_database_value : AgentSessionControlState → Text
control_database_value running = codes "running"
control_database_value stop_requested = codes "stop_requested"
control_database_value stopped = codes "stopped"
control_database_value interrupt_requested = codes "interrupt_requested"
control_database_value ready_interactive = codes "ready_interactive"
control_database_value interactive = codes "interactive"
control_database_value resume_requested = codes "resume_requested"

-- `none` is the error `Unknown Codex session control state`.
unfoldable pub control_from_database : Text → Option AgentSessionControlState
control_from_database value =
    if text_eq value (codes "running")
    then some running
    else if text_eq value (codes "stop_requested")
    then some stop_requested
    else if text_eq value (codes "stopped")
    then some stopped
    else if text_eq value (codes "interrupt_requested")
    then some interrupt_requested
    else if text_eq value (codes "ready_interactive")
    then some ready_interactive
    else if text_eq value (codes "interactive")
    then some interactive
    else if text_eq value (codes "resume_requested")
    then some resume_requested
    else none

unfoldable pub requested_action : AgentSessionControlState → Option AgentSessionControlAction
requested_action stop_requested = some stop
requested_action interrupt_requested = some interrupt
requested_action _ = none

pub record AgentSessionControlRecord : Type 0 where
  pub project_id : ℕ
  pub codex_session_id : Text
  pub state : AgentSessionControlState
  pub child_pid : Option ℕ
  pub run_token : Option Text
  pub interactive_holder : Option Text
  pub interactive_launch_token : Option Text
  pub stdout_path : Option Text
  pub stderr_path : Option Text
  pub updated_at : Text
