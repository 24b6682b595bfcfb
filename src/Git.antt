-- ===== src/Git.antt =====
-- The Git settings of a project and the states of its finalization journals: `AgentGitMode` and
-- `GitFinalizationState` of src/agent.rs.
pub mod Values
pub mod Transitions
use clt_rs.Prelude.{Bool, true, false, Option, none, some, Text, codes, text_eq, if◌then◌else◌}

pub data AgentGitMode : Type 0 where
  off commit commit_and_push : AgentGitMode

-- The order in which the settings key goes through the modes.
unfoldable pub next : AgentGitMode → AgentGitMode
next off = commit
next commit = commit_and_push
next commit_and_push = off

unfoldable pub mode_database_value : AgentGitMode → Text
mode_database_value off = codes "off"
mode_database_value commit = codes "commit"
mode_database_value commit_and_push = codes "commit-and-push"

-- `none` is the error `Unknown agent Git mode`.
unfoldable pub mode_from_database : Text → Option AgentGitMode
mode_from_database value =
    if text_eq value (codes "off")
    then some off
    else if text_eq value (codes "commit")
    then some commit
    else if text_eq value (codes "commit-and-push")
    then some commit_and_push
    else none

pub data GitFinalizationState : Type 0 where
  working tracking commit_pending push_pending completed cancelled : GitFinalizationState

unfoldable pub state_database_value : GitFinalizationState → Text
state_database_value working = codes "working"
state_database_value tracking = codes "tracking"
state_database_value commit_pending = codes "commit_pending"
state_database_value push_pending = codes "push_pending"
state_database_value completed = codes "completed"
state_database_value cancelled = codes "cancelled"

-- `none` is the error `Unknown Git finalization state`.
unfoldable pub state_from_database : Text → Option GitFinalizationState
state_from_database value =
    if text_eq value (codes "working")
    then some working
    else if text_eq value (codes "tracking")
    then some tracking
    else if text_eq value (codes "commit_pending")
    then some commit_pending
    else if text_eq value (codes "push_pending")
    then some push_pending
    else if text_eq value (codes "completed")
    then some completed
    else if text_eq value (codes "cancelled")
    then some cancelled
    else none

unfoldable pub is_terminal : GitFinalizationState → Bool
is_terminal completed = true
is_terminal cancelled = true
is_terminal _ = false

unfoldable pub is_finalizing : GitFinalizationState → Bool
is_finalizing tracking = true
is_finalizing commit_pending = true
is_finalizing push_pending = true
is_finalizing _ = false

unfoldable pub can_transition_to : GitFinalizationState → GitFinalizationState → Bool
can_transition_to working working = true
can_transition_to working tracking = true
can_transition_to working cancelled = true
can_transition_to tracking tracking = true
can_transition_to tracking commit_pending = true
can_transition_to commit_pending commit_pending = true
can_transition_to commit_pending push_pending = true
can_transition_to commit_pending completed = true
can_transition_to push_pending push_pending = true
can_transition_to push_pending completed = true
can_transition_to _ _ = false

-- The states in `g.state IN ('working', 'tracking', 'commit_pending', 'push_pending')`.
unfoldable pub is_open : GitFinalizationState → Bool
is_open completed = false
is_open cancelled = false
is_open _ = true
