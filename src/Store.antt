-- ===== src/Store.antt =====
-- The rows of the agent's registry and its tables: the schema in `AGENT_MIGRATIONS` and the records
-- of src/agent.rs.
use clt_rs.Prelude.{ℕ, Bool, true, false, ◌&&◌, List, [], ◌++◌, Option, Text, codes, text_eq, ◌==◌}
use clt_rs.Sql.{any}
use clt_rs.Git.{AgentGitMode, GitFinalizationState}
use clt_rs.Sessions.{AgentSessionControlRecord}

-- An exit code, which may be negative.
pub data ℤ : Type 0 where
  pos : ℕ → ℤ
  negsuc : ℕ → ℤ

pub record AgentProject : Type 0 where
  pub id : ℕ
  pub path : Text
  pub name : Text
  pub enabled : Bool
  pub git_mode : AgentGitMode
  pub updated_at : Text
  pub last_run_at : Option Text
  pub last_success_at : Option Text
  pub last_failure_at : Option Text
  pub last_blocked_recovery_at : Option Text
  pub failure_count : ℕ

pub record Lease : Type 0 where
  pub project_id : ℕ
  pub holder : Text
  pub acquired_at : Text
  pub expires_at : Text

pub data WorkerState : Type 0 where
  dispatching running finalizing completed abandoned superseded : WorkerState

pub WorkerState-discrete : Discrete WorkerState
WorkerState-discrete = hlevel

-- The states in `w.state IN ('dispatching', 'running', 'finalizing')`.
unfoldable pub is_active : WorkerState → Bool
is_active dispatching = true
is_active running = true
is_active finalizing = true
is_active _ = false

pub record AgentWorker : Type 0 where
  pub worker_token : Text
  pub project_id : ℕ
  pub state : WorkerState
  pub protocol_version : ℕ
  pub lease_holder : Text
  pub service_label : Text
  pub binary_path : Text
  pub command_arguments : Text
  pub path_env : Text
  pub codex_path : Option Text
  pub task_selection : Text
  pub resume_session_id : Option Text
  pub worker_pid : Option ℕ
  pub created_at : Text
  pub started_at : Option Text
  pub heartbeat_at : Option Text
  pub finished_at : Option Text
  pub run_id : Option ℕ
  pub error : Option Text
  pub service_cleaned_at : Option Text

pub record AgentRun : Type 0 where
  pub id : ℕ
  pub project_id : ℕ
  pub status : Text
  pub started_at : Text
  pub finished_at : Option Text
  pub exit_code : Option ℤ
  pub log_dir : Option Text
  pub stdout_path : Option Text
  pub stderr_path : Option Text
  pub summary : Option Text
  pub codex_session_id : Option Text
  pub worker_token : Option Text

pub record GitFinalizationRecord : Type 0 where
  pub project_id : ℕ
  pub codex_session_id : Text
  pub state : GitFinalizationState
  pub git_mode : AgentGitMode
  pub starting_head : Option Text
  pub branch_ref : Option Text
  pub upstream_ref : Option Text
  pub worktree_baseline : Text
  pub task_identity : Option Text
  pub owner_run_token : Option Text
  pub commit_oid : Option Text
  pub generation : ℕ
  pub last_error : Option Text
  pub created_at : Text
  pub updated_at : Text
  pub completed_at : Option Text
  pub acknowledged_at : Option Text
  pub acknowledged_run_id : Option ℕ

-- A row of `agent_git_launch_states`.
pub record AgentGitLaunchState : Type 0 where
  pub project_id : ℕ
  pub run_token : Text
  pub git_mode : AgentGitMode
  pub starting_head : Text
  pub branch_ref : Option Text
  pub upstream_ref : Option Text
  pub worktree_baseline : Text
  pub created_at : Text

-- A row of `session_git_modes`.
pub record SessionGitMode : Type 0 where
  pub project_id : ℕ
  pub codex_session_id : Text
  pub git_mode : AgentGitMode

pub record Db : Type 0 where
  pub projects : List AgentProject
  pub leases : List Lease
  pub workers : List AgentWorker
  pub controls : List AgentSessionControlRecord
  pub journals : List GitFinalizationRecord
  pub runs : List AgentRun
  pub launch_states : List AgentGitLaunchState
  pub session_git_modes : List SessionGitMode

abbrev pub empty : Db
empty = record {
  projects = [];
  leases = [];
  workers = [];
  controls = [];
  journals = [];
  runs = [];
  launch_states = [];
  session_git_modes = [];
}

-- The target of a foreign key `REFERENCES projects(id)`.
unfoldable pub project_exists : ℕ → Db → Bool
project_exists project_id db = any (λ p. p.id == project_id) db.projects

-- `format!("clt-worker-{worker_token}")`.
unfoldable pub worker_lease_holder : Text → Text
worker_lease_holder worker_token = codes "clt-worker-" ++ worker_token

-- The row of `agent_workers` is active and belongs to the project.
unfoldable pub active_in : ℕ → AgentWorker → Bool
active_in project_id w = w.project_id == project_id && is_active w.state

-- A lease of the worker's project is held by the worker.
unfoldable pub holds_lease : List Lease → AgentWorker → Bool
holds_lease leases w =
    any (λ l. l.project_id == w.project_id && text_eq l.holder w.lease_holder) leases
