-- ===== src/Workers/Endings/Finalize.antt =====
-- `finalize_worker` of src/agent/repositories/workers_leases.rs.
use clt_rs.Prelude.{
  ℕ, Bool, ◌&&◌, ◌||◌, not, Option, none, some, if◌then◌else◌, ◌==◌, unwrap_or, Text, text_eq,
}
use clt_rs.Sql.{
  SqlResult, ok, err, missing_run_id, Transaction, commit, roll_back, fail, transact, count, find,
  update,
}
use clt_rs.Store.{ℤ, WorkerState, AgentWorker, Db, is_active}
use clt_rs.Leases.{held_by}
use clt_rs.Projects.{AgentRunOutcome}
use clt_rs.Workers.{in_state, pid_same}
use clt_rs.Workers.Endings.{has_token, record_run, drop_lease}

pub record AgentWorkerFinalization : Type 0 where
  pub worker_token : Text
  pub expected_worker_pid : Option ℕ
  pub expected_lease_holder : Text
  pub status : Text
  pub finished_at : Text
  pub exit_code : Option ℤ
  pub log_dir : Option Text
  pub stdout_path : Option Text
  pub stderr_path : Option Text
  pub summary : Option Text
  pub codex_session_id : Option Text
  pub error : Option Text

unfoldable pub finalization_outcome : AgentWorkerFinalization → AgentWorker → AgentRunOutcome
finalization_outcome f w = record {
  project_id = w.project_id;
  status = f.status;
  started_at = unwrap_or w.started_at w.created_at;
  finished_at = some f.finished_at;
  exit_code = f.exit_code;
  log_dir = f.log_dir;
  stdout_path = f.stdout_path;
  stderr_path = f.stderr_path;
  summary = f.summary;
  codex_session_id = f.codex_session_id;
}

-- The worker is in the state, and under the process, that were read.
unfoldable pub is_finalizable : AgentWorkerFinalization → WorkerState → AgentWorker → Bool
is_finalizable f state w =
    text_eq w.worker_token f.worker_token
    && in_state state w.state
    && pid_same w.worker_pid f.expected_worker_pid

unfoldable pub mark_finalizing : AgentWorkerFinalization → WorkerState → Db → Db
mark_finalizing f state db = record db {
  workers =
      update (is_finalizable f state) (λ w. record w { state = WorkerState.finalizing }) db.workers;
}

unfoldable pub is_in_finalization : Text → AgentWorker → Bool
is_in_finalization worker_token w =
    text_eq w.worker_token worker_token && in_state WorkerState.finalizing w.state

unfoldable pub mark_completed : AgentWorkerFinalization → ℕ → Db → Db
mark_completed f run_id db = record db {
  workers =
      update (is_in_finalization f.worker_token)
        (λ w. record w {
          state = WorkerState.completed;
          finished_at = some f.finished_at;
          run_id = some run_id;
          error = f.error;
        })
        db.workers;
}

unfoldable pub finalize_recorded :
    AgentWorkerFinalization → AgentWorker → SqlResult ℕ × Db → Transaction Db (Option ℕ)
finalize_recorded f w (err e, db) = fail e
finalize_recorded f w (ok run_id, db) =
    if count (is_in_finalization f.worker_token) db.workers == 1
    then commit (drop_lease w.project_id w.lease_holder (mark_completed f run_id db)) (some run_id)
    else roll_back none

unfoldable pub finalize_active :
    AgentWorkerFinalization → AgentWorker → Db → Transaction Db (Option ℕ)
finalize_active f w db =
    if not (is_active w.state) || not (pid_same w.worker_pid f.expected_worker_pid)
    then roll_back none
    else if not (count (held_by w.project_id f.expected_lease_holder) db.leases == 1)
    then roll_back none
    else if count (is_finalizable f w.state) db.workers == 1
    then finalize_recorded f w
        (record_run f.worker_token (finalization_outcome f w) (mark_finalizing f w.state db))
    else roll_back none

abbrev pub finished_before : Option ℕ → Db → Transaction Db (Option ℕ)
finished_before none db = fail missing_run_id
finished_before (some id) db = commit db (some id)

unfoldable pub finalize_found :
    AgentWorkerFinalization → Option AgentWorker → Db → Transaction Db (Option ℕ)
finalize_found f none db = roll_back none
finalize_found f (some w) db =
    if in_state WorkerState.completed w.state
    then finished_before w.run_id db
    else finalize_active f w db

unfoldable pub finalize_worker : AgentWorkerFinalization → Db → SqlResult (Option ℕ) × Db
finalize_worker f db =
    transact db (finalize_found f (find (has_token f.worker_token) db.workers) db)
