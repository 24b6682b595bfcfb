-- ===== src/Workers/Endings.antt =====
-- How a worker ends: `abandon_worker` of src/agent/repositories/workers_leases.rs, and the runs that
-- the ends of workers record. `finalize_worker` is in Workers/Endings/Finalize.
pub mod Finalize
use clt_rs.Prelude.{
  ℕ, suc, Bool, true, false, ◌&&◌, ◌||◌, not, Option, none, some, List, [], ◌∷◌, ◌++◌,
  if◌then◌else◌, leb, ◌==◌, unwrap_or, Text, codes, text_eq,
}
use clt_rs.Sql.{
  SqlResult, ok, err, foreign_key_failed, no_rows, missing_run_id, Transaction, commit, roll_back,
  fail, transact, any, count, find, delete, update,
}
use clt_rs.Store.{ℤ, Lease, WorkerState, AgentWorker, AgentRun, Db, project_exists, is_active}
use clt_rs.Leases.{of_project, held_by}
use clt_rs.Projects.{AgentRunOutcome, update_project_after_run}
use clt_rs.Workers.{in_state, pid_same, text_same}

pub record AgentWorkerAbandonment : Type 0 where
  pub worker_token : Text
  pub expected_state : WorkerState
  pub expected_worker_pid : Option ℕ
  pub expected_heartbeat_at : Option Text
  pub finished_at : Text
  pub error : Text
  pub permitted_successor_holder : Option Text

unfoldable pub has_token : Text → AgentWorker → Bool
has_token worker_token w = text_eq w.worker_token worker_token

-- `runs_worker_token_unique`.
unfoldable pub run_of_worker : Text → AgentRun → Bool
run_of_worker worker_token r = elim r.worker_token [
  | none ↦ false
  | some t ↦ text_eq t worker_token
]

-- The key that the table gives a new row: one more than the largest.
unfoldable pub next_run_id : List AgentRun → ℕ
next_run_id [] = 1
next_run_id (r ∷ rs) = let n = next_run_id rs in if leb n r.id then suc r.id else n

unfoldable pub new_run : ℕ → Text → AgentRunOutcome → AgentRun
new_run id worker_token o = record {
  id = id;
  project_id = o.project_id;
  status = o.status;
  started_at = o.started_at;
  finished_at = o.finished_at;
  exit_code = o.exit_code;
  log_dir = o.log_dir;
  stdout_path = o.stdout_path;
  stderr_path = o.stderr_path;
  summary = o.summary;
  codex_session_id = o.codex_session_id;
  worker_token = some worker_token;
}

abbrev pub with_run : Db → AgentRun → Db
with_run db r = record db { runs = db.runs ++ r ∷ [] }

-- `SELECT id FROM runs WHERE worker_token = ?1 AND project_id = ?2`, read by `query_count`.
abbrev pub recorded_id : Option AgentRun → SqlResult ℕ
recorded_id none = err no_rows
recorded_id (some r) = ok r.id

-- The run of a worker is recorded once: the second time its id is read back. A new run also updates
-- the project.
unfoldable pub record_run : Text → AgentRunOutcome → Db → SqlResult ℕ × Db
record_run worker_token o db =
    if any (run_of_worker worker_token) db.runs
    then (
      recorded_id
          (find (λ r. run_of_worker worker_token r && r.project_id == o.project_id) db.runs),
      db,
    )
    else if project_exists o.project_id db
    then (
      ok (next_run_id db.runs),
      update_project_after_run o (with_run db (new_run (next_run_id db.runs) worker_token o)),
    )
    else (err foreign_key_failed, db)

-- The worker is as the caller observed it.
unfoldable pub is_observed : AgentWorkerAbandonment → AgentWorker → Bool
is_observed a w =
    text_eq w.worker_token a.worker_token
    && in_state a.expected_state w.state
    && pid_same w.worker_pid a.expected_worker_pid
    && text_same w.heartbeat_at a.expected_heartbeat_at

abbrev pub holder_of : Option Lease → Option Text
holder_of none = none
holder_of (some l) = some l.holder

-- Whether the lease that was observed lets the worker be abandoned.
unfoldable pub may_abandon : AgentWorkerAbandonment → AgentWorker → Option Text → Bool
may_abandon a w none = true
may_abandon a w (some holder) =
    text_eq holder w.lease_holder || text_same a.permitted_successor_holder (some holder)

unfoldable pub releases_own : AgentWorker → Option Text → Bool
releases_own w none = false
releases_own w (some holder) = text_eq holder w.lease_holder

unfoldable pub abandonment_outcome : AgentWorkerAbandonment → AgentWorker → AgentRunOutcome
abandonment_outcome a w = record {
  project_id = w.project_id;
  status = codes "failure";
  started_at = unwrap_or w.started_at w.created_at;
  finished_at = some a.finished_at;
  exit_code = none;
  log_dir = none;
  stdout_path = none;
  stderr_path = none;
  summary = some a.error;
  codex_session_id = none;
}

unfoldable pub mark_abandoned : AgentWorkerAbandonment → ℕ → Db → Db
mark_abandoned a run_id db = record db {
  workers =
      update (is_observed a)
        (λ w. record w {
          state = WorkerState.abandoned;
          finished_at = some a.finished_at;
          error = some a.error;
          run_id = some run_id;
        })
        db.workers;
}

unfoldable pub drop_lease : ℕ → Text → Db → Db
drop_lease project_id holder db = record db {
  leases = delete (held_by project_id holder) db.leases;
}

unfoldable pub abandon_recorded :
    AgentWorkerAbandonment → AgentWorker → Bool → SqlResult ℕ × Db → Transaction Db Bool
abandon_recorded a w own (err e, db) = fail e
abandon_recorded a w own (ok run_id, db) =
    let marked = mark_abandoned a run_id db in
    if not (count (is_observed a) db.workers == 1)
    then roll_back false
    else if own
    then if count (held_by w.project_id w.lease_holder) marked.leases == 1
      then commit (drop_lease w.project_id w.lease_holder marked) true
      else roll_back false
    else commit marked true

unfoldable pub abandon_found :
    AgentWorkerAbandonment → Option AgentWorker → Db → Transaction Db Bool
abandon_found a none db = roll_back false
abandon_found a (some w) db =
    let observed = holder_of (find (of_project w.project_id) db.leases) in
    if may_abandon a w observed
    then abandon_recorded a w (releases_own w observed)
        (record_run a.worker_token (abandonment_outcome a w) db)
    else roll_back false

unfoldable pub abandon_worker : AgentWorkerAbandonment → Db → SqlResult Bool × Db
abandon_worker a db = transact db (abandon_found a (find (is_observed a) db.workers) db)
