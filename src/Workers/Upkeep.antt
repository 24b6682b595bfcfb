-- ===== src/Workers/Upkeep.antt =====
-- A worker's heartbeat and what becomes of ended workers: `renew_worker`,
-- `supersede_abandoned_workers_for_lease_blocking` and `mark_worker_service_cleaned_blocking` of
-- src/agent/repositories/workers_leases.rs.
use clt_rs.Prelude.{
  ℕ, Bool, true, false, ◌&&◌, not, Option, none, some, List, if◌then◌else◌, ◌==◌, Text, text_eq,
}
use clt_rs.Sql.{SqlResult, Transaction, commit, roll_back, transact, any, count, find, update}
use clt_rs.Store.{Lease, WorkerState, AgentWorker, Db, is_active}
use clt_rs.Leases.{held_by}
use clt_rs.Workers.{in_state, pid_is, text_same, supersede, is_claimed_by}

unfoldable pub is_running_as : Text → ℕ → AgentWorker → Bool
is_running_as worker_token worker_pid w =
    text_eq w.worker_token worker_token
    && in_state WorkerState.running w.state
    && pid_is w.worker_pid worker_pid

unfoldable pub beat : Text → ℕ → Text → Db → Db
beat worker_token worker_pid heartbeat_at db = record db {
  workers =
      update (is_running_as worker_token worker_pid)
        (λ w. record w { heartbeat_at = some heartbeat_at }) db.workers;
}

unfoldable pub extend_lease : ℕ → Text → Text → Db → Db
extend_lease project_id holder expires_at db = record db {
  leases = update (held_by project_id holder) (λ l. record l { expires_at = expires_at }) db.leases;
}

-- What `renew_worker` does once the heartbeat's ownership is verified.
unfoldable pub renew_owned : Option AgentWorker → Text → ℕ → Text → Text → Db → Transaction Db Bool
renew_owned none worker_token worker_pid heartbeat_at expires_at db = roll_back false
renew_owned (some w) worker_token worker_pid heartbeat_at expires_at db =
    let beaten = beat worker_token worker_pid heartbeat_at db in
    let extended = extend_lease w.project_id w.lease_holder expires_at beaten in
    if not (count (is_running_as worker_token worker_pid) db.workers == 1)
      && not (
          count
            (λ v.
              is_running_as worker_token worker_pid v
              && text_same v.heartbeat_at (some heartbeat_at))
            beaten.workers
          == 1)
    then roll_back false
    else if not (count (held_by w.project_id w.lease_holder) beaten.leases == 1)
        && not (
            count (λ l. held_by w.project_id w.lease_holder l && text_eq l.expires_at expires_at)
              extended.leases
            == 1)
    then roll_back false
    else commit extended true

unfoldable pub renew_worker : Text → ℕ → Text → Text → Db → SqlResult Bool × Db
renew_worker worker_token worker_pid heartbeat_at expires_at db = transact db (
    renew_owned (find (is_claimed_by worker_token worker_pid db.leases) db.workers) worker_token
      worker_pid heartbeat_at expires_at db)

-- The rows that `supersede_abandoned_workers_for_lease_blocking` changes, and how many.
unfoldable pub is_abandoned_under : ℕ → Text → List Lease → AgentWorker → Bool
is_abandoned_under project_id holder leases w =
    w.project_id == project_id
    && in_state WorkerState.abandoned w.state
    && any (held_by w.project_id holder) leases

unfoldable pub supersede_abandoned_workers_for_lease : ℕ → Text → Db → ℕ × Db
supersede_abandoned_workers_for_lease project_id holder db = (
  count (is_abandoned_under project_id holder db.leases) db.workers,
  record db {
    workers = update (is_abandoned_under project_id holder db.leases) supersede db.workers;
  },
)

unfoldable pub mark_worker_service_cleaned : Text → Text → Db → Bool × Db
mark_worker_service_cleaned worker_token cleaned_at db = (
  count (λ w. text_eq w.worker_token worker_token && not (is_active w.state)) db.workers == 1,
  record db {
    workers =
        update (λ w. text_eq w.worker_token worker_token && not (is_active w.state))
          (λ w. record w { service_cleaned_at = some cleaned_at }) db.workers;
  },
)
