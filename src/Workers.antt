-- ===== src/Workers.antt =====
-- Independent workers: `reserve_worker` and `claim_worker` of
-- src/agent/repositories/workers_leases.rs. How a worker is kept is in Workers/Upkeep, how it ends in
-- Workers/Endings.
pub mod Upkeep
pub mod Endings
pub mod Consistency
pub mod Operations
pub mod Recording
pub mod Histories
pub mod Limits
pub mod Claims
pub mod Abandonments
pub mod Finalizations
pub mod Reservations
use clt_rs.Prelude.{
  i64_max, ℕ, zero, suc, ◌+◌, ◌-◌, ◌*◌, ◌/◌, ◌%◌, ◌^◌, ◌≤◌, ◌<◌, ◌≡◌, refl, sym, ap, ◌∙◌, ◌≢◌, ◌↔◌,
  ◌⊎◌, inl, inr, Bool, true, false, ◌&&◌, ◌||◌, not, Option, none, some, List, [], ◌∷◌, ◌++◌, arith,
  if◌then◌else◌, ltb, leb, ◌==◌, ==_iff, ==_refl, Bool-cases, Option-cases, is_some, is_none,
  unwrap_or, Text, codes, text_eq, text_eq→eq, text_eq_refl, text_eq_iff, starts_with, text_leb,
  is_digit, cast_digits, cast_integer, u64_max, parse_digits, parse_unsigned, parse_u64,
  like_prefix, decimal, length,
}
use clt_rs.Sql.{
  SqlResult, ok, err, SqlError, foreign_key_failed, no_rows, out_of_range, missing_run_id,
  Transaction, commit, roll_back, fail, transact, any, count, find, delete, update, select,
}
use clt_rs.Sql.Laws.{
  any-append, any-delete, any_congr, any_mono, count-append, count_pos, count-eq-zero, count_mono,
  count-delete-le, count-update-le, count-update, any-update, find-none, find-append, find_holds,
  any_of_find, select-append, select-delete, select-update, select-nil, delete-none, update-none,
}
use clt_rs.Store.{
  Lease, WorkerState, WorkerState-discrete, AgentWorker, Db, project_exists, is_active, active_in,
  holds_lease, worker_lease_holder,
}
use clt_rs.Leases.{
  of_project, held_by, is_reattached, worker_fences, is_expired, clear_expired, insert_lease,
  try_acquire_lease, renew_lease, release_lease,
}

unfoldable pub in_state : WorkerState → WorkerState → Bool
in_state WorkerState.dispatching WorkerState.dispatching = true
in_state WorkerState.running WorkerState.running = true
in_state WorkerState.finalizing WorkerState.finalizing = true
in_state WorkerState.completed WorkerState.completed = true
in_state WorkerState.abandoned WorkerState.abandoned = true
in_state WorkerState.superseded WorkerState.superseded = true
in_state _ _ = false

-- `worker_pid = ?1`, and `worker_pid = ?1 OR (worker_pid IS NULL AND ?1 IS NULL)`.
abbrev pub pid_is : Option ℕ → ℕ → Bool
pid_is none pid = false
pid_is (some p) pid = p == pid

abbrev pub pid_same : Option ℕ → Option ℕ → Bool
pid_same none none = true
pid_same (some p) (some q) = p == q
pid_same _ _ = false

abbrev pub text_same : Option Text → Option Text → Bool
text_same none none = true
text_same (some s) (some t) = text_eq s t
text_same _ _ = false

pub record AgentWorkerReservation : Type 0 where
  pub project_id : ℕ
  pub worker_token : Text
  pub expected_lease_holder : Text
  pub max_active_workers : ℕ
  pub protocol_version : ℕ
  pub service_label : Text
  pub binary_path : Text
  pub command_arguments : Text
  pub path_env : Text
  pub codex_path : Option Text
  pub task_selection : Text
  pub resume_session_id : Option Text
  pub created_at : Text

unfoldable pub active_count : Db → ℕ
active_count db = count (λ w. is_active w.state) db.workers

unfoldable pub new_worker : AgentWorkerReservation → AgentWorker
new_worker r = record {
  worker_token = r.worker_token;
  project_id = r.project_id;
  state = WorkerState.dispatching;
  protocol_version = r.protocol_version;
  lease_holder = worker_lease_holder r.worker_token;
  service_label = r.service_label;
  binary_path = r.binary_path;
  command_arguments = r.command_arguments;
  path_env = r.path_env;
  codex_path = r.codex_path;
  task_selection = r.task_selection;
  resume_session_id = r.resume_session_id;
  worker_pid = none;
  created_at = r.created_at;
  started_at = none;
  heartbeat_at = some r.created_at;
  finished_at = none;
  run_id = none;
  error = none;
  service_cleaned_at = none;
}

-- The unique columns and indexes of `agent_workers` that a new active row would violate.
unfoldable pub worker_conflicts : AgentWorker → AgentWorker → Bool
worker_conflicts new w =
    text_eq w.worker_token new.worker_token
    || text_eq w.lease_holder new.lease_holder
    || text_eq w.service_label new.service_label
    || active_in new.project_id w

unfoldable pub transfer_lease : ℕ → Text → Text → Db → Db
transfer_lease project_id from holder db = record db {
  leases = update (held_by project_id from) (λ l. record l { holder = holder }) db.leases;
}

unfoldable pub is_earlier_abandoned : ℕ → Text → AgentWorker → Bool
is_earlier_abandoned project_id worker_token w =
    w.project_id == project_id
    && in_state WorkerState.abandoned w.state
    && not (text_eq w.worker_token worker_token)

abbrev pub supersede : AgentWorker → AgentWorker
supersede w = record w { state = WorkerState.superseded }

unfoldable pub supersede_earlier : ℕ → Text → Db → Db
supersede_earlier project_id worker_token db = record db {
  workers = update (is_earlier_abandoned project_id worker_token) supersede db.workers;
}

-- A reserved worker that holds its project's lease.
unfoldable pub is_claimable : Text → List Lease → AgentWorker → Bool
is_claimable worker_token leases w =
    text_eq w.worker_token worker_token
    && in_state WorkerState.dispatching w.state
    && holds_lease leases w

abbrev pub start : ℕ → Text → AgentWorker → AgentWorker
start worker_pid started_at w = record w {
  state = WorkerState.running;
  worker_pid = some worker_pid;
  started_at = some started_at;
  heartbeat_at = some started_at;
  error = none;
}

unfoldable pub claim_rows : Text → ℕ → Text → Db → Db
claim_rows worker_token worker_pid started_at db = record db {
  workers = update (is_claimable worker_token db.leases) (start worker_pid started_at) db.workers;
}

unfoldable pub claimed_count : Text → Db → ℕ
claimed_count worker_token db = count (is_claimable worker_token db.leases) db.workers

-- The inline claim at the end of a reservation.
unfoldable pub initial_claim : Text → Option (ℕ × Text) → Db → Transaction Db Bool
initial_claim worker_token none db = commit db true
initial_claim worker_token (some (worker_pid, started_at)) db =
    if claimed_count worker_token db == 1
    then commit (claim_rows worker_token worker_pid started_at db) true
    else roll_back false

-- The part of a reservation after the worker's row is in.
unfoldable pub take_over_lease :
    AgentWorkerReservation → Option (ℕ × Text) → Db → Transaction Db Bool
take_over_lease r claim db =
    if count (held_by r.project_id r.expected_lease_holder) db.leases == 1
    then initial_claim r.worker_token claim (
        supersede_earlier r.project_id r.worker_token (
          transfer_lease r.project_id r.expected_lease_holder (worker_lease_holder r.worker_token)
            db))
    else roll_back false

unfoldable pub insert_worker : AgentWorker → Db → Db
insert_worker w db = record db { workers = db.workers ++ w ∷ [] }

unfoldable pub reserve_body : AgentWorkerReservation → Option (ℕ × Text) → Db → Transaction Db Bool
reserve_body r claim db =
    if ltb i64_max r.max_active_workers
    then fail out_of_range
    else if leb r.max_active_workers 0 || leb r.max_active_workers (active_count db)
    then roll_back false
    else if any (worker_conflicts (new_worker r)) db.workers
    then roll_back false
    else if project_exists r.project_id db
    then take_over_lease r claim (insert_worker (new_worker r) db)
    else fail foreign_key_failed

unfoldable pub reserve_worker :
    AgentWorkerReservation → Option (ℕ × Text) → Db → SqlResult Bool × Db
reserve_worker r claim db = transact db (reserve_body r claim db)

-- The worker runs under this process and holds its project's lease.
unfoldable pub is_claimed_by : Text → ℕ → List Lease → AgentWorker → Bool
is_claimed_by worker_token worker_pid leases w =
    text_eq w.worker_token worker_token
    && in_state WorkerState.running w.state
    && pid_is w.worker_pid worker_pid
    && holds_lease leases w

-- How many pairs of a worker and its lease the `JOIN` yields: a project has one lease at most.
unfoldable pub claimed_pairs : Text → ℕ → Db → ℕ
claimed_pairs worker_token worker_pid db =
    count (is_claimed_by worker_token worker_pid db.leases) db.workers

unfoldable pub claim_worker : Text → ℕ → Text → Db → Bool × Db
claim_worker worker_token worker_pid started_at db =
    let claimed = claim_rows worker_token worker_pid started_at db in
    if claimed_count worker_token db == 1
    then (true, claimed)
    else (claimed_pairs worker_token worker_pid claimed == 1, claimed)
