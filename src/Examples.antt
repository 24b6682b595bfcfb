-- ===== src/Examples.antt =====
-- A registry with one project, and the rows that the examples share.
mod Leasing
mod Working
mod Scheduling
mod Coordinating
mod Controlling
mod Journaling
use clt_rs.Prelude.{
  ℕ, zero, suc, ◌+◌, ◌-◌, ◌*◌, ◌/◌, ◌%◌, ◌^◌, ◌≤◌, ◌<◌, ◌≡◌, refl, sym, ap, ◌∙◌, ◌≢◌, ◌↔◌, ◌⊎◌, inl,
  inr, Bool, true, false, ◌&&◌, ◌||◌, not, Option, none, some, List, [], ◌∷◌, ◌++◌, arith,
  if◌then◌else◌, ltb, leb, ◌==◌, ==_iff, ==_refl, Bool-cases, Option-cases, is_some, is_none,
  unwrap_or, Text, codes, text_eq, text_eq→eq, text_eq_refl, text_eq_iff, starts_with, text_leb,
  is_digit, cast_digits, cast_integer, u64_max, parse_digits, parse_unsigned, parse_u64,
  like_prefix, decimal, length,
}
use clt_rs.Git.{off}
use clt_rs.Store.{AgentProject, Lease, WorkerState, AgentWorker, Db, empty, worker_lease_holder}
use clt_rs.Workers.{AgentWorkerReservation}
use clt_rs.Workers.Endings.{AgentWorkerAbandonment}
use clt_rs.Workers.Endings.Finalize.{AgentWorkerFinalization}

abbrev pub project : AgentProject
project = record {
  id = 1;
  path = codes "/work";
  name = codes "work";
  enabled = true;
  git_mode = off;
  updated_at = codes "100";
  last_run_at = none;
  last_success_at = none;
  last_failure_at = none;
  last_blocked_recovery_at = none;
  failure_count = 0;
}

abbrev pub scheduler : Text
scheduler = codes "clt-scheduler-7"

abbrev pub lease : Lease
lease = record {
  project_id = 1;
  holder = scheduler;
  acquired_at = codes "100";
  expires_at = codes "160";
}

-- The project is registered, and nothing else is.
abbrev pub registry : Db
registry = record empty { projects = project ∷ [] }

-- The scheduler holds the project's lease.
abbrev pub leased : Db
leased = record registry { leases = lease ∷ [] }

abbrev pub reservation : AgentWorkerReservation
reservation = record {
  project_id = 1;
  worker_token = codes "w1";
  expected_lease_holder = scheduler;
  max_active_workers = 2;
  protocol_version = 1;
  service_label = codes "clt.w1";
  binary_path = codes "/bin/clt";
  command_arguments = codes "[]";
  path_env = codes "/bin";
  codex_path = none;
  task_selection = codes "next_todo";
  resume_session_id = none;
  created_at = codes "101";
}

abbrev pub finalization : AgentWorkerFinalization
finalization = record {
  worker_token = codes "w1";
  expected_worker_pid = some 42;
  expected_lease_holder = worker_lease_holder (codes "w1");
  status = codes "success";
  finished_at = codes "150";
  exit_code = none;
  log_dir = none;
  stdout_path = none;
  stderr_path = none;
  summary = none;
  codex_session_id = none;
  error = none;
}

abbrev pub abandonment : AgentWorkerAbandonment
abandonment = record {
  worker_token = codes "w1";
  expected_state = WorkerState.running;
  expected_worker_pid = some 42;
  expected_heartbeat_at = some (codes "102");
  finished_at = codes "150";
  error = codes "lost";
  permitted_successor_holder = none;
}

abbrev pub worker_in : WorkerState → AgentWorker
worker_in state = record {
  worker_token = codes "w1";
  project_id = 1;
  state = state;
  protocol_version = 1;
  lease_holder = worker_lease_holder (codes "w1");
  service_label = codes "clt.w1";
  binary_path = codes "/bin/clt";
  command_arguments = codes "[]";
  path_env = codes "/bin";
  codex_path = none;
  task_selection = codes "next_todo";
  resume_session_id = none;
  worker_pid = some 42;
  created_at = codes "101";
  started_at = some (codes "102");
  heartbeat_at = some (codes "102");
  finished_at = none;
  run_id = none;
  error = none;
  service_cleaned_at = none;
}

abbrev pub worker_lease : Lease
worker_lease = record lease { holder = worker_lease_holder (codes "w1") }

-- The worker is reserved, and holds its project's lease.
abbrev pub reserved : Db
reserved = record registry {
  leases = worker_lease ∷ [];
  workers = record (worker_in WorkerState.dispatching) { worker_pid = none } ∷ [];
}

-- The worker runs under process 42.
abbrev pub at_work : Db
at_work = record registry {
  leases = worker_lease ∷ [];
  workers = worker_in WorkerState.running ∷ [];
}
