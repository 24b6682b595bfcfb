-- ===== src/Lib.antt =====
-- The agent's registry and scheduler of clt: who may work on a project, and when.
--
-- clt keeps the tasks of a project as Markdown and can have Codex work on them. Processes of its
-- own, the scheduler, independent workers and interactive guardians, share one registry, an SQL
-- database. A project's row in `leases` says which process works on it; `agent_workers` holds the
-- workers that run independently of the scheduler; `git_finalizations` holds the journals of commits
-- still to be proved; `session_controls` holds the Codex sessions that a user stops or takes over;
-- `runs` records what ended. The scheduler scans a project's board, decides on a stage, acquires the
-- lease, reserves a worker that takes the lease over, and takes back leases of dead processes.
--
-- Parts and sources:
--   Sql            the statements over a table as operations on a list of rows, transactions as
--                  values; `Sql/Laws` and `Sql/Transactions` hold their lemmas.
--   Git            `AgentGitMode` and `GitFinalizationState` of src/agent.rs.
--   Sessions       `AgentSessionControlState`, its actions and its record, of src/agent.rs; the
--                  child modules are below.
--   Store          the rows of the tables (`AGENT_MIGRATIONS` and the records of src/agent.rs).
--   Leases         `try_acquire_lease`, `renew_lease`, `release_lease`, `lease_for_project` of
--                  src/agent/repositories/workers_leases.rs.
--   GitLeases      `GIT_FINALIZATION_NONBLOCKING_CONTROL`, `try_acquire_git_finalization_lease`, its
--                  renewal and the check of its ownership, of the same file.
--   Projects       `update_project_after_run` of src/agent.rs.
--   Workers        `reserve_worker`, `claim_worker`, with `Workers/Upkeep` (`renew_worker`,
--                  superseding, cleaning), `Workers/Endings` (`abandon_worker`) and
--                  `Workers/Endings/Finalize` (`finalize_worker`), of
--                  src/agent/repositories/workers_leases.rs. What any sequence of operations keeps
--                  is shown once for every property that `IsStable` in `Workers/Consistency` holds of.
--   Scheduler      the stage decision, the scan and the suspension of src/scheduler.rs and
--                  src/application.rs, with `Scheduler/Delays` (intervals, backoffs, the age of a
--                  heartbeat in src/worker.rs) and `Scheduler/Reclaim` (holders, liveness and
--                  `try_reclaim_inactive_agent_lease`; src/session_recovery.rs and
--                  src/session_control.rs).
--   Runner         `classify_agent_supervision_stage` of src/runner.rs.
--   Sessions/*     the operations on `session_controls` of
--                  src/agent/repositories/sessions_runs.rs: `Requests` (single statements),
--                  `Planning` (conversations without a run), `Handoffs` (the exit of a process and
--                  the handover of its lease), `Guardians` (interactive use), `Registration` with
--                  `Registration/Journals` (the start of a run with its Git records) and `Clearing`.
--                  `Steps` is the abstract state machine of a session, with an action to each
--                  operation and the steps that the action may take; `Refinement` shows each
--                  operation to take them, `Histories` any sequence, `Running` what a run needs.
--   Coordination   tasks and the references between them, of src/coordination.rs and
--                  src/task/coordination.rs: `Dependencies` (`visit`, `depends_on`), `Symbols` and
--                  `Overlap` (conflicts of two tasks), `Admission` (`waits`, `ready`). `Chains`
--                  states reachability; `Visits`, `Cycles`, `Refusals`, `Exhaustion`,
--                  `Reachability`, `Search`, `Admitted`, `Prerequisites`, `Symmetry` are the proofs.
--   Journals       the moves of `git_finalizations` of src/agent/repositories/git_journals.rs
--                  (`compare_and_set_git_finalization`): `Callers` (the moves that its callers ask
--                  for), `Creation` (`create_git_finalization`). `Soundness` says what a state of a
--                  journal promises, `Histories` takes any sequence, `Races` two moves at once.
--   Examples       the theorems at concrete inputs.
--
-- How it is modelled. The registry is a record `Db` of tables, each a list of rows; an operation
-- takes a `Db` and returns its answer with the `Db` it leaves. A transaction commits a `Db`, rolls
-- back, or fails; statements outside of a transaction follow one another. An operation is atomic
-- where the source has a transaction or one statement; `Leases/Interleavings` lets the statements
-- on leases of other processes, listed in `Leases/Statements`, fall between the two of
-- `try_acquire_lease`. Texts are lists of bytes: SQL's `<=` on them is bytewise, `CAST` to an
-- integer reads the leading digits and stops at the greatest i64, `LIKE` ignores the case of
-- letters. `INSERT OR IGNORE` skips a row that a unique column or index has already, and a foreign
-- key is checked. Keys and process ids are natural numbers. `decimal` runs on fuel one above the
-- number, more than it has digits. `visit` and `depends_on` run on fuel two and one above the
-- number of tasks: each call of theirs on a named task adds a new name to its path or to the set of
-- seen names, and both are shown never to run out. Every other recursion is on a list. A timestamp
-- that an operation takes from the clock is an argument, one for each reading.
--
-- Parameters. `local_process_is_running` and the own process id are the operating system's;
-- `queued_resume_can_wait` reads files; the exit status of a process is the standard library's. The
-- JSON document of a task and the UUID of a text (`document` and `digest` in `Coordination/Overlap`)
-- are the libraries' serde_json and uuid; the marker tests of a task's text are an argument of
-- `ready`.
--
-- Not modelled: failures of the database engine itself, which the source passes on as errors; the
-- columns of `projects` that no modelled operation reads; the listings for display and the wording of
-- messages; the operations that only tests use; the check-ins of the daemon; the statements of
-- src/agent/repositories/git_journals.rs that cancel, retire, recover and acknowledge journals; how a
-- snapshot of tasks is read from files, the registry and git; the processes, the terminal interface,
-- the task files and managed Git.
pub mod Prelude
pub mod Sql
pub mod Git
pub mod Sessions
pub mod Store
pub mod Leases
pub mod Journals
pub mod GitLeases
pub mod Projects
pub mod Workers
pub mod Scheduler
pub mod Runner
pub mod Coordination
mod Examples
