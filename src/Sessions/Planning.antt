-- ===== src/Sessions/Planning.antt =====
-- Conversations without an automated run: planning sessions and the reservation of idle sessions,
-- of src/agent/repositories/sessions_runs.rs.
use clt_rs.Prelude.{
  ℕ, Bool, false, ◌&&◌, ◌||◌, not, Option, none, some, if◌then◌else◌, ◌==◌, is_none, Text, codes,
  text_eq, starts_with,
}
use clt_rs.Sql.{SqlResult, ok, any}
use clt_rs.Sessions.{
  AgentSessionControlState, stopped, ready_interactive, resume_requested, AgentSessionControlRecord,
}
use clt_rs.Store.{AgentWorker, Db, active_in}
use clt_rs.Leases.{of_project}
use clt_rs.GitLeases.{column_eq, columns_eq, has_active_worker}
use clt_rs.Workers.{text_same}
use clt_rs.Sessions.Statements.{
  in_control, in_session, session_in, update_controls, delete_controls, insert_control, new_control,
  released_to, reserved_for, is_unowned, is_engaged, holds_live_lease,
}

-- The lease is held, and nothing of the project is underway.
unfoldable pub may_plan : ℕ → Text → Text → Db → Bool
may_plan project_id holder now db =
    holds_live_lease project_id holder now db
    && not (has_active_worker project_id db)
    && not (any (λ c. c.project_id == project_id && is_engaged c) db.controls)

unfoldable pub register_planning_session : ℕ → Text → Text → Text → Db → SqlResult Bool × Db
register_planning_session project_id session holder now db =
    if may_plan project_id holder now db
    then insert_control (new_control project_id session stopped now) db
    else (ok false, db)

unfoldable pub register_shared_planning_session : ℕ → Text → Text → Db → SqlResult Bool × Db
register_shared_planning_session project_id session now =
    insert_control (new_control project_id session stopped now)

-- Another session of the project.
unfoldable pub is_other_session : ℕ → Text → AgentSessionControlRecord → Bool
is_other_session project_id session c =
    c.project_id == project_id && not (text_eq c.codex_session_id session)

-- `state = ?6`, where the parameter may be NULL.
abbrev in_expected : Option AgentSessionControlState → AgentSessionControlState → Bool
in_expected none state = false
in_expected (some expected) state = in_control expected state

-- A stopped session, or one whose resume waits, that nothing else of the project engages.
unfoldable pub is_idle :
    ℕ
    → Text
    → Text
    → Option Text
    → Option AgentSessionControlState
    → Text
    → Db
    → AgentSessionControlRecord
    → Bool
is_idle project_id session holder run_token expected now db c =
    in_session project_id session c
    && (in_control stopped c.state || in_control resume_requested c.state)
    && in_expected expected c.state
    && is_unowned c
    && holds_live_lease project_id holder now db
    && not (has_active_worker project_id db)
    && text_same c.run_token run_token
    && not (any (λ d. is_other_session project_id session d && is_engaged d) db.controls)

-- The row of a session that is opened without an automated run.
abbrev pub opened : ℕ → Text → Text → Text → AgentSessionControlRecord
opened project_id session holder now =
    record (new_control project_id session ready_interactive now) {
      interactive_holder = some holder;
    }

-- The answer of a statement that fails on no row.
abbrev pub changed_rows : Bool × Db → SqlResult Bool × Db
changed_rows (b, db) = (ok b, db)

unfoldable pub has_unstopped : ℕ → Db → Bool
has_unstopped project_id db =
    any (λ c. c.project_id == project_id && not (in_control stopped c.state)) db.controls

unfoldable pub reserve_idle_session_interactive_for_state :
    ℕ
    → Text
    → Text
    → Option Text
    → Option AgentSessionControlState
    → Text
    → Db
    → SqlResult Bool × Db
reserve_idle_session_interactive_for_state project_id session holder run_token expected now db =
    if starts_with holder (codes "clt-stopped-interactive-")
    then changed_rows (
        update_controls (is_idle project_id session holder run_token expected now db)
          (reserved_for holder now) db)
    else if has_unstopped project_id db
    then (ok false, db)
    else insert_control (opened project_id session holder now) db

unfoldable pub is_stopped_shared_interactive_holder : Text → Bool
is_stopped_shared_interactive_holder holder =
    starts_with holder (codes "clt-stopped-shared-interactive-")
    || starts_with holder (codes "clt-stopped-readonly-interactive-")

-- `w.worker_token = ?5 OR w.resume_session_id = ?4`, of an active worker.
unfoldable pub works_on : ℕ → Text → Option Text → AgentWorker → Bool
works_on project_id session run_token w =
    active_in project_id w
    && (columns_eq (some w.worker_token) run_token || column_eq w.resume_session_id session)

-- Something else of the project is underway, or a person owns the session.
unfoldable pub is_shared_project : ℕ → Text → Bool → Db → Bool
is_shared_project project_id session manual db =
    manual
    || any (of_project project_id) db.leases
    || any (λ d. is_other_session project_id session d && not (in_control stopped d.state))
        db.controls

unfoldable pub is_shareable : ℕ → Text → Option Text → Bool → Db → AgentSessionControlRecord → Bool
is_shareable project_id session run_token manual db c =
    in_session project_id session c
    && (in_control stopped c.state
        || (in_control resume_requested c.state
            && is_none c.child_pid
            && is_none c.interactive_holder
            && not (any (works_on project_id session run_token) db.workers)))
    && text_same c.run_token run_token
    && is_shared_project project_id session manual db

unfoldable pub reserve_shared_session_interactive :
    ℕ → Text → Text → Option Text → Bool → Text → Db → SqlResult Bool × Db
reserve_shared_session_interactive project_id session holder run_token manual now db =
    if is_stopped_shared_interactive_holder holder
    then changed_rows (
        update_controls (is_shareable project_id session run_token manual db)
          (reserved_for holder now) db)
    else if is_shared_project project_id session manual db
    then insert_control (opened project_id session holder now) db
    else (ok false, db)

unfoldable pub is_reserved_by : ℕ → Text → Text → AgentSessionControlRecord → Bool
is_reserved_by project_id session holder c =
    session_in project_id session ready_interactive c && column_eq c.interactive_holder holder

unfoldable pub restores_stopped : Text → Bool
restores_stopped holder =
    starts_with holder (codes "clt-stopped-interactive-")
    || is_stopped_shared_interactive_holder holder

unfoldable pub cancel_idle_session_interactive : ℕ → Text → Text → Text → Db → Bool × Db
cancel_idle_session_interactive project_id session holder now =
    if restores_stopped holder
    then update_controls (is_reserved_by project_id session holder) (released_to stopped now)
    else delete_controls (is_reserved_by project_id session holder)
