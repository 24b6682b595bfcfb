-- ===== src/Sessions/Statements.antt =====
-- The parts that the statements on `session_controls` share: src/agent/repositories/sessions_runs.rs.
use clt_rs.Prelude.{
  ℕ, Bool, true, false, ◌&&◌, ◌||◌, not, none, some, [], ◌∷◌, ◌++◌, if◌then◌else◌, ltb, ◌==◌,
  is_none, Text, text_eq, text_leb, cast_integer,
}
use clt_rs.Sql.{SqlResult, ok, err, foreign_key_failed, any, count, delete, update}
use clt_rs.Sessions.{
  AgentSessionControlState, stopped, ready_interactive, resume_requested, AgentSessionControlRecord,
  control_database_value,
}
use clt_rs.Store.{Lease, AgentWorker, Db, project_exists, holds_lease, active_in}
use clt_rs.Leases.{held_by, of_project}

-- `state = ?1`, on the texts that the column holds.
unfoldable pub in_control : AgentSessionControlState → AgentSessionControlState → Bool
in_control state actual = text_eq (control_database_value actual) (control_database_value state)

-- `project_id = ?1 AND codex_session_id = ?2`, the table's primary key.
unfoldable pub in_session : ℕ → Text → AgentSessionControlRecord → Bool
in_session project_id session c = c.project_id == project_id && text_eq c.codex_session_id session

unfoldable pub session_in : ℕ → Text → AgentSessionControlState → AgentSessionControlRecord → Bool
session_in project_id session state c = in_session project_id session c && in_control state c.state

-- An update of the controls, and whether it changed a row.
unfoldable pub update_controls :
    (AgentSessionControlRecord → Bool)
    → (AgentSessionControlRecord → AgentSessionControlRecord)
    → Db
    → Bool × Db
update_controls p f db =
    (ltb 0 (count p db.controls), record db { controls = update p f db.controls })

unfoldable pub delete_controls : (AgentSessionControlRecord → Bool) → Db → Bool × Db
delete_controls p db = (ltb 0 (count p db.controls), record db { controls = delete p db.controls })

-- `INSERT … ON CONFLICT(project_id, codex_session_id) DO NOTHING`, or `INSERT OR IGNORE`: whether
-- the row went in.
unfoldable pub insert_control : AgentSessionControlRecord → Db → SqlResult Bool × Db
insert_control c db =
    if any (in_session c.project_id c.codex_session_id) db.controls
    then (ok false, db)
    else if project_exists c.project_id db
    then (ok true, record db { controls = db.controls ++ c ∷ [] })
    else (err foreign_key_failed, db)

-- A row with the columns that an insert names; the others are NULL.
abbrev pub new_control : ℕ → Text → AgentSessionControlState → Text → AgentSessionControlRecord
new_control project_id session state now = record {
  project_id = project_id;
  codex_session_id = session;
  state = state;
  child_pid = none;
  run_token = none;
  interactive_holder = none;
  interactive_launch_token = none;
  stdout_path = none;
  stderr_path = none;
  updated_at = now;
}

-- The row without a process, a holder or a launch token, in a state.
abbrev pub released_to :
    AgentSessionControlState → Text → AgentSessionControlRecord → AgentSessionControlRecord
released_to state now c = record c {
  state = state;
  child_pid = none;
  interactive_holder = none;
  interactive_launch_token = none;
  updated_at = now;
}

-- The row without a process, reserved for an interactive holder.
abbrev pub reserved_for : Text → Text → AgentSessionControlRecord → AgentSessionControlRecord
reserved_for holder now c = record c {
  state = ready_interactive;
  child_pid = none;
  interactive_holder = some holder;
  interactive_launch_token = none;
  updated_at = now;
}

-- `child_pid IS NULL AND interactive_holder IS NULL AND interactive_launch_token IS NULL`.
unfoldable pub is_unowned : AgentSessionControlRecord → Bool
is_unowned c =
    is_none c.child_pid && is_none c.interactive_holder && is_none c.interactive_launch_token

-- `state NOT IN ('stopped', 'resume_requested')`, or a process, holder or launch token.
unfoldable pub is_engaged : AgentSessionControlRecord → Bool
is_engaged c =
    not (in_control stopped c.state || in_control resume_requested c.state) || not (is_unowned c)

-- `CAST(expires_at AS INTEGER) > CAST(?1 AS INTEGER)`.
unfoldable pub is_live : Text → Lease → Bool
is_live now l = ltb (cast_integer now) (cast_integer l.expires_at)

-- `expires_at > ?1`, on the texts.
unfoldable pub expires_after : Text → Lease → Bool
expires_after now l = not (text_leb l.expires_at now)

unfoldable pub holds_live_lease : ℕ → Text → Text → Db → Bool
holds_live_lease project_id holder now db =
    any (λ l. held_by project_id holder l && is_live now l) db.leases

unfoldable pub has_running_lease : ℕ → Text → Db → Bool
has_running_lease project_id now db = any (λ l. of_project project_id l && is_live now l) db.leases

-- `UPDATE leases SET holder = ?1, acquired_at = ?2, expires_at = ?3 WHERE project_id = ?4 AND
-- holder = ?5`.
unfoldable pub hand_lease : ℕ → Text → Text → Text → Text → Db → Db
hand_lease project_id from_holder holder acquired_at expires_at db = record db {
  leases =
      update (held_by project_id from_holder)
        (λ l. record l { holder = holder; acquired_at = acquired_at; expires_at = expires_at })
        db.leases;
}

unfoldable pub delete_lease : ℕ → Text → Db → Db
delete_lease project_id holder db = record db {
  leases = delete (held_by project_id holder) db.leases;
}

-- The run token of a row of `agent_workers`.
unfoldable pub is_worker : Text → AgentWorker → Bool
is_worker token w = text_eq w.worker_token token

-- The worker of the token is active in the project and its lease is held.
unfoldable pub is_fenced : Text → ℕ → Db → AgentWorker → Bool
is_fenced token project_id db w =
    is_worker token w && active_in project_id w && holds_lease db.leases w
