-- ===== src/Sessions/Guardians.antt =====
-- Interactive guardians: the processes that keep a terminal open on a session, of
-- src/agent/repositories/sessions_runs.rs.
use clt_rs.Prelude.{
  ℕ, Bool, true, false, ◌&&◌, ◌||◌, Option, none, some, if◌then◌else◌, ltb, ◌==◌, is_none, Text,
}
use clt_rs.Sql.{
  SqlResult, invalid_guardian_holder, Transaction, commit, roll_back, fail, transact, count, update,
}
use clt_rs.Sessions.{
  AgentSessionControlState, stop_requested, stopped, interactive, resume_requested,
  AgentSessionControlRecord,
}
use clt_rs.Store.{Lease, Db}
use clt_rs.Leases.{held_by}
use clt_rs.GitLeases.{column_eq}
use clt_rs.Workers.{pid_same}
use clt_rs.Scheduler.Reclaim.{
  InteractiveGuardianDisposition, resume_exec, preserve_idle_session, restore_stopped,
  preserve_shared_session, restore_stopped_shared, holds_project_lease, from_guardian_holder,
}
use clt_rs.Sessions.Statements.{
  in_control, in_session, released_to, hand_lease, delete_lease, expires_after,
}
use clt_rs.Sessions.Requests.{is_guarded}
use clt_rs.Sessions.Planning.{is_reserved_by}

unfoldable pub guard : Text → Text → AgentSessionControlRecord → AgentSessionControlRecord
guard holder now c = record c {
  state = interactive;
  interactive_holder = some holder;
  interactive_launch_token = some holder;
  child_pid = none;
  updated_at = now;
}

unfoldable pub adopt_session : ℕ → Option Text → Text → Text → Text → Db → Transaction Db Bool
adopt_session project_id none from_holder holder now db = commit db true
adopt_session project_id (some session) from_holder holder now db =
    if ltb 0 (count (is_reserved_by project_id session from_holder) db.controls)
    then commit
        (record db {
          controls =
              update (is_reserved_by project_id session from_holder) (guard holder now) db.controls;
        })
        true
    else roll_back false

abbrev pub adopt_as :
    Option InteractiveGuardianDisposition
    → ℕ
    → Option Text
    → Text
    → Text
    → Text
    → Text
    → Text
    → Db
    → Transaction Db Bool
adopt_as none project_id session from_holder holder acquired_at expires_at now db =
    fail invalid_guardian_holder
adopt_as (some d) project_id session from_holder holder acquired_at expires_at now db =
    if holds_project_lease d
    then (if ltb 0 (count (held_by project_id from_holder) db.leases)
        then adopt_session project_id session from_holder holder now
            (hand_lease project_id from_holder holder acquired_at expires_at db)
        else roll_back false)
    else adopt_session project_id session from_holder holder now db

unfoldable pub adopt_interactive_guardian :
    ℕ → Option Text → Text → Text → Text → Text → Text → Db → SqlResult Bool × Db
adopt_interactive_guardian project_id session from_holder holder acquired_at expires_at now db =
    transact db (
      adopt_as (from_guardian_holder holder) project_id session from_holder holder acquired_at
        expires_at now db)

unfoldable pub is_childless : ℕ → Text → Text → AgentSessionControlRecord → Bool
is_childless project_id session holder c =
    is_guarded project_id session holder c && is_none c.child_pid

unfoldable pub register_child : ℕ → Text → Text → ℕ → Text → Db → Transaction Db Bool
register_child project_id session holder child_pid now db =
    if count (is_childless project_id session holder) db.controls == 1
    then commit
        (record db {
          controls =
              update (is_childless project_id session holder)
                (λ c. record c { child_pid = some child_pid; updated_at = now }) db.controls;
        })
        true
    else roll_back false

unfoldable pub is_unexpired : ℕ → Text → Text → Lease → Bool
is_unexpired project_id holder now l = held_by project_id holder l && expires_after now l

unfoldable pub extend_guarded_lease : ℕ → Text → Text → Text → Db → Db
extend_guarded_lease project_id holder now expires_at db = record db {
  leases =
      update (is_unexpired project_id holder now) (λ l. record l { expires_at = expires_at })
        db.leases;
}

abbrev pub register_child_as :
    Option InteractiveGuardianDisposition
    → ℕ
    → Text
    → Text
    → ℕ
    → Text
    → Text
    → Db
    → Transaction Db Bool
register_child_as none project_id session holder child_pid now expires_at db =
    fail invalid_guardian_holder
register_child_as (some d) project_id session holder child_pid now expires_at db =
    if holds_project_lease d
    then (if count (is_unexpired project_id holder now) db.leases == 1
        then register_child project_id session holder child_pid now
            (extend_guarded_lease project_id holder now expires_at db)
        else roll_back false)
    else register_child project_id session holder child_pid now db

unfoldable pub register_interactive_guardian_child :
    ℕ → Text → Text → ℕ → Text → Text → Db → SqlResult Bool × Db
register_interactive_guardian_child project_id session holder child_pid now expires_at db =
    transact db (
      register_child_as (from_guardian_holder holder) project_id session holder child_pid now
        expires_at db)

-- The state after interactive use: `CASE WHEN state = 'stop_requested' THEN 'stopped' ELSE
-- 'resume_requested' END` for a session that goes back to its automated run, `stopped` for the
-- others.
unfoldable pub state_after_use :
    InteractiveGuardianDisposition → AgentSessionControlState → AgentSessionControlState
state_after_use resume_exec state =
    if in_control stop_requested state then stopped else resume_requested
state_after_use preserve_idle_session state = stopped
state_after_use restore_stopped state = stopped
state_after_use preserve_shared_session state = stopped
state_after_use restore_stopped_shared state = stopped

unfoldable pub leave :
    InteractiveGuardianDisposition → Text → AgentSessionControlRecord → AgentSessionControlRecord
leave d now c = released_to (state_after_use d c.state) now c

unfoldable pub is_in_use : ℕ → Text → Text → AgentSessionControlRecord → Bool
is_in_use project_id session holder c =
    in_session project_id session c
    && (in_control interactive c.state || in_control stop_requested c.state)
    && column_eq c.interactive_holder holder

unfoldable pub release_guardian : InteractiveGuardianDisposition → ℕ → Text → Db → Db
release_guardian d project_id holder db =
    if holds_project_lease d then delete_lease project_id holder db else db

unfoldable pub finish_interactive_guardian :
    ℕ → Text → Text → InteractiveGuardianDisposition → Text → Db → SqlResult Bool × Db
finish_interactive_guardian project_id session holder d now db = transact db (
    if ltb 0 (count (is_in_use project_id session holder) db.controls)
    then commit
        (release_guardian d project_id holder (record db {
          controls = update (is_in_use project_id session holder) (leave d now) db.controls;
        }))
        true
    else roll_back false)

-- The guardian's use of the session under the child that was read.
unfoldable pub is_stale_use : ℕ → Text → Text → Option ℕ → AgentSessionControlRecord → Bool
is_stale_use project_id session holder child_pid c =
    is_in_use project_id session holder c
    && column_eq c.interactive_launch_token holder
    && pid_same c.child_pid child_pid

unfoldable pub recover_stale_interactive_guardian :
    ℕ → Text → Text → Option ℕ → InteractiveGuardianDisposition → Text → Db → SqlResult Bool × Db
recover_stale_interactive_guardian project_id session holder child_pid d now db = transact db (
    if count (is_stale_use project_id session holder child_pid) db.controls == 1
    then commit
        (release_guardian d project_id holder (record db {
          controls =
              update (is_stale_use project_id session holder child_pid) (leave d now) db.controls;
        }))
        true
    else roll_back false)
