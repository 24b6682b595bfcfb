-- ===== src/Sessions/Requests.antt =====
-- Single statements on a session's control: the requests, the plain recoveries and the completion of
-- a stop, of src/agent/repositories/sessions_runs.rs. Each answers whether it changed a row.
use clt_rs.Prelude.{ℕ, Bool, ◌&&◌, ◌||◌, not, Option, none, some, if◌then◌else◌, Text}
use clt_rs.Sql.{any}
use clt_rs.Sessions.{
  AgentSessionControlState, running, stop_requested, stopped, interrupt_requested,
  ready_interactive, interactive, resume_requested, AgentSessionControlRecord,
}
use clt_rs.Store.{Db}
use clt_rs.GitLeases.{column_eq}
use clt_rs.Workers.{pid_is, text_same}
use clt_rs.Sessions.Statements.{
  in_control, in_session, session_in, update_controls, released_to, reserved_for, is_worker,
  is_fenced,
}

-- The automated run of a session, under the process and the token that were read.
unfoldable pub is_run : ℕ → Text → ℕ → Text → AgentSessionControlRecord → Bool
is_run project_id session child_pid run_token c =
    session_in project_id session running c
    && pid_is c.child_pid child_pid
    && column_eq c.run_token run_token

unfoldable pub request_session_interrupt : ℕ → Text → ℕ → Text → Text → Text → Db → Bool × Db
request_session_interrupt project_id session child_pid run_token holder now =
    update_controls (is_run project_id session child_pid run_token) (λ c. record c {
      state = interrupt_requested;
      interactive_holder = some holder;
      updated_at = now;
    })

unfoldable pub is_handed_over : ℕ → Text → Text → AgentSessionControlRecord → Bool
is_handed_over project_id session holder c =
    in_session project_id session c
    && (in_control interrupt_requested c.state || in_control ready_interactive c.state)
    && column_eq c.interactive_holder holder

unfoldable pub take_back : Text → AgentSessionControlRecord → AgentSessionControlRecord
take_back now c =
    if in_control interrupt_requested c.state
    then record c {
      state = running;
      interactive_holder = none;
      interactive_launch_token = none;
      updated_at = now;
    }
    else released_to resume_requested now c

unfoldable pub cancel_session_interrupt_handoff : ℕ → Text → Text → Text → Db → Bool × Db
cancel_session_interrupt_handoff project_id session holder now =
    update_controls (is_handed_over project_id session holder) (take_back now)

unfoldable pub request_session_stop : ℕ → Text → ℕ → Text → Text → Db → Bool × Db
request_session_stop project_id session child_pid run_token now =
    update_controls (is_run project_id session child_pid run_token)
      (λ c. record c { state = stop_requested; updated_at = now })

-- The interactive use of a session by a guardian.
unfoldable pub is_guarded : ℕ → Text → Text → AgentSessionControlRecord → Bool
is_guarded project_id session holder c =
    session_in project_id session interactive c
    && column_eq c.interactive_holder holder
    && column_eq c.interactive_launch_token holder

unfoldable pub request_interactive_session_stop : ℕ → Text → ℕ → Text → Text → Db → Bool × Db
request_interactive_session_stop project_id session child_pid holder now =
    update_controls (λ c. is_guarded project_id session holder c && pid_is c.child_pid child_pid)
      (λ c. record c { state = stop_requested; updated_at = now })

-- A stopped session whose last run is the one that was read.
unfoldable pub is_stopped_after : ℕ → Text → Option Text → AgentSessionControlRecord → Bool
is_stopped_after project_id session run_token c =
    session_in project_id session stopped c && text_same c.run_token run_token

unfoldable pub request_stopped_session_resume : ℕ → Text → Option Text → Text → Db → Bool × Db
request_stopped_session_resume project_id session run_token now =
    update_controls (is_stopped_after project_id session run_token)
      (released_to resume_requested now)

unfoldable pub begin_stopped_session_interactive :
    ℕ → Text → Text → Option Text → Text → Db → Bool × Db
begin_stopped_session_interactive project_id session holder run_token now =
    update_controls (is_stopped_after project_id session run_token) (reserved_for holder now)

unfoldable pub transition_session_control_state :
    ℕ → Text → AgentSessionControlState → AgentSessionControlState → Text → Db → Bool × Db
transition_session_control_state project_id session from to now =
    update_controls (session_in project_id session from) (λ c. record c {
      state = to;
      child_pid = (if in_control running to then c.child_pid else none);
      interactive_launch_token = none;
      updated_at = now;
    })

unfoldable pub recover_stale_automated_session_control :
    ℕ
    → Text
    → AgentSessionControlState
    → AgentSessionControlState
    → ℕ
    → Option Text
    → Text
    → Db
    → Bool × Db
recover_stale_automated_session_control project_id session from to child_pid run_token now =
    update_controls
      (λ c.
        session_in project_id session from c
        && pid_is c.child_pid child_pid
        && text_same c.run_token run_token)
      (released_to to now)

unfoldable pub recover_stale_interactive_session_control :
    ℕ
    → Text
    → AgentSessionControlState
    → AgentSessionControlState
    → Option Text
    → Text
    → Db
    → Bool × Db
recover_stale_interactive_session_control project_id session from to holder now =
    update_controls
      (λ c. session_in project_id session from c && text_same c.interactive_holder holder)
      (released_to to now)

-- No worker has the run token, or one that still holds its lease.
unfoldable pub may_finish_run : Text → ℕ → Db → Bool
may_finish_run run_token project_id db =
    not (any (is_worker run_token) db.workers) || any (is_fenced run_token project_id db) db.workers

unfoldable pub complete_session_stop : ℕ → Text → Text → Text → Db → Bool × Db
complete_session_stop project_id session run_token now db =
    update_controls
      (λ c.
        session_in project_id session stop_requested c
        && column_eq c.run_token run_token
        && may_finish_run run_token project_id db)
      (released_to stopped now) db
