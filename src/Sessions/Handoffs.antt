-- ===== src/Sessions/Handoffs.antt =====
-- The end of an automated process and the handover of its project's lease, of
-- src/agent/repositories/sessions_runs.rs.
use clt_rs.Prelude.{
  ℕ, Bool, true, false, ◌&&◌, ◌||◌, not, Option, none, some, [], ◌∷◌, if◌then◌else◌, ltb, ◌==◌,
  is_some, is_none, Text, text_eq,
}
use clt_rs.Sql.{
  SqlResult, ok, err, changed_during_handoff, Transaction, commit, roll_back, fail, transact, any,
  count, find, update,
}
use clt_rs.Sessions.{
  AgentSessionControlState, running, stop_requested, stopped, interrupt_requested,
  ready_interactive, resume_requested, AgentSessionControlRecord,
}
use clt_rs.Store.{Db}
use clt_rs.Leases.{of_project, held_by, new_lease, insert_lease}
use clt_rs.GitLeases.{column_eq, has_active_worker}
use clt_rs.Workers.{pid_is}
use clt_rs.Sessions.Statements.{in_control, in_session, session_in, hand_lease, delete_lease}
use clt_rs.Sessions.Planning.{is_other_session}

-- `state IN ('running', 'stop_requested', 'interrupt_requested')`.
unfoldable pub is_supervised : AgentSessionControlState → Bool
is_supervised running = true
is_supervised stop_requested = true
is_supervised interrupt_requested = true
is_supervised _ = false

unfoldable pub is_process : ℕ → Text → AgentSessionControlRecord → Bool
is_process child_pid run_token c = pid_is c.child_pid child_pid && column_eq c.run_token run_token

unfoldable pub is_orphaned : ℕ → Text → ℕ → Text → AgentSessionControlRecord → Bool
is_orphaned project_id session child_pid run_token c =
    in_session project_id session c
    && is_process child_pid run_token c
    && is_supervised c.state
    && is_none c.interactive_launch_token

abbrev is_blank : Text → Bool
is_blank [] = true
is_blank (c ∷ cs) = false

-- The process is there, and nothing else of the project is leased or underway.
unfoldable pub may_claim : ℕ → Text → ℕ → Text → Db → Bool
may_claim project_id session child_pid run_token db =
    any (is_orphaned project_id session child_pid run_token) db.controls
    && not (any (of_project project_id) db.leases)
    && not (has_active_worker project_id db)
    && not (
        any (λ d. is_other_session project_id session d && not (in_control stopped d.state))
          db.controls)

unfoldable pub claim_orphaned : ℕ → Text → ℕ → Text → Text → Text → Text → Db → SqlResult Bool × Db
claim_orphaned project_id session child_pid run_token holder now expires_at db =
    if may_claim project_id session child_pid run_token db
    then insert_lease (new_lease project_id holder now expires_at) db
    else (ok false, db)

-- The early return.
unfoldable pub is_unclaimable : ℕ → Text → Text → AgentSessionControlRecord → Bool
is_unclaimable pid token holder expected =
    pid == 0
    || is_blank token
    || is_blank holder
    || is_some expected.interactive_launch_token
    || not (is_supervised expected.state)

abbrev pub claim_process :
    Option ℕ
    → Option Text
    → AgentSessionControlRecord
    → Text
    → Text
    → Text
    → Db
    → SqlResult Bool × Db
claim_process none token expected holder now expires_at db = (ok false, db)
claim_process (some pid) none expected holder now expires_at db = (ok false, db)
claim_process (some pid) (some token) expected holder now expires_at db =
    if is_unclaimable pid token holder expected
    then (ok false, db)
    else claim_orphaned expected.project_id expected.codex_session_id pid token holder now
        expires_at db

unfoldable pub claim_orphaned_session_supervision :
    AgentSessionControlRecord → Text → Text → Text → Db → SqlResult Bool × Db
claim_orphaned_session_supervision expected =
    claim_process expected.child_pid expected.run_token expected

pub record AutomatedSessionFinalization : Type 0 where
  pub project_id : ℕ
  pub expected_child_pid : ℕ
  pub expected_run_token : Text
  pub lease_holder : Text
  pub acquired_at : Text
  pub expires_at : Text
  pub updated_at : Text
  pub reattached_session_id : Option Text

abbrev unlaunched_session : Option Text → AgentSessionControlRecord → Bool
unlaunched_session none c = true
unlaunched_session (some session) c =
    text_eq c.codex_session_id session && is_none c.interactive_launch_token

unfoldable pub is_generation : AutomatedSessionFinalization → AgentSessionControlRecord → Bool
is_generation r c =
    c.project_id == r.project_id
    && is_process r.expected_child_pid r.expected_run_token c
    && unlaunched_session r.reattached_session_id c

-- The state that a process leaves behind when it exits.
unfoldable pub terminal_state : AgentSessionControlState → Option AgentSessionControlState
terminal_state running = some resume_requested
terminal_state stop_requested = some stopped
terminal_state interrupt_requested = some ready_interactive
terminal_state _ = none

abbrev kept_holder : Bool → Option Text → Option Text
kept_holder true holder = holder
kept_holder false holder = none

-- The row that the final update changes, and what it makes of it.
unfoldable pub is_exiting :
    AutomatedSessionFinalization → AgentSessionControlRecord → AgentSessionControlRecord → Bool
is_exiting r found c =
    session_in r.project_id found.codex_session_id found.state c
    && is_process r.expected_child_pid r.expected_run_token c

unfoldable pub exit_to :
    AgentSessionControlState → Text → AgentSessionControlRecord → AgentSessionControlRecord
exit_to terminal now c = record c {
  state = terminal;
  child_pid = none;
  interactive_holder = kept_holder (in_control ready_interactive terminal) c.interactive_holder;
  updated_at = now;
}

unfoldable pub exit_row :
    AutomatedSessionFinalization → AgentSessionControlRecord → AgentSessionControlState → Db → Db
exit_row r found terminal db = record db {
  controls = update (is_exiting r found) (exit_to terminal r.updated_at) db.controls;
}

-- A handover leaves the lease with the interactive holder.
unfoldable pub release_after_exit :
    AutomatedSessionFinalization → AgentSessionControlState → Db → Db
release_after_exit r terminal db =
    if in_control ready_interactive terminal
    then db
    else delete_lease r.project_id r.lease_holder db

unfoldable pub finish_exit :
    AutomatedSessionFinalization
    → AgentSessionControlRecord
    → AgentSessionControlState
    → Db
    → Transaction Db Bool
finish_exit r found terminal db =
    if count (is_exiting r found) db.controls == 1
    then commit (release_after_exit r terminal (exit_row r found terminal db)) true
    else roll_back false

-- The lease that could not be inserted is the interactive holder's already.
unfoldable pub is_first_holder : ℕ → Text → Db → Bool
is_first_holder project_id holder db = elim (find (of_project project_id) db.leases) [
  | none ↦ false
  | some l ↦ text_eq l.holder holder
]

abbrev pub finish_claimed :
    AutomatedSessionFinalization
    → AgentSessionControlRecord
    → Text
    → SqlResult Bool × Db
    → Transaction Db Bool
finish_claimed r found holder (err e, db) = fail e
finish_claimed r found holder (ok true, db) = finish_exit r found ready_interactive db
finish_claimed r found holder (ok false, db) =
    if is_first_holder r.project_id holder db
    then finish_exit r found ready_interactive db
    else roll_back false

unfoldable pub hand_over :
    AutomatedSessionFinalization
    → AgentSessionControlRecord
    → Option Text
    → Db
    → Transaction Db Bool
hand_over r found none db = roll_back false
hand_over r found (some holder) db =
    if ltb 0 (count (held_by r.project_id r.lease_holder) db.leases)
    then finish_exit r found ready_interactive
        (hand_lease r.project_id r.lease_holder holder r.acquired_at r.expires_at db)
    else finish_claimed r found holder
        (insert_lease (new_lease r.project_id holder r.acquired_at r.expires_at) db)

abbrev pub finish_terminal :
    AutomatedSessionFinalization
    → AgentSessionControlRecord
    → Option AgentSessionControlState
    → Db
    → Transaction Db Bool
finish_terminal r found none db = roll_back false
finish_terminal r found (some terminal) db =
    if in_control ready_interactive terminal
    then hand_over r found found.interactive_holder db
    else finish_exit r found terminal db

abbrev pub finish_found :
    AutomatedSessionFinalization → Option AgentSessionControlRecord → Db → Transaction Db Bool
finish_found r none db = roll_back false
finish_found r (some found) db = finish_terminal r found (terminal_state found.state) db

unfoldable pub exit_transaction : AutomatedSessionFinalization → Db → Transaction Db Bool
exit_transaction r db =
    if is_some r.reattached_session_id
      && not (count (held_by r.project_id r.lease_holder) db.leases == 1)
    then roll_back false
    else finish_found r (find (is_generation r) db.controls) db

unfoldable pub finalize_automated_session_after_exit :
    AutomatedSessionFinalization → Db → SqlResult Bool × Db
finalize_automated_session_after_exit r db = transact db (exit_transaction r db)

abbrev finalize_process :
    Option ℕ
    → Option Text
    → AgentSessionControlRecord
    → Text
    → Text
    → Text
    → Text
    → Db
    → SqlResult Bool × Db
finalize_process none token expected holder acquired_at expires_at now db = (ok false, db)
finalize_process (some pid) none expected holder acquired_at expires_at now db = (ok false, db)
finalize_process (some pid) (some token) expected holder acquired_at expires_at now db =
    finalize_automated_session_after_exit
      (record {
        project_id = expected.project_id;
        expected_child_pid = pid;
        expected_run_token = token;
        lease_holder = holder;
        acquired_at = acquired_at;
        expires_at = expires_at;
        updated_at = now;
        reattached_session_id = some expected.codex_session_id;
      })
      db

unfoldable pub finalize_reattached_automated_session :
    AgentSessionControlRecord → Text → Text → Text → Text → Db → SqlResult Bool × Db
finalize_reattached_automated_session expected =
    finalize_process expected.child_pid expected.run_token expected

unfoldable pub finalize_reaped_automated_session :
    ℕ → ℕ → Text → Text → Text → Text → Text → Db → SqlResult Bool × Db
finalize_reaped_automated_session project_id child_pid run_token holder acquired_at expires_at now =
    finalize_automated_session_after_exit (record {
      project_id = project_id;
      expected_child_pid = child_pid;
      expected_run_token = run_token;
      lease_holder = holder;
      acquired_at = acquired_at;
      expires_at = expires_at;
      updated_at = now;
      reattached_session_id = none;
    })

-- The interrupted run whose terminal is handed over.
unfoldable pub is_interrupted : ℕ → Text → Text → AgentSessionControlRecord → Bool
is_interrupted project_id session run_token c =
    session_in project_id session interrupt_requested c && column_eq c.run_token run_token

unfoldable pub make_ready : Text → AgentSessionControlRecord → AgentSessionControlRecord
make_ready now c = record c {
  state = ready_interactive;
  child_pid = none;
  interactive_launch_token = none;
  updated_at = now;
}

unfoldable pub complete_handoff :
    ℕ → Text → Text → Text → Text → Text → Text → Text → Db → Transaction Db (Option Text)
complete_handoff project_id session run_token from_holder holder acquired_at expires_at now db =
    if ltb 0 (count (held_by project_id from_holder) db.leases)
    then (if ltb 0 (count (is_interrupted project_id session run_token) db.controls)
        then commit
            (record (hand_lease project_id from_holder holder acquired_at expires_at db) {
              controls =
                  update (is_interrupted project_id session run_token) (make_ready now) db.controls;
            })
            (some holder)
        else fail changed_during_handoff)
    else roll_back none

abbrev pub handoff_holder : Option AgentSessionControlRecord → Option Text
handoff_holder none = none
handoff_holder (some c) = c.interactive_holder

abbrev pub handoff_to :
    ℕ → Text → Text → Text → Option Text → Text → Text → Text → Db → Transaction Db (Option Text)
handoff_to project_id session run_token from_holder none acquired_at expires_at now db =
    roll_back none
handoff_to project_id session run_token from_holder (some holder) acquired_at expires_at now db =
    complete_handoff project_id session run_token from_holder holder acquired_at expires_at now db

unfoldable pub complete_session_interrupt_handoff :
    ℕ → Text → Text → Text → Text → Text → Text → Db → SqlResult (Option Text) × Db
complete_session_interrupt_handoff project_id session run_token from_holder acquired_at expires_at
      now db =
    transact db (
      handoff_to project_id session run_token from_holder
        (handoff_holder (find (is_interrupted project_id session run_token) db.controls))
        acquired_at expires_at now db)
