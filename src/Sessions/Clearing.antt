-- ===== src/Sessions/Clearing.antt =====
-- The removal and the retirement of a session's control, and the request that brings a pending Git
-- finalization back, of src/agent/repositories/sessions_runs.rs.
use clt_rs.Prelude.{
  ℕ, Bool, true, false, ◌&&◌, ◌||◌, not, Option, none, some, if◌then◌else◌, ◌==◌, is_none, Text,
  text_eq,
}
use clt_rs.Sql.{
  SqlResult, ok, err, Transaction, commit, roll_back, fail, transact, any, count, find, update,
}
use clt_rs.Git.{off, is_terminal, GitFinalizationState, push_pending}
use clt_rs.Sessions.{running, stopped, resume_requested, AgentSessionControlRecord}
use clt_rs.Store.{AgentProject, GitFinalizationRecord, SessionGitMode, Db}
use clt_rs.GitLeases.{column_eq, resume_token, has_active_worker}
use clt_rs.Workers.{text_same}
use clt_rs.Sessions.Statements.{
  in_control, in_session, session_in, update_controls, delete_controls, insert_control, new_control,
  is_unowned, has_running_lease,
}
use clt_rs.Sessions.Registration.{lost_lease}
use clt_rs.Sessions.Registration.Journals.{in_mode}

unfoldable pub journal_of : ℕ → Text → GitFinalizationRecord → Bool
journal_of project_id session g = g.project_id == project_id && text_eq g.codex_session_id session

abbrev is_off : Option SessionGitMode → Option AgentProject → Bool
is_off (some m) p = in_mode off m.git_mode
is_off none (some p) = in_mode off p.git_mode
is_off none none = false

-- `COALESCE((SELECT git_mode FROM session_git_modes …), (SELECT git_mode FROM projects …)) = 'off'`.
unfoldable pub has_git_off : ℕ → Text → Db → Bool
has_git_off project_id session db =
    is_off
      (find (λ m. m.project_id == project_id && text_eq m.codex_session_id session)
        db.session_git_modes)
      (find (λ p. p.id == project_id) db.projects)

-- No worker, live lease, launch state or unfinished journal stands in the way, and the Git record of
-- the session is complete or not wanted.
unfoldable pub may_retire : ℕ → Text → Text → Db → Bool
may_retire project_id session now db =
    not (has_active_worker project_id db)
    && not (has_running_lease project_id now db)
    && not (any (λ s. s.project_id == project_id) db.launch_states)
    && not (any (λ g. journal_of project_id session g && not (is_terminal g.state)) db.journals)
    && (any (journal_of project_id session) db.journals || has_git_off project_id session db)

unfoldable pub is_observed_request : AgentSessionControlRecord → AgentSessionControlRecord → Bool
is_observed_request expected c =
    session_in expected.project_id expected.codex_session_id resume_requested c
    && is_unowned c
    && text_same c.run_token expected.run_token
    && text_eq c.updated_at expected.updated_at

unfoldable pub retire_completed_resume_request : AgentSessionControlRecord → Text → Db → Bool × Db
retire_completed_resume_request expected now db =
    if not (in_control resume_requested expected.state) || not (is_unowned expected)
    then (false, db)
    else update_controls
        (λ c.
          is_observed_request expected c
          && may_retire expected.project_id expected.codex_session_id now db)
        (λ c. record c { state = stopped; updated_at = now }) db

unfoldable pub is_unclaimed_resume : ℕ → Text → AgentSessionControlRecord → Bool
is_unclaimed_resume project_id session c =
    session_in project_id session resume_requested c
    && is_none c.child_pid
    && is_none c.interactive_holder

unfoldable pub clear_orphaned_resume_requested_session : ℕ → Text → Text → Db → Bool × Db
clear_orphaned_resume_requested_session project_id session now db =
    if has_active_worker project_id db || has_running_lease project_id now db
    then (false, db)
    else delete_controls (is_unclaimed_resume project_id session) db

-- `?3 IS NULL OR run_token = ?3`.
abbrev pub token_matches : Option Text → AgentSessionControlRecord → Bool
token_matches none c = true
token_matches (some token) c = column_eq c.run_token token

abbrev pub blocks_clearing : Option Text → ℕ → Db → Bool
blocks_clearing none project_id db = has_active_worker project_id db
blocks_clearing (some token) project_id db = lost_lease token project_id db

unfoldable pub clear_running_session_control : ℕ → Text → Option Text → Db → Bool × Db
clear_running_session_control project_id session run_token db =
    if blocks_clearing run_token project_id db
    then (false, db)
    else delete_controls (λ c. session_in project_id session running c && token_matches run_token c)
        db

unfoldable pub is_push_pending : GitFinalizationState → Bool
is_push_pending push_pending = true
is_push_pending _ = false

unfoldable pub clear_autonomous_push_resume_request : ℕ → Text → Db → Bool × Db
clear_autonomous_push_resume_request project_id session db =
    delete_controls
      (λ c.
        session_in project_id session resume_requested c
        && is_none c.child_pid
        && any (λ g. journal_of project_id session g && is_push_pending g.state) db.journals
        && not (has_active_worker project_id db))
      db

unfoldable pub tag_resume : ℕ → Text → Text → Text → Db → Db
tag_resume project_id session token now db = record db {
  controls =
      update (is_unclaimed_resume project_id session)
        (λ c. record c { run_token = some token; updated_at = now }) db.controls;
}

abbrev pub resume_row : ℕ → Text → Text → Text → AgentSessionControlRecord
resume_row project_id session token now =
    record (new_control project_id session resume_requested now) { run_token = some token }

-- `is_ready` asks for the row that the two statements are to leave.
abbrev pub commit_ready : ℕ → Text → SqlResult Bool × Db → Transaction Db Bool
commit_ready project_id session (err e, db) = fail e
commit_ready project_id session (ok inserted, db) =
    commit db (count (is_unclaimed_resume project_id session) db.controls == 1)

abbrev pub request_for :
    ℕ → Text → Text → Text → Option GitFinalizationRecord → Db → Transaction Db Bool
request_for project_id session tagged_at now none db = roll_back false
request_for project_id session tagged_at now (some g) db = commit_ready project_id session (
    insert_control (resume_row project_id session (resume_token g) now)
      (tag_resume project_id session (resume_token g) tagged_at db))

unfoldable pub ensure_pending_git_finalization_resume_requested :
    ℕ → Text → Text → Text → Db → SqlResult Bool × Db
ensure_pending_git_finalization_resume_requested project_id session tagged_at now db = transact db (
    request_for project_id session tagged_at now
      (find (λ g. journal_of project_id session g && not (is_terminal g.state)) db.journals) db)

unfoldable pub session_control : ℕ → Text → Db → Option AgentSessionControlRecord
session_control project_id session db = find (in_session project_id session) db.controls
