-- ===== src/Sessions/Registration.antt =====
-- The start of an automated run of a session, of src/agent/repositories/sessions_runs.rs.
pub mod Journals
use clt_rs.Prelude.{
  ℕ, zero, suc, ◌+◌, ◌-◌, ◌*◌, ◌/◌, ◌%◌, ◌^◌, ◌≤◌, ◌<◌, ◌≡◌, refl, sym, ap, ◌∙◌, ◌≢◌, ◌↔◌, ◌⊎◌, inl,
  inr, Bool, true, false, ◌&&◌, ◌||◌, not, Option, none, some, List, [], ◌∷◌, ◌++◌, arith,
  if◌then◌else◌, ltb, leb, ◌==◌, ==_iff, ==_refl, Bool-cases, Option-cases, is_some, is_none,
  unwrap_or, Text, codes, text_eq, text_eq→eq, text_eq_refl, text_eq_iff, starts_with, text_leb,
  text_eq_sym, text_leb_total, text_leb_antisym, is_digit, cast_digits, cast_integer, u64_max,
  parse_digits, parse_unsigned, parse_u64, like_prefix, decimal, length,
}
use clt_rs.Sql.{
  SqlResult, ok, err, SqlError, foreign_key_failed, no_rows, out_of_range, missing_run_id,
  invalid_guardian_holder, changed_during_handoff, lost_worker_lease, other_generation,
  git_mode_changed, managed_git_evidence, no_launch_state, lost_launch_state, Transaction, commit,
  roll_back, fail, transact, any, count, find, delete, update, select,
}
use clt_rs.Sql.Laws.{
  any-append, any-delete, any_congr, any_mono, count-append, count-append_one, count_pos,
  count-eq-zero, count_mono, count-delete-le, count-update-le, count-update, any-update, find-none,
  find-append, find_holds, any_of_find, select-append, select-delete, select-update, select-nil,
  delete-none, update-none,
}
use clt_rs.Git.{AgentGitMode, off, mode_database_value}
use clt_rs.Sessions.{
  AgentSessionControlState, running, stop_requested, stopped, interrupt_requested,
  ready_interactive, interactive, resume_requested, AgentSessionControlRecord,
}
use clt_rs.Store.{Lease, AgentRun, GitFinalizationRecord, SessionGitMode, Db, project_exists}
use clt_rs.GitLeases.{column_eq}
use clt_rs.Sessions.Statements.{
  in_control, in_session, session_in, insert_control, is_unowned, is_worker, is_fenced,
}
use clt_rs.Sessions.Guardians.{is_unexpired, extend_guarded_lease}

pub record Launch : Type 0 where
  pub project_id : ℕ
  pub codex_session_id : Text
  pub child_pid : ℕ
  pub run_token : Text
  pub stdout_path : Text
  pub stderr_path : Text
  pub now : Text

abbrev pub running_row : Launch → AgentSessionControlRecord
running_row l = record {
  project_id = l.project_id;
  codex_session_id = l.codex_session_id;
  state = running;
  child_pid = some l.child_pid;
  run_token = some l.run_token;
  interactive_holder = none;
  interactive_launch_token = none;
  stdout_path = some l.stdout_path;
  stderr_path = some l.stderr_path;
  updated_at = l.now;
}

unfoldable pub of_launch : Launch → AgentSessionControlRecord → Bool
of_launch l = in_session l.project_id l.codex_session_id

-- `session_controls.run_token = excluded.run_token AND state IN ('stop_requested',
-- 'interrupt_requested')`.
unfoldable pub keeps_request : Launch → AgentSessionControlRecord → Bool
keeps_request l c =
    column_eq c.run_token l.run_token
    && (in_control stop_requested c.state || in_control interrupt_requested c.state)

unfoldable pub keeps_holder : Launch → AgentSessionControlRecord → Bool
keeps_holder l c = column_eq c.run_token l.run_token && in_control interrupt_requested c.state

-- `ON CONFLICT … DO UPDATE SET` of `mark_session_running`.
unfoldable pub mark_running : Launch → AgentSessionControlRecord → AgentSessionControlRecord
mark_running l c = record c {
  state = (if keeps_request l c then c.state else running);
  child_pid = some l.child_pid;
  run_token = some l.run_token;
  interactive_holder = (if keeps_holder l c then c.interactive_holder else none);
  stdout_path = some l.stdout_path;
  stderr_path = some l.stderr_path;
  updated_at = l.now;
}

-- The control with the running row: `none` when the upsert fails on a missing project.
unfoldable pub upsert_running : Launch → Db → SqlResult Bool × Db
upsert_running l db =
    if any (of_launch l) db.controls
    then (
      ok (count (of_launch l) db.controls == 1),
      record db { controls = update (of_launch l) (mark_running l) db.controls },
    )
    else insert_control (running_row l) db

abbrev differs : Option Text → Text → Bool
differs none token = false
differs (some t) token = not (text_eq t token)

-- `known_worker && !fenced_worker`.
unfoldable pub lost_lease : Text → ℕ → Db → Bool
lost_lease token project_id db =
    count (is_worker token) db.workers == 1
    && not (count (is_fenced token project_id db) db.workers == 1)

unfoldable pub has_other_generation : Launch → Db → Bool
has_other_generation l db =
    count (is_fenced l.run_token l.project_id db) db.workers == 1
    && any (λ c. of_launch l c && differs c.run_token l.run_token) db.controls

-- Registers the running session, with `continue` for its Git records.
abbrev pub after_upsert : (Db → Transaction Db Bool) → SqlResult Bool × Db → Transaction Db Bool
after_upsert continue (err e, db) = fail e
after_upsert continue (ok false, db) = fail other_generation
after_upsert continue (ok true, db) = continue db

unfoldable pub mark_with : (Db → Transaction Db Bool) → Launch → Db → SqlResult Bool × Db
mark_with continue l db = transact db (
    if lost_lease l.run_token l.project_id db
    then fail lost_worker_lease
    else if has_other_generation l db
    then fail other_generation
    else after_upsert continue (upsert_running l db))

-- `planning_session_can_start`.
unfoldable pub has_automation : AgentSessionControlRecord → Bool
has_automation c = not (in_control stopped c.state) || is_some c.run_token || not (is_unowned c)

unfoldable pub planning_session_can_start : ℕ → Text → Db → Bool
planning_session_can_start project_id session db =
    not (any (λ c. in_session project_id session c && has_automation c) db.controls)
    && not (any (λ r. r.project_id == project_id && column_eq r.codex_session_id session) db.runs)
    && not (
        any (λ m. m.project_id == project_id && text_eq m.codex_session_id session)
          db.session_git_modes)
    && not (any (λ g. g.project_id == project_id && text_eq g.codex_session_id session) db.journals)

pub record AgentKnownSessionRegistration : Type 0 where
  pub launch : Launch
  pub lease_holder : Text
  pub expires_at : Text
  pub claim_requested_resume : Bool
  pub claim_planning_session : Bool

unfoldable pub is_resumed : Launch → AgentSessionControlRecord → Bool
is_resumed l c = of_launch l c && in_control resume_requested c.state

unfoldable pub resume_running : Launch → AgentSessionControlRecord → AgentSessionControlRecord
resume_running l c = record c {
  state = running;
  child_pid = some l.child_pid;
  run_token = some l.run_token;
  interactive_holder = none;
  interactive_launch_token = none;
  stdout_path = some l.stdout_path;
  stderr_path = some l.stderr_path;
  updated_at = l.now;
}

-- The stopped row of a planning session, which the insert may overwrite.
unfoldable pub is_unstarted : Launch → AgentSessionControlRecord → Bool
is_unstarted l c =
    of_launch l c && in_control stopped c.state && is_none c.run_token && is_unowned c

unfoldable pub start_running : Launch → AgentSessionControlRecord → AgentSessionControlRecord
start_running l c = record c {
  state = running;
  child_pid = some l.child_pid;
  run_token = some l.run_token;
  stdout_path = some l.stdout_path;
  stderr_path = some l.stderr_path;
  updated_at = l.now;
}

-- The control statement of the registration: whether it changed one row.
unfoldable pub register_control : AgentKnownSessionRegistration → Db → SqlResult Bool × Db
register_control r db =
    if r.claim_requested_resume
    then (
      ok (count (is_resumed r.launch) db.controls == 1),
      record db { controls = update (is_resumed r.launch) (resume_running r.launch) db.controls },
    )
    else if any (of_launch r.launch) db.controls
    then (if r.claim_planning_session
        then (
          ok (count (is_unstarted r.launch) db.controls == 1),
          record db {
            controls = update (is_unstarted r.launch) (start_running r.launch) db.controls;
          },
        )
        else (ok false, db))
    else insert_control (running_row r.launch) db

abbrev pub commit_changed : SqlResult Bool × Db → Transaction Db Bool
commit_changed (err e, db) = fail e
commit_changed (ok true, db) = commit db true
commit_changed (ok false, db) = roll_back false

-- The planning session that is claimed has a past.
unfoldable pub refuses_planning : AgentKnownSessionRegistration → Db → Bool
refuses_planning r db =
    r.claim_planning_session
    && (r.claim_requested_resume
        || not (planning_session_can_start r.launch.project_id r.launch.codex_session_id db))

unfoldable pub register_known_session_with_child :
    AgentKnownSessionRegistration → Db → SqlResult Bool × Db
register_known_session_with_child r db = transact db (
    if not (count (is_unexpired r.launch.project_id r.lease_holder r.launch.now) db.leases == 1)
    then roll_back false
    else if refuses_planning r db
    then roll_back false
    else commit_changed (
        register_control r
          (extend_guarded_lease r.launch.project_id r.lease_holder r.launch.now r.expires_at db)))
