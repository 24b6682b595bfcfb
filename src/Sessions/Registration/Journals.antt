-- ===== src/Sessions/Registration/Journals.antt =====
-- The Git records that `mark_session_running` of src/agent/repositories/sessions_runs.rs registers
-- with a session.
use clt_rs.Prelude.{
  Bool, true, false, ◌&&◌, ◌||◌, not, Option, none, some, [], ◌∷◌, ◌++◌, if◌then◌else◌, ◌==◌, Text,
  text_eq,
}
use clt_rs.Sql.{
  SqlResult, git_mode_changed, managed_git_evidence, no_launch_state, lost_launch_state,
  Transaction, commit, fail, any, count, find, delete,
}
use clt_rs.Git.{AgentGitMode, off, mode_database_value, GitFinalizationState, working}
use clt_rs.Store.{AgentGitLaunchState, GitFinalizationRecord, SessionGitMode, Db}
use clt_rs.GitLeases.{column_eq}
use clt_rs.Workers.{text_same}
use clt_rs.Sessions.Registration.{Launch, mark_with}

-- `git_mode = ?1`, on the texts that the column holds.
unfoldable pub in_mode : AgentGitMode → AgentGitMode → Bool
in_mode mode actual = text_eq (mode_database_value actual) (mode_database_value mode)

unfoldable pub is_mode_of : Launch → SessionGitMode → Bool
is_mode_of l m = m.project_id == l.project_id && text_eq m.codex_session_id l.codex_session_id

-- `INSERT OR IGNORE INTO session_git_modes`; the registration has seen that the project exists.
unfoldable pub note_mode : Launch → AgentGitMode → Db → Db
note_mode l mode db = if any (is_mode_of l) db.session_git_modes then db else record db {
  session_git_modes =
      db.session_git_modes
      ++ record {
        project_id = l.project_id;
        codex_session_id = l.codex_session_id;
        git_mode = mode;
      }
        ∷ [];
}

unfoldable pub is_launch_state : Launch → AgentGitLaunchState → Bool
is_launch_state l s = s.project_id == l.project_id && text_eq s.run_token l.run_token

unfoldable pub is_journal_of : Launch → GitFinalizationRecord → Bool
is_journal_of l g = g.project_id == l.project_id && text_eq g.codex_session_id l.codex_session_id

unfoldable pub is_working : GitFinalizationState → Bool
is_working working = true
is_working _ = false

unfoldable pub is_own_journal : Launch → AgentGitMode → GitFinalizationRecord → Bool
is_own_journal l mode g =
    is_journal_of l g
    && is_working g.state
    && in_mode mode g.git_mode
    && column_eq g.owner_run_token l.run_token

abbrev pub journal_from : Launch → Text → AgentGitLaunchState → GitFinalizationRecord
journal_from l created_at s = record {
  project_id = s.project_id;
  codex_session_id = l.codex_session_id;
  state = working;
  git_mode = s.git_mode;
  starting_head = some s.starting_head;
  branch_ref = s.branch_ref;
  upstream_ref = s.upstream_ref;
  worktree_baseline = s.worktree_baseline;
  task_identity = none;
  owner_run_token = some s.run_token;
  commit_oid = none;
  generation = 0;
  last_error = none;
  created_at = created_at;
  updated_at = created_at;
  completed_at = none;
  acknowledged_at = none;
  acknowledged_run_id = none;
}

-- `INSERT OR IGNORE INTO git_finalizations … SELECT … FROM agent_git_launch_states`: whether a row
-- went in.
abbrev pub insert_from : Launch → Text → Option AgentGitLaunchState → Db → Bool × Db
insert_from l created_at none db = (false, db)
insert_from l created_at (some s) db =
    if any (is_journal_of l) db.journals
    then (false, db)
    else (true, record db { journals = db.journals ++ journal_from l created_at s ∷ [] })

unfoldable pub insert_journal : Launch → AgentGitMode → Text → Db → Bool × Db
insert_journal l mode created_at db =
    insert_from l created_at
      (find (λ s. is_launch_state l s && in_mode mode s.git_mode) db.launch_states) db

-- The launch state of the journal's run is missing or says the same.
abbrev agrees : GitFinalizationRecord → Option AgentGitLaunchState → Bool
agrees g none = true
agrees g (some s) =
    in_mode s.git_mode g.git_mode
    && column_eq g.starting_head s.starting_head
    && text_same g.branch_ref s.branch_ref
    && text_same g.upstream_ref s.upstream_ref
    && text_eq g.worktree_baseline s.worktree_baseline

unfoldable pub is_compatible : Launch → AgentGitMode → Db → GitFinalizationRecord → Bool
is_compatible l mode db g =
    is_own_journal l mode g && agrees g (find (is_launch_state l) db.launch_states)

-- Consumes the launch state of a journal that went in.
unfoldable pub consume_launch : Launch → Db → Transaction Db Bool
consume_launch l db =
    if count (is_launch_state l) db.launch_states == 1
    then commit (record db { launch_states = delete (is_launch_state l) db.launch_states }) true
    else fail lost_launch_state

abbrev pub after_journal : Launch → AgentGitMode → Bool × Db → Transaction Db Bool
after_journal l mode (inserted, db) =
    if not (count (is_own_journal l mode) db.journals == 1)
      || (not inserted && not (count (is_compatible l mode db) db.journals == 1))
    then fail no_launch_state
    else if inserted
    then consume_launch l db
    else commit db true

unfoldable pub register_mode : Launch → AgentGitMode → Text → Db → Transaction Db Bool
register_mode l mode created_at db =
    if not (count (λ m. is_mode_of l m && in_mode mode m.git_mode) db.session_git_modes == 1)
    then fail git_mode_changed
    else if in_mode off mode
    then (if any (is_journal_of l) db.journals || any (is_launch_state l) db.launch_states
        then fail managed_git_evidence
        else commit db true)
    else after_journal l mode (insert_journal l mode created_at db)

abbrev pub with_mode : Launch → Option AgentGitMode → Text → Db → Transaction Db Bool
with_mode l none created_at db = commit db true
with_mode l (some mode) created_at db = register_mode l mode created_at (note_mode l mode db)

-- The source answers nothing on success; here it answers `true`.
unfoldable pub mark_session_running : Launch → Option AgentGitMode → Text → Db → SqlResult Bool × Db
mark_session_running l mode created_at = mark_with (with_mode l mode created_at) l
