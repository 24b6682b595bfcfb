-- ===== src/Journals/Creation.antt =====
-- A new journal: `create_git_finalization` of src/agent/repositories/git_journals.rs.
use clt_rs.Prelude.{
  ℕ, Bool, true, false, ◌&&◌, ◌||◌, not, Option, none, some, [], ◌∷◌, ◌++◌, if◌then◌else◌, Text,
}
use clt_rs.Sql.{
  SqlResult, foreign_key_failed, no_session_id, git_mode_off, Transaction, commit, fail, transact,
  any,
}
use clt_rs.Git.{AgentGitMode, off, working}
use clt_rs.Sessions.{running}
use clt_rs.Store.{GitFinalizationRecord, Db, project_exists}
use clt_rs.GitLeases.{column_eq}
use clt_rs.Sessions.Statements.{session_in}
use clt_rs.Sessions.Clearing.{journal_of}

pub record NewGitFinalization : Type 0 where
  pub project_id : ℕ
  pub codex_session_id : Text
  pub git_mode : AgentGitMode
  pub starting_head : Option Text
  pub branch_ref : Option Text
  pub upstream_ref : Option Text
  pub worktree_baseline : Text
  pub task_identity : Option Text
  pub owner_run_token : Option Text
  pub created_at : Text

unfoldable pub new_journal : NewGitFinalization → GitFinalizationRecord
new_journal n = record {
  project_id = n.project_id;
  codex_session_id = n.codex_session_id;
  state = working;
  git_mode = n.git_mode;
  starting_head = n.starting_head;
  branch_ref = n.branch_ref;
  upstream_ref = n.upstream_ref;
  worktree_baseline = n.worktree_baseline;
  task_identity = n.task_identity;
  owner_run_token = n.owner_run_token;
  commit_oid = none;
  generation = 0;
  last_error = none;
  created_at = n.created_at;
  updated_at = n.created_at;
  completed_at = none;
  acknowledged_at = none;
  acknowledged_run_id = none;
}

-- The row is inserted without an owner, or where the owner's session runs.
abbrev owner_runs : NewGitFinalization → Option Text → Db → Bool
owner_runs n none db = true
owner_runs n (some token) db =
    any (λ c. session_in n.project_id n.codex_session_id running c && column_eq c.run_token token)
      db.controls

-- No row goes in.
unfoldable pub is_ignored : NewGitFinalization → Db → Bool
is_ignored n db =
    not (owner_runs n n.owner_run_token db)
    || any (journal_of n.project_id n.codex_session_id) db.journals

unfoldable pub insert_row : NewGitFinalization → Db → Db
insert_row n db = record db { journals = db.journals ++ new_journal n ∷ [] }

-- `INSERT OR IGNORE`, which still fails on a missing project.
unfoldable pub insert_new : NewGitFinalization → Db → Transaction Db Bool
insert_new n db =
    if is_ignored n db
    then commit db false
    else if project_exists n.project_id db
    then commit (insert_row n db) true
    else fail foreign_key_failed

unfoldable pub is_off_mode : AgentGitMode → Bool
is_off_mode off = true
is_off_mode _ = false

unfoldable pub is_empty_text : Text → Bool
is_empty_text [] = true
is_empty_text (c ∷ cs) = false

unfoldable pub create_transaction : NewGitFinalization → Db → Transaction Db Bool
create_transaction n db =
    if is_empty_text n.codex_session_id
    then fail no_session_id
    else if is_off_mode n.git_mode
    then fail git_mode_off
    else insert_new n db

unfoldable pub create_git_finalization : NewGitFinalization → Db → SqlResult Bool × Db
create_git_finalization n db = transact db (create_transaction n db)
