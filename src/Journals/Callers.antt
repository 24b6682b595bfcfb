-- ===== src/Journals/Callers.antt =====
-- The moves that the callers of `compare_and_set_git_finalization` ask for, of
-- src/agent/repositories/git_journals.rs.
use clt_rs.Prelude.{ℕ, Bool, true, false, Option, none, some, Text}
use clt_rs.Sql.{SqlResult}
use clt_rs.Git.{GitFinalizationState, tracking, commit_pending}
use clt_rs.Store.{Db}
use clt_rs.Journals.{GitFinalizationMove, compare_and_set_git_finalization}

unfoldable compare_and_set_owned_git_finalization :
    ℕ
    → Text
    → ℕ
    → GitFinalizationState
    → Text
    → Option Text
    → Option Text
    → Text
    → Db
    → SqlResult Bool × Db
compare_and_set_owned_git_finalization project session generation next owner oid error now =
    compare_and_set_git_finalization (record {
      project_id = project;
      codex_session_id = session;
      expected_generation = generation;
      next_state = next;
      task_identity = none;
      worktree_baseline = none;
      require_running_owner = true;
      owner_run_token = some owner;
      commit_oid = oid;
      last_error = error;
      updated_at = now;
    })

unfoldable compare_and_set_git_finalization_with_identity :
    ℕ → Text → ℕ → GitFinalizationState → Text → Option Text → Text → Db → SqlResult Bool × Db
compare_and_set_git_finalization_with_identity project session generation next task owner now =
    compare_and_set_git_finalization (record {
      project_id = project;
      codex_session_id = session;
      expected_generation = generation;
      next_state = next;
      task_identity = some task;
      worktree_baseline = none;
      require_running_owner = true;
      owner_run_token = owner;
      commit_oid = none;
      last_error = none;
      updated_at = now;
    })

-- The move of a manifest, to a state.
abbrev with_manifest :
    GitFinalizationState → ℕ → Text → ℕ → Text → Text → Text → Text → GitFinalizationMove
with_manifest next project session generation task baseline owner now = record {
  project_id = project;
  codex_session_id = session;
  expected_generation = generation;
  next_state = next;
  task_identity = some task;
  worktree_baseline = some baseline;
  require_running_owner = true;
  owner_run_token = some owner;
  commit_oid = none;
  last_error = none;
  updated_at = now;
}

unfoldable track_git_finalization_with_manifest :
    ℕ → Text → ℕ → Text → Text → Text → Text → Db → SqlResult Bool × Db
track_git_finalization_with_manifest project session generation task baseline owner now =
    compare_and_set_git_finalization
      (with_manifest tracking project session generation task baseline owner now)

unfoldable reseal_git_finalization_manifest :
    ℕ → Text → ℕ → Text → Text → Text → Text → Db → SqlResult Bool × Db
reseal_git_finalization_manifest project session generation task baseline owner now =
    compare_and_set_git_finalization
      (with_manifest commit_pending project session generation task baseline owner now)

unfoldable recover_git_finalization_intent :
    ℕ → Text → ℕ → Text → Option Text → Text → Db → SqlResult Bool × Db
recover_git_finalization_intent project session generation task owner now =
    compare_and_set_git_finalization (record {
      project_id = project;
      codex_session_id = session;
      expected_generation = generation;
      next_state = tracking;
      task_identity = some task;
      worktree_baseline = none;
      require_running_owner = false;
      owner_run_token = owner;
      commit_oid = none;
      last_error = none;
      updated_at = now;
    })
