-- ===== src/Examples/Journaling.antt =====
-- The theorems on journals at concrete inputs.
use clt_rs.Prelude.{
  ℕ, ◌≡◌, refl, true, false, Option, none, some, List, [], ◌∷◌, arith, Text, codes, text_eq,
}
use clt_rs.Sql.{ok, any, count, find, update}
use clt_rs.Git.{
  commit_and_push, GitFinalizationState, working, tracking, commit_pending, push_pending, completed,
  can_transition_to, is_finalizing,
}
use clt_rs.Sessions.{running, control_database_value}
use clt_rs.Sessions.Statements.{in_control, in_session, session_in, new_control}
use clt_rs.Sessions.Clearing.{journal_of, is_push_pending}
use clt_rs.Store.{Db}
use clt_rs.Journals.{
  GitFinalizationMove, refusal, is_expected, moved, is_pending_of, move_row, move_fence,
  move_expected, is_owner, if_owned, move_transaction, compare_and_set_git_finalization,
  is_completed, skips_step,
}
use clt_rs.Journals.Creation.{NewGitFinalization, new_journal}
use clt_rs.Journals.Soundness.{IsSound}
use clt_rs.Journals.Histories.{Operation, create, compare_and_set, apply_all, journals-IsSound}
use clt_rs.Journals.Races.{compare_and_set-exclusive}
use clt_rs.Examples.{leased}

abbrev session : Text
session = codes "c0ffee"

abbrev token : Text
token = codes "run-1"

abbrev new : NewGitFinalization
new = record {
  project_id = 1;
  codex_session_id = session;
  git_mode = commit_and_push;
  starting_head = some (codes "a1");
  branch_ref = none;
  upstream_ref = none;
  worktree_baseline = codes "{}";
  task_identity = none;
  owner_run_token = some token;
  created_at = codes "100";
}

abbrev supervised : Db
supervised = record leased {
  controls = record (new_control 1 session running (codes "100")) { run_token = some token } ∷ [];
}

-- The move of a running session to a state, from a generation.
abbrev move_to : GitFinalizationState → ℕ → Option Text → Option Text → GitFinalizationMove
move_to state generation task oid = record {
  project_id = 1;
  codex_session_id = session;
  expected_generation = generation;
  next_state = state;
  task_identity = task;
  worktree_baseline = none;
  require_running_owner = true;
  owner_run_token = some token;
  commit_oid = oid;
  last_error = none;
  updated_at = codes "120";
}

abbrev to_track : GitFinalizationMove
to_track = move_to tracking 0 (some (codes "task-1")) none

abbrev life : List Operation
life =
    create new
    ∷ compare_and_set to_track
    ∷ compare_and_set (move_to commit_pending 1 none none)
    ∷ compare_and_set (move_to push_pending 2 none (some (codes "b2")))
    ∷ compare_and_set (move_to completed 3 none none)
    ∷ []

none_yet : IsSound supervised.journals
unfolding count any
none_yet = record { keyed = λ p s. ground arith; pending = λ p. ground arith; sound = refl }

journals-IsSound_example : IsSound (apply_all life supervised).journals
journals-IsSound_example = journals-IsSound life supervised none_yet

abbrev journaled : Db
journaled = record supervised { journals = new_journal new ∷ [] }

tracked : (compare_and_set_git_finalization to_track journaled).0 ≡ ok true
unfolding compare_and_set_git_finalization move_transaction move_expected move_row move_fence
    if_owned is_owner is_expected is_pending_of moved refusal skips_step is_completed
    can_transition_to is_finalizing is_push_pending journal_of session_in in_session in_control
    control_database_value new_journal count find update text_eq
tracked = refl

-- A second process that read the same generation.
abbrev rival : GitFinalizationMove
rival = record (move_to working 0 none none) { require_running_owner = false }

compare_and_set-exclusive_example :
    compare_and_set_git_finalization rival (compare_and_set_git_finalization to_track journaled).1
    ≡ (ok false, (compare_and_set_git_finalization to_track journaled).1)
compare_and_set-exclusive_example =
    compare_and_set-exclusive to_track rival journaled refl refl refl tracked
