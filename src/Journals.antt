-- ===== src/Journals.antt =====
-- The journals of commits, moved from state to state under their generation:
-- `compare_and_set_git_finalization` and its callers of src/agent/repositories/git_journals.rs.
pub mod Creation
pub mod Callers
pub mod Soundness
pub mod Histories
pub mod Races
use clt_rs.Prelude.{
  i64_max, ℕ, zero, suc, ◌+◌, ◌-◌, ◌*◌, ◌/◌, ◌%◌, ◌^◌, ◌≤◌, ◌<◌, ◌≡◌, refl, sym, ap, ◌∙◌, ◌≢◌, ◌↔◌,
  ◌⊎◌, inl, inr, Bool, true, false, ◌&&◌, ◌||◌, not, Option, none, some, List, [], ◌∷◌, ◌++◌, arith,
  if◌then◌else◌, ltb, leb, ◌==◌, ==_iff, ==_refl, Bool-cases, Option-cases, is_some, is_none,
  unwrap_or, Text, codes, text_eq, text_eq→eq, text_eq_refl, text_eq_iff, starts_with, text_leb,
  text_eq_sym, text_leb_total, text_leb_antisym, is_digit, cast_digits, cast_integer, u64_max,
  parse_digits, parse_unsigned, parse_u64, like_prefix, decimal, length,
}
use clt_rs.Sql.{
  SqlResult, ok, err, SqlError, foreign_key_failed, no_rows, out_of_range, missing_run_id,
  invalid_guardian_holder, changed_during_handoff, lost_worker_lease, other_generation,
  git_mode_changed, managed_git_evidence, no_launch_state, lost_launch_state, no_owner_token,
  invalid_transition, no_push_mode, identity_changed, no_identity, commit_changed, no_commit_oid,
  step_skipped, generation_overflowed, pending_exists, no_session_id, git_mode_off, Transaction,
  commit, roll_back, fail, transact, any, count, find, delete, update, select,
}
use clt_rs.Sql.Laws.{
  any-append, any-delete, any_congr, any_mono, count-append, count-append_one, count_pos,
  count-eq-zero, count_mono, count-delete-le, count-update-le, count-update, any-update,
  any-update_made, find-none, find-append, find_holds, any_of_find, select-append, select-delete,
  select-update, select-nil, delete-none, update-none,
}
use clt_rs.Git.{
  AgentGitMode, off, commit, commit_and_push, GitFinalizationState, working, tracking,
  commit_pending, push_pending, completed, cancelled, can_transition_to, is_terminal, is_finalizing,
  state_database_value,
}
use clt_rs.Sessions.{AgentSessionControlState, running, resume_requested, AgentSessionControlRecord}
use clt_rs.Store.{GitFinalizationRecord, Db}
use clt_rs.GitLeases.{column_eq, resume_token_prefix}
use clt_rs.Sessions.Statements.{session_in, is_unowned}
use clt_rs.Sessions.Clearing.{journal_of, is_push_pending}

-- The arguments of a move. The generation is one that the caller has read from a row.
pub record GitFinalizationMove : Type 0 where
  pub project_id : ℕ
  pub codex_session_id : Text
  pub expected_generation : ℕ
  pub next_state : GitFinalizationState
  pub task_identity : Option Text
  pub worktree_baseline : Option Text
  pub require_running_owner : Bool
  pub owner_run_token : Option Text
  pub commit_oid : Option Text
  pub last_error : Option Text
  pub updated_at : Text

-- `COALESCE(a, b)`, and `a.or(b)`.
abbrev pub coalesce {ℓ} : {A : Type ℓ} → Option A → Option A → Option A
coalesce none b = b
coalesce (some a) b = some a

-- Both texts are there and differ.
abbrev pub texts_differ : Option Text → Option Text → Bool
texts_differ none b = false
texts_differ (some a) none = false
texts_differ (some a) (some b) = not (text_eq a b)

unfoldable pub in_commit_pending : GitFinalizationState → Bool
in_commit_pending commit_pending = true
in_commit_pending _ = false

unfoldable pub is_completed : GitFinalizationState → Bool
is_completed completed = true
is_completed _ = false

unfoldable pub is_commit_mode : AgentGitMode → Bool
is_commit_mode commit = true
is_commit_mode _ = false

unfoldable pub is_push_mode : AgentGitMode → Bool
is_push_mode commit_and_push = true
is_push_mode _ = false

-- The move to `completed` leaves out the commit or the push that the mode asks for.
unfoldable pub skips_step : GitFinalizationState → GitFinalizationRecord → Bool
skips_step next current =
    is_completed next
    && (is_commit_mode current.git_mode && not (in_commit_pending current.state)
        || is_push_mode current.git_mode && not (is_push_pending current.state))

-- The checks of a move, in their order.
unfoldable pub refusal : GitFinalizationMove → GitFinalizationRecord → Option SqlError
refusal r current =
    if not (can_transition_to current.state r.next_state)
    then some invalid_transition
    else if is_push_pending r.next_state && not (is_push_mode current.git_mode)
    then some no_push_mode
    else if texts_differ current.task_identity r.task_identity
    then some identity_changed
    else if is_finalizing r.next_state && is_none (coalesce r.task_identity current.task_identity)
    then some no_identity
    else if texts_differ current.commit_oid r.commit_oid
    then some commit_changed
    else if (is_push_pending r.next_state || is_completed r.next_state)
        && is_none (coalesce r.commit_oid current.commit_oid)
    then some no_commit_oid
    else if skips_step r.next_state current
    then some step_skipped
    else none

unfoldable pub is_expected : GitFinalizationMove → GitFinalizationRecord → Bool
is_expected r g =
    journal_of r.project_id r.codex_session_id g && g.generation == r.expected_generation

unfoldable pub moved : GitFinalizationMove → GitFinalizationRecord → GitFinalizationRecord
moved r g = record g {
  state = r.next_state;
  task_identity = coalesce g.task_identity r.task_identity;
  worktree_baseline = unwrap_or r.worktree_baseline g.worktree_baseline;
  owner_run_token = r.owner_run_token;
  commit_oid = coalesce r.commit_oid g.commit_oid;
  generation = suc g.generation;
  last_error = r.last_error;
  updated_at = r.updated_at;
  completed_at = if is_terminal r.next_state then some r.updated_at else none;
}

-- The rows under the index `git_finalizations_pending_project_unique`.
unfoldable pub is_pending_of : ℕ → GitFinalizationRecord → Bool
is_pending_of project_id g = g.project_id == project_id && is_finalizing g.state

unfoldable pub fence_token : ℕ → Text
fence_token generation = resume_token_prefix ++ decimal generation

-- The control that keeps the session for the journal's generation.
unfoldable pub is_fence : GitFinalizationMove → AgentSessionControlRecord → Bool
is_fence r c =
    session_in r.project_id r.codex_session_id resume_requested c
    && is_unowned c
    && column_eq c.run_token (fence_token r.expected_generation)

unfoldable pub advance_fence :
    GitFinalizationMove → List AgentSessionControlRecord → List AgentSessionControlRecord
advance_fence r controls =
    if is_terminal r.next_state
    then delete (is_fence r) controls
    else update (is_fence r)
        (λ c. record c {
          run_token = some (fence_token (suc r.expected_generation));
          updated_at = r.updated_at;
        })
        controls

unfoldable pub move_row : GitFinalizationMove → Db → Db
move_row r db = record db { journals = update (is_expected r) (moved r) db.journals }

unfoldable pub move_fence : GitFinalizationMove → Db → Db
move_fence r db = record db { controls = advance_fence r db.controls }

-- The update, which fails where the project would have a second journal under the index.
unfoldable pub move_expected : GitFinalizationMove → Db → Transaction Db Bool
move_expected r db =
    if ltb 1 (count (is_pending_of r.project_id) (move_row r db).journals)
    then fail pending_exists
    else if not (count (is_expected r) db.journals == 1)
    then commit (move_row r db) false
    else if r.expected_generation == i64_max
    then fail generation_overflowed
    else commit (move_fence r (move_row r db)) true

abbrev pub unless_refused : Option SqlError → Transaction Db Bool → Transaction Db Bool
unless_refused none next = next
unless_refused (some e) next = fail e

unfoldable pub is_owner : GitFinalizationMove → Text → AgentSessionControlRecord → Bool
is_owner r token c =
    session_in r.project_id r.codex_session_id running c && column_eq c.run_token token

abbrev pub if_running :
    GitFinalizationMove → Option Text → Db → Transaction Db Bool → Transaction Db Bool
if_running r none db next = fail no_owner_token
if_running r (some token) db next =
    if count (is_owner r token) db.controls == 1 then next else commit db false

unfoldable pub if_owned : GitFinalizationMove → Db → Transaction Db Bool → Transaction Db Bool
if_owned r db next =
    if r.require_running_owner then if_running r r.owner_run_token db next else next

abbrev pub move_found :
    GitFinalizationMove → Db → Option GitFinalizationRecord → Transaction Db Bool
move_found r db none = commit db false
move_found r db (some current) =
    if current.generation == r.expected_generation
    then if_owned r db (unless_refused (refusal r current) (move_expected r db))
    else commit db false

unfoldable pub move_transaction : GitFinalizationMove → Db → Transaction Db Bool
move_transaction r db =
    move_found r db (find (journal_of r.project_id r.codex_session_id) db.journals)

unfoldable pub compare_and_set_git_finalization : GitFinalizationMove → Db → SqlResult Bool × Db
compare_and_set_git_finalization r db = transact db (move_transaction r db)
