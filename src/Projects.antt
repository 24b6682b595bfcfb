-- ===== src/Projects.antt =====
-- What the end of a run does to its project's row: `AgentRunOutcome` and
-- `update_project_after_run` of src/agent.rs.
pub mod Failures
use clt_rs.Prelude.{
  ℕ, zero, suc, ◌+◌, ◌-◌, ◌*◌, ◌/◌, ◌%◌, ◌^◌, ◌≤◌, ◌<◌, ◌≡◌, refl, sym, ap, ◌∙◌, ◌≢◌, ◌↔◌, ◌⊎◌, inl,
  inr, Bool, true, false, ◌&&◌, ◌||◌, not, Option, none, some, List, [], ◌∷◌, ◌++◌, arith,
  if◌then◌else◌, ltb, leb, ◌==◌, ==_iff, ==_refl, Bool-cases, Option-cases, is_some, is_none,
  unwrap_or, Text, codes, text_eq, text_eq→eq, text_eq_refl, text_eq_iff, starts_with, text_leb,
  is_digit, cast_digits, cast_integer, u64_max, parse_digits, parse_unsigned, parse_u64,
  like_prefix, decimal, length,
}
use clt_rs.Sql.{
  SqlResult, ok, err, SqlError, foreign_key_failed, no_rows, out_of_range, missing_run_id,
  Transaction, commit, roll_back, fail, transact, any, count, find, delete, update, select,
}
use clt_rs.Sql.Laws.{
  any-append, any-delete, any_congr, any_mono, count-append, count_pos, count-eq-zero, count_mono,
  count-delete-le, count-update-le, count-update, any-update, find-none, find-append, find_holds,
  any_of_find, select-append, select-delete, select-update, select-nil, delete-none, update-none,
}
use clt_rs.Store.{ℤ, AgentProject, Db}

pub record AgentRunOutcome : Type 0 where
  pub project_id : ℕ
  pub status : Text
  pub started_at : Text
  pub finished_at : Option Text
  pub exit_code : Option ℤ
  pub log_dir : Option Text
  pub stdout_path : Option Text
  pub stderr_path : Option Text
  pub summary : Option Text
  pub codex_session_id : Option Text

unfoldable pub outcome_finished_at : AgentRunOutcome → Text
outcome_finished_at outcome = unwrap_or outcome.finished_at outcome.started_at

unfoldable pub is_success : Text → Bool
is_success status = text_eq status (codes "success") || text_eq status (codes "idle")

unfoldable pub is_failure : Text → Bool
is_failure status = text_eq status (codes "failure") || text_eq status (codes "timeout")

unfoldable pub project_after_run : Text → Text → AgentProject → AgentProject
project_after_run status finished_at p =
    if is_success status
    then record p {
      last_run_at = some finished_at;
      last_success_at = some finished_at;
      last_failure_at = none;
      last_blocked_recovery_at = none;
      failure_count = 0;
      updated_at = finished_at;
    }
    else if text_eq status (codes "blocked")
    then record p {
      last_run_at = some finished_at;
      last_blocked_recovery_at = some finished_at;
      updated_at = finished_at;
    }
    else if is_failure status
    then record p {
      last_run_at = some finished_at;
      last_failure_at = some finished_at;
      failure_count = p.failure_count + 1;
      updated_at = finished_at;
    }
    else record p { last_run_at = some finished_at; updated_at = finished_at }

unfoldable pub update_project_after_run : AgentRunOutcome → Db → Db
unfolding outcome_finished_at
update_project_after_run outcome db = record db {
  projects =
      update (λ p. p.id == outcome.project_id)
        (project_after_run outcome.status (outcome_finished_at outcome)) db.projects;
}
