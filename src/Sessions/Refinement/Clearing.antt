-- ===== src/Sessions/Refinement/Clearing.antt =====
-- The removal and the retirement of sessions take steps of the relation:
-- src/agent/repositories/sessions_runs.rs.
use clt_rs.Prelude.{
  ℕ, ◌≡◌, refl, inl, inr, Bool, true, false, ◌&&◌, ◌||◌, not, Option, none, some, arith, Bool-cases,
  is_none, Text,
}
use clt_rs.Sql.{SqlResult, ok, err, any}
use clt_rs.Sql.Transactions.{Commits, Commits-commit, Commits-roll_back, Commits-fail}
use clt_rs.Sessions.{running, stopped, resume_requested, AgentSessionControlRecord}
use clt_rs.Store.{Db, GitFinalizationRecord}
use clt_rs.Sessions.Statements.{is_unowned, has_running_lease, in_control, in_session, session_in}
use clt_rs.Sessions.Clearing.{
  blocks_clearing, token_matches, journal_of, is_push_pending, may_retire, is_observed_request,
  retire_completed_resume_request, is_unclaimed_resume, clear_orphaned_resume_requested_session,
  clear_running_session_control, clear_autonomous_push_resume_request, tag_resume, resume_row,
  commit_ready, request_for, ensure_pending_git_finalization_resume_requested,
}
use clt_rs.GitLeases.{resume_token, has_active_worker}
use clt_rs.Sessions.Steps.{
  retiring, dropping, clearing, requesting, request_resume, retire, drop_request, clear, Moves-same,
  Moves-after_update, KeepsKey, from_state,
}
use clt_rs.Sessions.Refinement.{
  MovesDb, transact-Moves, update_controls-Moves, delete_controls-Moves, insert_control-Moves,
}

unclaimed-state :
    (p : ℕ) (s : Text) (c : AgentSessionControlRecord)
    → is_unclaimed_resume p s c ≡ true
    → in_control resume_requested c.state ≡ true
unfolding is_unclaimed_resume session_in
unclaimed-state p s c e = ground arith

pub retire_completed_resume_request-Moves :
    (x : AgentSessionControlRecord) (now : Text) (db : Db)
    → MovesDb retiring db (retire_completed_resume_request x now db).1
unfolding retire_completed_resume_request KeepsKey in_session
retire_completed_resume_request-Moves x now db =
    elim (Bool-cases (not (in_control resume_requested x.state) || not (is_unowned x))) [
      | inl k ↦ rw k (Moves-same db.controls)
      | inr k ↦ rw k (
          update_controls-Moves
            (λ c. is_observed_request x c && may_retire x.project_id x.codex_session_id now db)
            (λ c. record c { state = stopped; updated_at = now }) db (λ p s c. refl)
            (λ c e.
              from_state resume_requested c.state retire
                (unfold is_observed_request session_in in ground arith)))
    ]

pub clear_orphaned_resume_requested_session-Moves :
    (p : ℕ) (s now : Text) (db : Db)
    → MovesDb dropping db (clear_orphaned_resume_requested_session p s now db).1
unfolding clear_orphaned_resume_requested_session
clear_orphaned_resume_requested_session-Moves p s now db =
    elim (Bool-cases (has_active_worker p db || has_running_lease p now db)) [
      | inl k ↦ rw k (Moves-same db.controls)
      | inr k ↦ rw k (
          delete_controls-Moves (is_unclaimed_resume p s) db
            (λ c e. from_state resume_requested c.state drop_request (unclaimed-state p s c e)))
    ]

pub clear_running_session_control-Moves :
    (p : ℕ) (s : Text) (t : Option Text) (db : Db)
    → MovesDb clearing db (clear_running_session_control p s t db).1
unfolding clear_running_session_control
clear_running_session_control-Moves p s t db = elim (Bool-cases (blocks_clearing t p db)) [
  | inl k ↦ rw k (Moves-same db.controls)
  | inr k ↦ rw k (
      delete_controls-Moves (λ c. session_in p s running c && token_matches t c) db
        (λ c e. from_state running c.state clear (unfold session_in in ground arith)))
]

pub clear_autonomous_push_resume_request-Moves :
    (p : ℕ) (s : Text) (db : Db)
    → MovesDb dropping db (clear_autonomous_push_resume_request p s db).1
unfolding clear_autonomous_push_resume_request
clear_autonomous_push_resume_request-Moves p s db =
    delete_controls-Moves
      (λ c.
        session_in p s resume_requested c
        && is_none c.child_pid
        && any (λ g. journal_of p s g && is_push_pending g.state) db.journals
        && not (has_active_worker p db))
      db
      (λ c e. from_state resume_requested c.state drop_request (unfold session_in in ground arith))

commit_ready-Moves :
    (p : ℕ) (s : Text) (d : Db) (x : SqlResult Bool × Db)
    → MovesDb requesting d x.1
    → Commits (MovesDb requesting d) (commit_ready p s x)
commit_ready-Moves p s d (err e, db) m = Commits-fail e
commit_ready-Moves p s d (ok b, db) m = Commits-commit db _ m

request_for-Moves :
    (p : ℕ) (s at now : Text) (o : Option GitFinalizationRecord) (db : Db)
    → Commits (MovesDb requesting db) (request_for p s at now o db)
unfolding tag_resume KeepsKey in_session
request_for-Moves p s at now none db = Commits-roll_back false
request_for-Moves p s at now (some g) db = commit_ready-Moves p s db _ (
    Moves-after_update (is_unclaimed_resume p s) _ db.controls _ (λ q u c. refl) (λ c. refl)
      (insert_control-Moves (resume_row p s (resume_token g) now)
        (tag_resume p s (resume_token g) at db) request_resume))

pub ensure_pending_git_finalization_resume_requested-Moves :
    (p : ℕ) (s at now : Text) (db : Db)
    → MovesDb requesting db (ensure_pending_git_finalization_resume_requested p s at now db).1
unfolding ensure_pending_git_finalization_resume_requested
ensure_pending_git_finalization_resume_requested-Moves p s at now db =
    transact-Moves db _ (request_for-Moves p s at now _ db)
