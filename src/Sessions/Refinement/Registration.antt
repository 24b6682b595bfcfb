-- ===== src/Sessions/Refinement/Registration.antt =====
-- The registration and the removal of sessions take steps of the relation:
-- src/agent/repositories/sessions_runs.rs.
use clt_rs.Prelude.{
  ◌≡◌, arith, refl, inl, inr, Bool, true, false, ◌&&◌, ◌||◌, not, Option, none, some, ◌==◌,
  Bool-cases, Text,
}
use clt_rs.Sql.{
  SqlResult, ok, err, lost_worker_lease, other_generation, git_mode_changed, managed_git_evidence,
  no_launch_state, lost_launch_state, Transaction, any, count,
}
use clt_rs.Sql.Transactions.{Commits, Commits-commit, Commits-roll_back, Commits-fail, Commits-if}
use clt_rs.Git.{AgentGitMode, off}
use clt_rs.Sessions.{stopped, resume_requested, AgentSessionControlRecord}
use clt_rs.Store.{Db, AgentGitLaunchState}
use clt_rs.Sessions.Statements.{in_session}
use clt_rs.Sessions.Guardians.{is_unexpired, extend_guarded_lease}
use clt_rs.Sessions.Registration.{
  Launch, running_row, of_launch, mark_running, keeps_request, upsert_running, after_upsert,
  mark_with, AgentKnownSessionRegistration, lost_lease, has_other_generation, is_resumed,
  resume_running, is_unstarted, start_running, register_control, commit_changed, refuses_planning,
  register_known_session_with_child,
}
use clt_rs.Sessions.Registration.Journals.{
  note_mode, is_mode_of, in_mode, is_launch_state, is_journal_of, is_own_journal, is_compatible,
  insert_from, insert_journal, consume_launch, register_mode, after_journal, with_mode,
  mark_session_running,
}
use clt_rs.Sessions.Steps.{
  starting, registering, register, run_resumed, run_planned, from_state, Step, stays, launch, run,
  Moves-same, Moves-update, KeepsKey,
}
use clt_rs.Sessions.Refinement.{MovesDb, transact-Moves, one_of, insert_control-Moves}

mark_running-KeepsKey : (l : Launch) → KeepsKey (mark_running l)
unfolding KeepsKey in_session mark_running
mark_running-KeepsKey l p s c = refl

mark_running-step :
    (l : Launch) (c : AgentSessionControlRecord)
    → Step starting (some c.state) (some (mark_running l c).state)
unfolding mark_running
mark_running-step l c = elim (Bool-cases (keeps_request l c)) [
  | inl k ↦ rw k (stays (some c.state))
  | inr k ↦ rw k (run c.state)
]

upsert_running-Moves : (l : Launch) (db : Db) → MovesDb starting db (upsert_running l db).1
unfolding upsert_running
upsert_running-Moves l db = elim (Bool-cases (any (of_launch l) db.controls)) [
  | inl k ↦ rw k (
      Moves-update (of_launch l) (mark_running l) db.controls (mark_running-KeepsKey l)
        (λ c e. mark_running-step l c))
  | inr k ↦ rw k (insert_control-Moves (running_row l) db launch)
]

consume_launch-Moves :
    (l : Launch) (d db : Db)
    → MovesDb starting d db
    → Commits (MovesDb starting d) (consume_launch l db)
unfolding consume_launch
consume_launch-Moves l d db m =
    Commits-if (count (is_launch_state l) db.launch_states == 1) _ _ (λ k. Commits-commit _ true m)
      (λ k. Commits-fail lost_launch_state)

after_journal-Moves :
    (l : Launch) (mode : AgentGitMode) (d : Db) (x : Bool × Db)
    → MovesDb starting d x.1
    → Commits (MovesDb starting d) (after_journal l mode x)
after_journal-Moves l mode d (b, db) m =
    Commits-if
      (not (count (is_own_journal l mode) db.journals == 1)
        || (not b && not (count (is_compatible l mode db) db.journals == 1)))
      _ _ (λ k. Commits-fail no_launch_state)
      (λ k. Commits-if b _ _ (λ n. consume_launch-Moves l d db m) (λ n. Commits-commit db true m))

insert_from-controls :
    (l : Launch) (at : Text) (o : Option AgentGitLaunchState) (d db : Db)
    → MovesDb starting d db
    → MovesDb starting d (insert_from l at o db).1
insert_from-controls l at none d db m = m
insert_from-controls l at (some x) d db m = elim (Bool-cases (any (is_journal_of l) db.journals)) [
  | inl k ↦ rw k m
  | inr k ↦ rw k m
]

insert_journal-controls :
    (l : Launch) (mode : AgentGitMode) (at : Text) (d db : Db)
    → MovesDb starting d db
    → MovesDb starting d (insert_journal l mode at db).1
unfolding insert_journal
insert_journal-controls l mode at d db m = insert_from-controls l at _ d db m

note_mode-controls :
    (l : Launch) (mode : AgentGitMode) (d db : Db)
    → MovesDb starting d db
    → MovesDb starting d (note_mode l mode db)
unfolding note_mode
note_mode-controls l mode d db m = one_of d (any (is_mode_of l) db.session_git_modes) db _ m m

register_mode-Moves :
    (l : Launch) (mode : AgentGitMode) (at : Text) (d db : Db)
    → MovesDb starting d db
    → Commits (MovesDb starting d) (register_mode l mode at db)
unfolding register_mode
register_mode-Moves l mode at d db m =
    Commits-if
      (not (count (λ x. is_mode_of l x && in_mode mode x.git_mode) db.session_git_modes == 1)) _ _
      (λ k. Commits-fail git_mode_changed)
      (λ k.
        Commits-if (in_mode off mode) _ _
          (λ n.
            Commits-if
              (any (is_journal_of l) db.journals || any (is_launch_state l) db.launch_states) _ _
              (λ o. Commits-fail managed_git_evidence) (λ o. Commits-commit db true m))
          (λ n.
            after_journal-Moves l mode d (insert_journal l mode at db)
              (insert_journal-controls l mode at d db m)))

with_mode-Moves :
    (l : Launch) (mode : Option AgentGitMode) (at : Text) (d db : Db)
    → MovesDb starting d db
    → Commits (MovesDb starting d) (with_mode l mode at db)
with_mode-Moves l none at d db m = Commits-commit db true m
with_mode-Moves l (some mode) at d db m =
    register_mode-Moves l mode at d (note_mode l mode db) (note_mode-controls l mode d db m)

after_upsert-Moves :
    (next : Db → Transaction Db Bool) (d : Db) (x : SqlResult Bool × Db)
    → ((db : Db) → MovesDb starting d db → Commits (MovesDb starting d) (next db))
    → MovesDb starting d x.1
    → Commits (MovesDb starting d) (after_upsert next x)
after_upsert-Moves next d (err e, db) h m = Commits-fail e
after_upsert-Moves next d (ok false, db) h m = Commits-fail other_generation
after_upsert-Moves next d (ok true, db) h m = h db m

pub mark_session_running-Moves :
    (l : Launch) (mode : Option AgentGitMode) (at : Text) (db : Db)
    → MovesDb starting db (mark_session_running l mode at db).1
unfolding mark_session_running mark_with
mark_session_running-Moves l mode at db = transact-Moves db _ (
    Commits-if (lost_lease l.run_token l.project_id db) _ _ (λ k. Commits-fail lost_worker_lease)
      (λ k.
        Commits-if (has_other_generation l db) _ _ (λ n. Commits-fail other_generation)
          (λ n.
            after_upsert-Moves (with_mode l mode at) db (upsert_running l db)
              (with_mode-Moves l mode at db) (upsert_running-Moves l db))))

resume_running-KeepsKey : (l : Launch) → KeepsKey (resume_running l)
unfolding KeepsKey in_session resume_running
resume_running-KeepsKey l p s c = refl

resume_running-step :
    (l : Launch) (c : AgentSessionControlRecord)
    → is_resumed l c ≡ true
    → Step registering (some c.state) (some (resume_running l c).state)
unfolding resume_running is_resumed
resume_running-step l c e = from_state resume_requested c.state run_resumed (ground arith)

start_running-KeepsKey : (l : Launch) → KeepsKey (start_running l)
unfolding KeepsKey in_session start_running
start_running-KeepsKey l p s c = refl

start_running-step :
    (l : Launch) (c : AgentSessionControlRecord)
    → is_unstarted l c ≡ true
    → Step registering (some c.state) (some (start_running l c).state)
unfolding start_running is_unstarted
start_running-step l c e = from_state stopped c.state run_planned (ground arith)

register_control-Moves :
    (r : AgentKnownSessionRegistration) (db : Db) → MovesDb registering db (register_control r db).1
unfolding register_control
register_control-Moves r db = elim (Bool-cases r.claim_requested_resume) [
  | inl k ↦ rw k (
      Moves-update (is_resumed r.launch) (resume_running r.launch) db.controls
        (resume_running-KeepsKey r.launch) (resume_running-step r.launch))
  | inr k ↦ rw k (elim (Bool-cases (any (of_launch r.launch) db.controls)) [
    | inl n ↦ rw n (elim (Bool-cases r.claim_planning_session) [
      | inl o ↦ rw o (
          Moves-update (is_unstarted r.launch) (start_running r.launch) db.controls
            (start_running-KeepsKey r.launch) (start_running-step r.launch))
      | inr o ↦ rw o (Moves-same db.controls)
    ])
    | inr n ↦ rw n (insert_control-Moves (running_row r.launch) db register)
  ])
]

commit_changed-Moves :
    (d : Db) (x : SqlResult Bool × Db)
    → MovesDb registering d x.1
    → Commits (MovesDb registering d) (commit_changed x)
commit_changed-Moves d (err e, db) m = Commits-fail e
commit_changed-Moves d (ok true, db) m = Commits-commit db true m
commit_changed-Moves d (ok false, db) m = Commits-roll_back false

pub register_known_session_with_child-Moves :
    (r : AgentKnownSessionRegistration) (db : Db)
    → MovesDb registering db (register_known_session_with_child r db).1
unfolding register_known_session_with_child extend_guarded_lease
register_known_session_with_child-Moves r db = transact-Moves db _ (
    Commits-if
      (not (count (is_unexpired r.launch.project_id r.lease_holder r.launch.now) db.leases == 1)) _
      _ (λ k. Commits-roll_back false)
      (λ k.
        Commits-if (refuses_planning r db) _ _ (λ n. Commits-roll_back false)
          (λ n. commit_changed-Moves db _ (
            register_control-Moves r (
              extend_guarded_lease r.launch.project_id r.lease_holder r.launch.now r.expires_at
                db)))))
