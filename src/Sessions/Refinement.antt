-- ===== src/Sessions/Refinement.antt =====
-- Each operation of src/agent/repositories/sessions_runs.rs on the controls takes steps of the
-- relation, one for each session.
pub mod Requests
pub mod Planning
pub mod Handoffs
pub mod Guardians
pub mod Registration
pub mod Clearing
use clt_rs.Prelude.{
  ℕ, zero, suc, ◌+◌, ◌-◌, ◌*◌, ◌/◌, ◌%◌, ◌^◌, ◌≤◌, ◌<◌, ◌≡◌, refl, sym, ap, ◌∙◌, ◌≢◌, ◌↔◌, ◌⊎◌, inl,
  inr, Bool, true, false, ◌&&◌, ◌||◌, not, Option, none, some, List, [], ◌∷◌, ◌++◌, arith,
  if◌then◌else◌, ltb, leb, ◌==◌, ==_iff, ==_refl, Bool-cases, Option-cases, is_some, is_none,
  unwrap_or, Text, codes, text_eq, text_eq→eq, text_eq_refl, text_eq_iff, starts_with, text_leb,
  text_eq_sym, text_leb_total, text_leb_antisym, is_digit, cast_digits, cast_integer, u64_max,
  parse_digits, parse_unsigned, parse_u64, like_prefix, decimal, length,
}
use clt_rs.Sql.{
  SqlResult, ok, err, SqlError, foreign_key_failed, no_rows, out_of_range, missing_run_id,
  invalid_guardian_holder, changed_during_handoff, lost_worker_lease, other_generation,
  git_mode_changed, managed_git_evidence, no_launch_state, lost_launch_state, Transaction, commit,
  roll_back, fail, transact, any, count, find, delete, update, select,
}
use clt_rs.Sql.Laws.{
  any-append, any-delete, any_congr, any_mono, count-append, count-append_one, count_pos,
  count-eq-zero, count_mono, count-delete-le, count-update-le, count-update, any-update, find-none,
  find-append, find_holds, any_of_find, select-append, select-delete, select-update, select-nil,
  delete-none, update-none,
}
use clt_rs.Sql.Transactions.{
  Commits, Commits-transact, Commits-commit, Commits-roll_back, Commits-fail, Commits-if,
  commits_rules,
}
use clt_rs.Git.{AgentGitMode}
use clt_rs.Sessions.{
  AgentSessionControlState, running, stop_requested, stopped, interrupt_requested,
  ready_interactive, interactive, resume_requested, AgentSessionControlRecord,
}
use clt_rs.Store.{Db, project_exists, GitFinalizationRecord}
use clt_rs.Leases.{insert_lease, new_lease, of_project, held_by}
use clt_rs.Scheduler.Reclaim.{
  InteractiveGuardianDisposition, resume_exec, preserve_idle_session, restore_stopped,
  preserve_shared_session, restore_stopped_shared, from_guardian_holder, holds_project_lease,
}
use clt_rs.Sessions.Statements.{
  in_control, in_session, session_in, update_controls, delete_controls, insert_control, new_control,
  released_to, reserved_for, hand_lease, delete_lease,
}
use clt_rs.Sessions.Requests.{
  is_run, request_session_interrupt, is_handed_over, take_back, cancel_session_interrupt_handoff,
  request_session_stop, is_guarded, request_interactive_session_stop, is_stopped_after,
  request_stopped_session_resume, begin_stopped_session_interactive,
  transition_session_control_state, recover_stale_automated_session_control,
  recover_stale_interactive_session_control, complete_session_stop,
}
use clt_rs.Sessions.Planning.{
  register_planning_session, register_shared_planning_session, is_idle, opened,
  reserve_idle_session_interactive_for_state, is_shareable, reserve_shared_session_interactive,
  is_reserved_by, cancel_idle_session_interactive, is_stopped_shared_interactive_holder,
}
use clt_rs.Sessions.Handoffs.{
  claim_orphaned, claim_orphaned_session_supervision, AutomatedSessionFinalization, is_generation,
  terminal_state, is_exiting, exit_to, finish_exit, is_first_holder, hand_over, finish_found,
  finish_claimed, finish_terminal, finalize_automated_session_after_exit, is_interrupted,
  make_ready, complete_handoff, handoff_to, handoff_holder, complete_session_interrupt_handoff,
}
use clt_rs.Sessions.Guardians.{
  guard, adopt_session, adopt_as, adopt_interactive_guardian, is_childless, register_child,
  extend_guarded_lease, register_child_as, register_interactive_guardian_child, state_after_use,
  leave, is_in_use, release_guardian, finish_interactive_guardian, is_stale_use,
  recover_stale_interactive_guardian,
}
use clt_rs.Sessions.Registration.{
  Launch, running_row, of_launch, mark_running, keeps_request, upsert_running, after_upsert,
  mark_with, AgentKnownSessionRegistration, is_resumed, resume_running, is_unstarted, start_running,
  register_control, commit_changed, refuses_planning, register_known_session_with_child,
}
use clt_rs.Sessions.Registration.Journals.{
  note_mode, insert_journal, consume_launch, register_mode, after_journal, with_mode,
  mark_session_running,
}
use clt_rs.Sessions.Clearing.{
  is_observed_request, retire_completed_resume_request, is_unclaimed_resume,
  clear_orphaned_resume_requested_session, clear_running_session_control,
  clear_autonomous_push_resume_request, tag_resume, resume_row, commit_ready, request_for,
  ensure_pending_git_finalization_resume_requested,
}
use clt_rs.Sessions.Steps.{
  Action, Step, stays, plan, open_new, launch, request_resume, resume, open_stopped, open_waiting,
  retire, drop_request, ask_stop, ask_interrupt, exit, clear, run, finish_stop, adopt, give_up,
  restore, forget, ask_stop_interactive, hand_back, close, Moves, Moves-same, Moves-update,
  Moves-insert, Moves-delete, Moves-after_update, KeepsKey, from_state,
}

-- The controls of the registry move.
abbrev pub MovesDb : Action → Db → Db → Type 0
MovesDb a before after = Moves a before.controls after.controls

pub transact-Moves :
    {a : Action} {A : Type 0} (d : Db) (t : Transaction Db A)
    → Commits (MovesDb a d) t
    → MovesDb a d (transact d t).1
transact-Moves d t c = Commits-transact d t (Moves-same d.controls) c

pub one_of :
    {a : Action} (d : Db) (b : Bool) (x y : Db)
    → MovesDb a d x
    → MovesDb a d y
    → MovesDb a d (if b then x else y)
one_of d true x y h k = h
one_of d false x y h k = k

pub update_controls-Moves :
    {a : Action} (q : AgentSessionControlRecord → Bool)
    (f : AgentSessionControlRecord → AgentSessionControlRecord) (db : Db)
    → KeepsKey f
    → ((c : AgentSessionControlRecord) → q c ≡ true → Step a (some c.state) (some (f c).state))
    → Moves a db.controls (update_controls q f db).1.controls
unfolding update_controls
update_controls-Moves q f db k st = Moves-update q f db.controls k st

pub delete_controls-Moves :
    {a : Action} (q : AgentSessionControlRecord → Bool) (db : Db)
    → ((c : AgentSessionControlRecord) → q c ≡ true → Step a (some c.state) none)
    → Moves a db.controls (delete_controls q db).1.controls
unfolding delete_controls
delete_controls-Moves q db st = Moves-delete q db.controls st

pub kept :
    {a : Action} (b : Bool) (f g : SqlResult Bool × Db) (d : Db)
    → Moves a d.controls f.1.controls
    → Moves a d.controls g.1.controls
    → Moves a d.controls (if b then f else g).1.controls
kept true f g d x y = x
kept false f g d x y = y

pub insert_control-Moves :
    {a : Action} (c : AgentSessionControlRecord) (db : Db)
    → Step a none (some c.state)
    → Moves a db.controls (insert_control c db).1.controls
unfolding insert_control
insert_control-Moves c db st =
    elim (Bool-cases (any (in_session c.project_id c.codex_session_id) db.controls)) [
      | inl h ↦ rw h (Moves-same db.controls)
      | inr h ↦ rw h (
          kept (project_exists c.project_id db)
            (ok true, record db { controls = db.controls ++ c ∷ [] }) (err foreign_key_failed, db)
            db (Moves-insert c db.controls h st) (Moves-same db.controls))
    ]
