-- ===== src/Sessions/Refinement/Handoffs.antt =====
-- The end of an automated process and the handover of its lease take steps of the relation:
-- src/agent/repositories/sessions_runs.rs.
use clt_rs.Prelude.{
  ℕ, ◌≡◌, refl, sym, inl, inr, Bool, true, false, ◌&&◌, not, Option, none, some, arith, ltb, ◌==◌,
  Bool-cases, is_some, Text,
}
use clt_rs.Sql.{SqlResult, ok, err, changed_during_handoff, any, count, find, update}
use clt_rs.Sql.Transactions.{Commits, Commits-commit, Commits-roll_back, Commits-fail, Commits-if}
use clt_rs.Sessions.{
  AgentSessionControlState, running, stop_requested, stopped, interrupt_requested,
  ready_interactive, interactive, resume_requested, AgentSessionControlRecord,
}
use clt_rs.Store.{Db, Lease, project_exists}
use clt_rs.Leases.{insert_lease, new_lease, of_project, held_by}
use clt_rs.Sessions.Statements.{in_control, in_session, session_in, hand_lease, delete_lease}
use clt_rs.Sessions.Handoffs.{
  release_after_exit, exit_row, exit_transaction, claim_orphaned, claim_process, may_claim,
  is_unclaimable, claim_orphaned_session_supervision, AutomatedSessionFinalization, is_generation,
  terminal_state, is_exiting, exit_to, finish_exit, is_first_holder, hand_over, finish_found,
  finish_claimed, finish_terminal, finalize_automated_session_after_exit, is_interrupted,
  make_ready, complete_handoff, handoff_to, complete_session_interrupt_handoff,
}
use mathlib.Core.Path.{subst}
use clt_rs.Sessions.Steps.{
  Action, watching, ending, handing, exit_stopped, exit_interrupted, in_control-eq, Step, exit,
  Moves, Moves-same, Moves-update, KeepsKey, from_state,
}
use clt_rs.Sessions.Refinement.{MovesDb, transact-Moves, one_of}

insert_lease-controls : (l : Lease) (db : Db) → (insert_lease l db).1.controls ≡ db.controls
unfolding insert_lease
insert_lease-controls l db = elim (Bool-cases (any (of_project l.project_id) db.leases)) [
  | inl h ↦ rw h refl
  | inr h ↦
      rw h (elim (Bool-cases (project_exists l.project_id db)) [
        | inl k ↦ rw k refl
        | inr k ↦ rw k refl
      ])
]

pub same_controls : {a : Action} (d e : Db) → e.controls ≡ d.controls → MovesDb a d e
same_controls {a = a} d e h = subst (λ cs. Moves a d.controls cs) (sym h) (Moves-same d.controls)

claim_orphaned-Moves :
    (p : ℕ) (s : Text) (pid : ℕ) (t h now exp : Text) (db : Db)
    → MovesDb watching db (claim_orphaned p s pid t h now exp db).1
unfolding claim_orphaned
claim_orphaned-Moves p s pid t h now exp db = elim (Bool-cases (may_claim p s pid t db)) [
  | inl k ↦ rw k (
      same_controls db (insert_lease (new_lease p h now exp) db).1
        (insert_lease-controls (new_lease p h now exp) db))
  | inr k ↦ rw k (Moves-same db.controls)
]

claim_process-Moves :
    (pid : Option ℕ) (t : Option Text) (x : AgentSessionControlRecord) (h now exp : Text) (db : Db)
    → MovesDb watching db (claim_process pid t x h now exp db).1
claim_process-Moves none t x h now exp db = Moves-same db.controls
claim_process-Moves (some pid) none x h now exp db = Moves-same db.controls
claim_process-Moves (some pid) (some t) x h now exp db =
    elim (Bool-cases (is_unclaimable pid t h x)) [
      | inl k ↦ rw k (Moves-same db.controls)
      | inr k ↦ rw k (claim_orphaned-Moves x.project_id x.codex_session_id pid t h now exp db)
    ]

pub claim_orphaned_session_supervision-Moves :
    (x : AgentSessionControlRecord) (h now exp : Text) (db : Db)
    → MovesDb watching db (claim_orphaned_session_supervision x h now exp db).1
unfolding claim_orphaned_session_supervision
claim_orphaned_session_supervision-Moves x h now exp db =
    claim_process-Moves x.child_pid x.run_token x h now exp db

exit_to-KeepsKey : (to : AgentSessionControlState) (now : Text) → KeepsKey (exit_to to now)
unfolding KeepsKey in_session exit_to
exit_to-KeepsKey to now p s c = refl

exit_to-step :
    (r : AutomatedSessionFinalization) (x : AgentSessionControlRecord)
    (to : AgentSessionControlState) (c : AgentSessionControlRecord)
    → Step ending (some x.state) (some to)
    → is_exiting r x c ≡ true
    → Step ending (some c.state) (some (exit_to to r.updated_at c).state)
unfolding exit_to is_exiting session_in
exit_to-step r x to c st h = from_state x.state c.state st (ground arith)

finish_exit-Moves :
    (r : AutomatedSessionFinalization) (x : AgentSessionControlRecord)
    (to : AgentSessionControlState) (d db : Db)
    → db.controls ≡ d.controls
    → Step ending (some x.state) (some to)
    → Commits (MovesDb ending d) (finish_exit r x to db)
unfolding finish_exit release_after_exit exit_row delete_lease
finish_exit-Moves r x to d db e st =
    let m =
      subst (λ cs. Moves ending cs (update (is_exiting r x) (exit_to to r.updated_at) db.controls))
        e
        (Moves-update (is_exiting r x) (exit_to to r.updated_at) db.controls
          (exit_to-KeepsKey to r.updated_at) (λ c h. exit_to-step r x to c st h)) in
    Commits-if (count (is_exiting r x) db.controls == 1) _ _
      (λ k. Commits-commit _ true (one_of d (in_control ready_interactive to) _ _ m m))
      (λ k. Commits-roll_back false)

finish_claimed-Moves :
    (r : AutomatedSessionFinalization) (x : AgentSessionControlRecord) (h : Text) (d : Db)
    (a : SqlResult Bool × Db)
    → a.1.controls ≡ d.controls
    → Step ending (some x.state) (some ready_interactive)
    → Commits (MovesDb ending d) (finish_claimed r x h a)
finish_claimed-Moves r x h d (err e, db) k st = Commits-fail e
finish_claimed-Moves r x h d (ok true, db) k st = finish_exit-Moves r x ready_interactive d db k st
finish_claimed-Moves r x h d (ok false, db) k st =
    Commits-if (is_first_holder r.project_id h db) _ _
      (λ m. finish_exit-Moves r x ready_interactive d db k st) (λ m. Commits-roll_back false)

hand_over-Moves :
    (r : AutomatedSessionFinalization) (x : AgentSessionControlRecord) (o : Option Text) (db : Db)
    → Step ending (some x.state) (some ready_interactive)
    → Commits (MovesDb ending db) (hand_over r x o db)
unfolding hand_over hand_lease
hand_over-Moves r x none db st = Commits-roll_back false
hand_over-Moves r x (some h) db st =
    Commits-if (ltb 0 (count (held_by r.project_id r.lease_holder) db.leases)) _ _
      (λ m. finish_exit-Moves r x ready_interactive db _ refl st)
      (λ m. finish_claimed-Moves r x h db _ (insert_lease-controls _ db) st)

finish_terminal-Moves :
    (r : AutomatedSessionFinalization) (x : AgentSessionControlRecord)
    (o : Option AgentSessionControlState) (db : Db)
    → ((to : AgentSessionControlState) → o ≡ some to → Step ending (some x.state) (some to))
    → Commits (MovesDb ending db) (finish_terminal r x o db)
finish_terminal-Moves r x none db st = Commits-roll_back false
finish_terminal-Moves r x (some to) db st =
    Commits-if (in_control ready_interactive to) _ _
      (λ m. hand_over-Moves r x x.interactive_holder db (
        subst (λ z. Step ending (some x.state) (some z))
          (sym (in_control-eq ready_interactive to m)) (st to refl)))
      (λ m. finish_exit-Moves r x to db db refl (st to refl))

step_to :
    {from : AgentSessionControlState} {a b : AgentSessionControlState}
    → Step ending (some from) (some a)
    → some a ≡ some b
    → Step ending (some from) (some b)
step_to {from} {a} {b} st e = subst (λ o. Step ending (some from) o) e st

terminal_state-step :
    (s to : AgentSessionControlState) → terminal_state s ≡ some to → Step ending (some s) (some to)
unfolding terminal_state
terminal_state-step running to e = step_to exit e
terminal_state-step stop_requested to e = step_to exit_stopped e
terminal_state-step interrupt_requested to e = step_to exit_interrupted e
terminal_state-step stopped to e = absurd cc
terminal_state-step ready_interactive to e = absurd cc
terminal_state-step interactive to e = absurd cc
terminal_state-step resume_requested to e = absurd cc

finish_found-Moves :
    (r : AutomatedSessionFinalization) (o : Option AgentSessionControlRecord) (db : Db)
    → Commits (MovesDb ending db) (finish_found r o db)
finish_found-Moves r none db = Commits-roll_back false
finish_found-Moves r (some x) db =
    finish_terminal-Moves r x (terminal_state x.state) db (terminal_state-step x.state)

pub finalize_automated_session_after_exit-Moves :
    (r : AutomatedSessionFinalization) (db : Db)
    → MovesDb ending db (finalize_automated_session_after_exit r db).1
unfolding finalize_automated_session_after_exit exit_transaction
finalize_automated_session_after_exit-Moves r db = transact-Moves db _ (
    Commits-if
      (is_some r.reattached_session_id
        && not (count (held_by r.project_id r.lease_holder) db.leases == 1))
      _ _ (λ m. Commits-roll_back false)
      (λ m. finish_found-Moves r (find (is_generation r) db.controls) db))

make_ready-KeepsKey : (now : Text) → KeepsKey (make_ready now)
unfolding KeepsKey in_session make_ready
make_ready-KeepsKey now p s c = refl

make_ready-step :
    (p : ℕ) (s t now : Text) (c : AgentSessionControlRecord)
    → is_interrupted p s t c ≡ true
    → Step handing (some c.state) (some (make_ready now c).state)
unfolding is_interrupted make_ready session_in
make_ready-step p s t now c h = from_state interrupt_requested c.state Step.hand_over (ground arith)

handoff_to-Moves :
    (p : ℕ) (s t from : Text) (o : Option Text) (at exp now : Text) (db : Db)
    → Commits (MovesDb handing db) (handoff_to p s t from o at exp now db)
unfolding complete_handoff
handoff_to-Moves p s t from none at exp now db = Commits-roll_back none
handoff_to-Moves p s t from (some h) at exp now db =
    Commits-if (ltb 0 (count (held_by p from) db.leases)) _ _
      (λ m.
        Commits-if (ltb 0 (count (is_interrupted p s t) db.controls)) _ _
          (λ n. Commits-commit _ (some h) (
            Moves-update (is_interrupted p s t) (make_ready now) db.controls
              (make_ready-KeepsKey now) (make_ready-step p s t now)))
          (λ n. Commits-fail changed_during_handoff))
      (λ m. Commits-roll_back none)

pub complete_session_interrupt_handoff-Moves :
    (p : ℕ) (s t from at exp now : Text) (db : Db)
    → MovesDb handing db (complete_session_interrupt_handoff p s t from at exp now db).1
unfolding complete_session_interrupt_handoff
complete_session_interrupt_handoff-Moves p s t from at exp now db =
    transact-Moves db _ (handoff_to-Moves p s t from _ at exp now db)
