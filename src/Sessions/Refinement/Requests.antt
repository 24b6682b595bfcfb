-- ===== src/Sessions/Refinement/Requests.antt =====
-- The requests on a session take steps of the relation: src/agent/repositories/sessions_runs.rs.
use clt_rs.Prelude.{ℕ, ◌≡◌, refl, inl, inr, true, Option, some, arith, Bool-cases, Text}
use clt_rs.Sessions.{
  AgentSessionControlState, running, stop_requested, stopped, interrupt_requested,
  ready_interactive, interactive, AgentSessionControlRecord,
}
use clt_rs.Store.{Db}
use clt_rs.Sessions.Statements.{in_control, in_session, session_in}
use clt_rs.Sessions.Requests.{
  is_run, request_session_interrupt, is_handed_over, take_back, cancel_session_interrupt_handoff,
  request_session_stop, is_guarded, request_interactive_session_stop, is_stopped_after,
  request_stopped_session_resume, begin_stopped_session_interactive,
  transition_session_control_state, recover_stale_automated_session_control,
  recover_stale_interactive_session_control, complete_session_stop,
}
use clt_rs.Sessions.Steps.{
  interrupting, cancelling, stopping, stopping_interactive, resuming, opening, finishing, changing,
  change, go_on, Step, resume, open_stopped, ask_stop, ask_interrupt, finish_stop, give_up,
  ask_stop_interactive, KeepsKey, from_state,
}
use clt_rs.Sessions.Refinement.{MovesDb, update_controls-Moves}

module _ (p : ℕ) (s : Text) (db : Db) where
  pub request_session_interrupt-Moves :
      (pid : ℕ) (t h now : Text)
      → MovesDb interrupting db (request_session_interrupt p s pid t h now db).1
  unfolding request_session_interrupt KeepsKey in_session session_in is_run
  request_session_interrupt-Moves pid t h now =
      update_controls-Moves _ _ db (λ q u c. refl)
        (λ c e. from_state running c.state ask_interrupt (ground arith))

  pub request_session_stop-Moves :
      (pid : ℕ) (t now : Text) → MovesDb stopping db (request_session_stop p s pid t now db).1
  unfolding request_session_stop KeepsKey in_session session_in is_run
  request_session_stop-Moves pid t now =
      update_controls-Moves _ _ db (λ q u c. refl)
        (λ c e. from_state running c.state ask_stop (ground arith))

  pub request_interactive_session_stop-Moves :
      (pid : ℕ) (h now : Text)
      → MovesDb stopping_interactive db (request_interactive_session_stop p s pid h now db).1
  unfolding request_interactive_session_stop KeepsKey in_session session_in is_guarded
  request_interactive_session_stop-Moves pid h now =
      update_controls-Moves _ _ db (λ q u c. refl)
        (λ c e. from_state interactive c.state ask_stop_interactive (ground arith))

  pub request_stopped_session_resume-Moves :
      (t : Option Text) (now : Text)
      → MovesDb resuming db (request_stopped_session_resume p s t now db).1
  unfolding request_stopped_session_resume KeepsKey in_session session_in is_stopped_after
  request_stopped_session_resume-Moves t now =
      update_controls-Moves _ _ db (λ q u c. refl)
        (λ c e. from_state stopped c.state resume (ground arith))

  pub begin_stopped_session_interactive-Moves :
      (h : Text) (t : Option Text) (now : Text)
      → MovesDb opening db (begin_stopped_session_interactive p s h t now db).1
  unfolding begin_stopped_session_interactive KeepsKey in_session session_in is_stopped_after
  begin_stopped_session_interactive-Moves h t now =
      update_controls-Moves _ _ db (λ q u c. refl)
        (λ c e. from_state stopped c.state open_stopped (ground arith))

  pub complete_session_stop-Moves :
      (t now : Text) → MovesDb finishing db (complete_session_stop p s t now db).1
  unfolding complete_session_stop KeepsKey in_session session_in
  complete_session_stop-Moves t now =
      update_controls-Moves _ _ db (λ q u c. refl)
        (λ c e. from_state stop_requested c.state finish_stop (ground arith))

  pub transition_session_control_state-Moves :
      (from to : AgentSessionControlState) (now : Text)
      → MovesDb (changing from to) db (transition_session_control_state p s from to now db).1
  unfolding transition_session_control_state KeepsKey in_session session_in
  transition_session_control_state-Moves from to now =
      update_controls-Moves _ _ db (λ q u c. refl)
        (λ c e. from_state from c.state (change from to) (ground arith))

  pub recover_stale_automated_session_control-Moves :
      (from to : AgentSessionControlState) (pid : ℕ) (t : Option Text) (now : Text)
      → MovesDb
          (changing from to)
          db
          (recover_stale_automated_session_control p s from to pid t now db).1
  unfolding recover_stale_automated_session_control KeepsKey in_session session_in
  recover_stale_automated_session_control-Moves from to pid t now =
      update_controls-Moves _ _ db (λ q u c. refl)
        (λ c e. from_state from c.state (change from to) (ground arith))

  pub recover_stale_interactive_session_control-Moves :
      (from to : AgentSessionControlState) (h : Option Text) (now : Text)
      → MovesDb
          (changing from to)
          db
          (recover_stale_interactive_session_control p s from to h now db).1
  unfolding recover_stale_interactive_session_control KeepsKey in_session session_in
  recover_stale_interactive_session_control-Moves from to h now =
      update_controls-Moves _ _ db (λ q u c. refl)
        (λ c e. from_state from c.state (change from to) (ground arith))

  take_back-step :
      (h now : Text) (c : AgentSessionControlRecord)
      → is_handed_over p s h c ≡ true
      → Step cancelling (some c.state) (some (take_back now c).state)
  unfolding is_handed_over take_back
  take_back-step h now c e = elim (Bool-cases (in_control interrupt_requested c.state)) [
    | inl k ↦ rw k (from_state interrupt_requested c.state go_on k)
    | inr k ↦ rw k (from_state ready_interactive c.state give_up (ground arith))
  ]

  take_back-KeepsKey : (now : Text) → KeepsKey (take_back now)
  unfolding KeepsKey in_session take_back
  take_back-KeepsKey now q u c = elim (Bool-cases (in_control interrupt_requested c.state)) [
    | inl k ↦ rw k refl
    | inr k ↦ rw k refl
  ]

  pub cancel_session_interrupt_handoff-Moves :
      (h now : Text) → MovesDb cancelling db (cancel_session_interrupt_handoff p s h now db).1
  unfolding cancel_session_interrupt_handoff
  cancel_session_interrupt_handoff-Moves h now =
      update_controls-Moves (is_handed_over p s h) (take_back now) db (take_back-KeepsKey now)
        (take_back-step h now)
