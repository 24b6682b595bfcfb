-- ===== src/Sessions/Refinement/Planning.antt =====
-- Planning and the reservation of idle sessions take steps of the relation:
-- src/agent/repositories/sessions_runs.rs.
use clt_rs.Prelude.{
  ℕ, ◌≡◌, refl, inl, inr, Bool, true, ◌||◌, Option, some, arith, Bool-cases, Text, codes,
  starts_with,
}
use clt_rs.Sessions.{
  AgentSessionControlState, stopped, ready_interactive, resume_requested, AgentSessionControlRecord,
}
use clt_rs.Store.{Db}
use clt_rs.Sessions.Statements.{
  in_control, in_session, session_in, new_control, released_to, reserved_for,
}
use clt_rs.Sessions.Planning.{
  register_planning_session, register_shared_planning_session, is_idle, opened,
  reserve_idle_session_interactive_for_state, is_shareable, reserve_shared_session_interactive,
  is_reserved_by, cancel_idle_session_interactive, is_stopped_shared_interactive_holder, may_plan,
  has_unstopped, is_shared_project, restores_stopped,
}
use clt_rs.Sessions.Steps.{
  planning, opening, releasing, Step, plan, open_new, open_stopped, open_waiting, restore, forget,
  Moves-same, KeepsKey, from_state,
}
use clt_rs.Sessions.Refinement.{
  MovesDb, update_controls-Moves, delete_controls-Moves, insert_control-Moves,
}

module _ (p : ℕ) (s : Text) (db : Db) where
  pub register_shared_planning_session-Moves :
      (now : Text) → MovesDb planning db (register_shared_planning_session p s now db).1
  unfolding register_shared_planning_session
  register_shared_planning_session-Moves now =
      insert_control-Moves (new_control p s stopped now) db plan

  pub register_planning_session-Moves :
      (h now : Text) → MovesDb planning db (register_planning_session p s h now db).1
  unfolding register_planning_session
  register_planning_session-Moves h now = elim (Bool-cases (may_plan p h now db)) [
    | inl e ↦ rw e (insert_control-Moves (new_control p s stopped now) db plan)
    | inr e ↦ rw e (Moves-same db.controls)
  ]

  either_idle :
      (c : AgentSessionControlRecord)
      → (in_control stopped c.state || in_control resume_requested c.state) ≡ true
      → Step opening (some c.state) (some ready_interactive)
  either_idle c h = elim (Bool-cases (in_control stopped c.state)) [
    | inl k ↦ from_state stopped c.state open_stopped k
    | inr k ↦ from_state resume_requested c.state open_waiting (ground (arith, k))
  ]

  pub reserve_idle_session_interactive_for_state-Moves :
      (h : Text) (t : Option Text) (x : Option AgentSessionControlState) (now : Text)
      → MovesDb opening db (reserve_idle_session_interactive_for_state p s h t x now db).1
  unfolding reserve_idle_session_interactive_for_state KeepsKey in_session
  reserve_idle_session_interactive_for_state-Moves h t x now =
      elim (Bool-cases (starts_with h (codes "clt-stopped-interactive-"))) [
        | inl e ↦ rw e (
            update_controls-Moves (is_idle p s h t x now db) (reserved_for h now) db (λ q u c. refl)
              (λ c k. either_idle c (unfold is_idle in ground arith)))
        | inr e ↦ rw e (elim (Bool-cases (has_unstopped p db)) [
          | inl k ↦ rw k (Moves-same db.controls)
          | inr k ↦ rw k (insert_control-Moves (opened p s h now) db open_new)
        ])
      ]

  pub reserve_shared_session_interactive-Moves :
      (h : Text) (t : Option Text) (m : Bool) (now : Text)
      → MovesDb opening db (reserve_shared_session_interactive p s h t m now db).1
  unfolding reserve_shared_session_interactive KeepsKey in_session
  reserve_shared_session_interactive-Moves h t m now =
      elim (Bool-cases (is_stopped_shared_interactive_holder h)) [
        | inl e ↦ rw e (
            update_controls-Moves (is_shareable p s t m db) (reserved_for h now) db (λ q u c. refl)
              (λ c k. either_idle c (unfold is_shareable in ground arith)))
        | inr e ↦ rw e (elim (Bool-cases (is_shared_project p s m db)) [
          | inl k ↦ rw k (insert_control-Moves (opened p s h now) db open_new)
          | inr k ↦ rw k (Moves-same db.controls)
        ])
      ]

  pub cancel_idle_session_interactive-Moves :
      (h now : Text) → MovesDb releasing db (cancel_idle_session_interactive p s h now db).1
  unfolding cancel_idle_session_interactive KeepsKey in_session
  cancel_idle_session_interactive-Moves h now = elim (Bool-cases (restores_stopped h)) [
    | inl e ↦ rw e (
        update_controls-Moves (is_reserved_by p s h) (released_to stopped now) db (λ q u c. refl)
          (λ c k.
            from_state ready_interactive c.state restore
              (unfold is_reserved_by session_in in ground arith)))
    | inr e ↦ rw e (
        delete_controls-Moves (is_reserved_by p s h) db (λ c k.
          from_state ready_interactive c.state forget
            (unfold is_reserved_by session_in in ground arith)))
  ]
