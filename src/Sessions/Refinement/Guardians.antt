-- ===== src/Sessions/Refinement/Guardians.antt =====
-- Interactive guardians take steps of the relation: src/agent/repositories/sessions_runs.rs.
use clt_rs.Prelude.{
  ℕ, ◌≡◌, refl, inl, inr, true, false, ◌||◌, Option, none, some, arith, ltb, ◌==◌, Bool-cases, Text,
}
use clt_rs.Sql.{invalid_guardian_holder, count}
use clt_rs.Sql.Transactions.{Commits, Commits-commit, Commits-roll_back, Commits-fail, Commits-if}
use clt_rs.Sessions.{
  stop_requested, stopped, ready_interactive, interactive, AgentSessionControlRecord,
}
use clt_rs.Store.{Db}
use clt_rs.Leases.{held_by}
use clt_rs.Scheduler.Reclaim.{
  InteractiveGuardianDisposition, resume_exec, preserve_idle_session, restore_stopped,
  preserve_shared_session, restore_stopped_shared, from_guardian_holder, holds_project_lease,
}
use clt_rs.Sessions.Statements.{in_control, in_session, session_in, hand_lease, delete_lease}
use clt_rs.Sessions.Planning.{is_reserved_by}
use clt_rs.Sessions.Guardians.{
  guard, adopt_session, adopt_as, adopt_interactive_guardian, is_childless, is_unexpired,
  register_child, extend_guarded_lease, register_child_as, register_interactive_guardian_child,
  state_after_use, leave, is_in_use, release_guardian, finish_interactive_guardian, is_stale_use,
  recover_stale_interactive_guardian,
}
use clt_rs.Sessions.Steps.{
  watching, adopting, closing, close_stopped, Step, stays, adopt, hand_back, close, Moves-same,
  Moves-update, KeepsKey, from_state,
}
use clt_rs.Sessions.Refinement.{MovesDb, transact-Moves, one_of}

guard-KeepsKey : (h now : Text) → KeepsKey (guard h now)
unfolding KeepsKey in_session guard
guard-KeepsKey h now p s c = refl

guard-step :
    (p : ℕ) (s from h now : Text) (c : AgentSessionControlRecord)
    → is_reserved_by p s from c ≡ true
    → Step adopting (some c.state) (some (guard h now c).state)
unfolding is_reserved_by guard session_in
guard-step p s from h now c e = from_state ready_interactive c.state adopt (ground arith)

adopt_session-Moves :
    (p : ℕ) (s : Option Text) (from h now : Text) (db : Db)
    → Commits (MovesDb adopting db) (adopt_session p s from h now db)
unfolding adopt_session
adopt_session-Moves p none from h now db = Commits-commit db true (Moves-same db.controls)
adopt_session-Moves p (some s) from h now db =
    Commits-if (ltb 0 (count (is_reserved_by p s from) db.controls)) _ _
      (λ m. Commits-commit _ true (
        Moves-update (is_reserved_by p s from) (guard h now) db.controls (guard-KeepsKey h now)
          (guard-step p s from h now)))
      (λ m. Commits-roll_back false)

adopt_as-Moves :
    (g : Option InteractiveGuardianDisposition) (p : ℕ) (s : Option Text) (from h at exp now : Text)
    (db : Db)
    → Commits (MovesDb adopting db) (adopt_as g p s from h at exp now db)
unfolding hand_lease
adopt_as-Moves none p s from h at exp now db = Commits-fail invalid_guardian_holder
adopt_as-Moves (some g) p s from h at exp now db =
    Commits-if (holds_project_lease g) _ _
      (λ m.
        Commits-if (ltb 0 (count (held_by p from) db.leases)) _ _
          (λ n. adopt_session-Moves p s from h now (hand_lease p from h at exp db))
          (λ n. Commits-roll_back false))
      (λ m. adopt_session-Moves p s from h now db)

pub adopt_interactive_guardian-Moves :
    (p : ℕ) (s : Option Text) (from h at exp now : Text) (db : Db)
    → MovesDb adopting db (adopt_interactive_guardian p s from h at exp now db).1
unfolding adopt_interactive_guardian
adopt_interactive_guardian-Moves p s from h at exp now db =
    transact-Moves db _ (adopt_as-Moves (from_guardian_holder h) p s from h at exp now db)

register_child-Moves :
    (p : ℕ) (s h : Text) (pid : ℕ) (now : Text) (db : Db)
    → Commits (MovesDb watching db) (register_child p s h pid now db)
unfolding register_child KeepsKey in_session
register_child-Moves p s h pid now db =
    Commits-if (count (is_childless p s h) db.controls == 1) _ _
      (λ m. Commits-commit _ true (
        Moves-update (is_childless p s h) _ db.controls (λ q u c. refl)
          (λ c e. stays (some c.state))))
      (λ m. Commits-roll_back false)

register_child_as-Moves :
    (g : Option InteractiveGuardianDisposition) (p : ℕ) (s h : Text) (pid : ℕ) (now exp : Text)
    (db : Db)
    → Commits (MovesDb watching db) (register_child_as g p s h pid now exp db)
unfolding extend_guarded_lease
register_child_as-Moves none p s h pid now exp db = Commits-fail invalid_guardian_holder
register_child_as-Moves (some g) p s h pid now exp db =
    Commits-if (holds_project_lease g) _ _
      (λ m.
        Commits-if (count (is_unexpired p h now) db.leases == 1) _ _
          (λ n. register_child-Moves p s h pid now (extend_guarded_lease p h now exp db))
          (λ n. Commits-roll_back false))
      (λ m. register_child-Moves p s h pid now db)

pub register_interactive_guardian_child-Moves :
    (p : ℕ) (s h : Text) (pid : ℕ) (now exp : Text) (db : Db)
    → MovesDb watching db (register_interactive_guardian_child p s h pid now exp db).1
unfolding register_interactive_guardian_child
register_interactive_guardian_child-Moves p s h pid now exp db =
    transact-Moves db _ (register_child_as-Moves (from_guardian_holder h) p s h pid now exp db)

leave-KeepsKey : (g : InteractiveGuardianDisposition) (now : Text) → KeepsKey (leave g now)
unfolding KeepsKey in_session leave
leave-KeepsKey g now p s c = refl

closes :
    (c : AgentSessionControlRecord)
    → (in_control interactive c.state || in_control stop_requested c.state) ≡ true
    → Step closing (some c.state) (some stopped)
closes c h = elim (Bool-cases (in_control interactive c.state)) [
  | inl k ↦ from_state interactive c.state close k
  | inr k ↦ from_state stop_requested c.state close_stopped (ground (arith, k))
]

in_use-states :
    (p : ℕ) (s h : Text) (c : AgentSessionControlRecord)
    → is_in_use p s h c ≡ true
    → (in_control interactive c.state || in_control stop_requested c.state) ≡ true
unfolding is_in_use
in_use-states p s h c e = ground arith

leave-step :
    (g : InteractiveGuardianDisposition) (p : ℕ) (s h now : Text) (c : AgentSessionControlRecord)
    → is_in_use p s h c ≡ true
    → Step closing (some c.state) (some (leave g now c).state)
unfolding leave state_after_use
leave-step resume_exec p s h now c e = elim (Bool-cases (in_control stop_requested c.state)) [
  | inl k ↦ rw k (from_state stop_requested c.state close_stopped k)
  | inr k ↦
      rw k (from_state interactive c.state hand_back (ground (arith, in_use-states p s h c e)))
]
leave-step preserve_idle_session p s h now c e = closes c (in_use-states p s h c e)
leave-step restore_stopped p s h now c e = closes c (in_use-states p s h c e)
leave-step preserve_shared_session p s h now c e = closes c (in_use-states p s h c e)
leave-step restore_stopped_shared p s h now c e = closes c (in_use-states p s h c e)

release_guardian-controls :
    (g : InteractiveGuardianDisposition) (p : ℕ) (h : Text) (d db : Db)
    → MovesDb closing d db
    → MovesDb closing d (release_guardian g p h db)
unfolding release_guardian delete_lease
release_guardian-controls g p h d db m = one_of d (holds_project_lease g) _ db m m

pub finish_interactive_guardian-Moves :
    (p : ℕ) (s h : Text) (g : InteractiveGuardianDisposition) (now : Text) (db : Db)
    → MovesDb closing db (finish_interactive_guardian p s h g now db).1
unfolding finish_interactive_guardian
finish_interactive_guardian-Moves p s h g now db = transact-Moves db _ (
    Commits-if (ltb 0 (count (is_in_use p s h) db.controls)) _ _
      (λ m. Commits-commit _ true (
        release_guardian-controls g p h db _ (
          Moves-update (is_in_use p s h) (leave g now) db.controls (leave-KeepsKey g now)
            (leave-step g p s h now))))
      (λ m. Commits-roll_back false))

stale_use-in_use :
    (p : ℕ) (s h : Text) (pid : Option ℕ) (c : AgentSessionControlRecord)
    → is_stale_use p s h pid c ≡ true
    → is_in_use p s h c ≡ true
unfolding is_stale_use
stale_use-in_use p s h pid c e = ground arith

pub recover_stale_interactive_guardian-Moves :
    (p : ℕ) (s h : Text) (pid : Option ℕ) (g : InteractiveGuardianDisposition) (now : Text)
    (db : Db)
    → MovesDb closing db (recover_stale_interactive_guardian p s h pid g now db).1
unfolding recover_stale_interactive_guardian
recover_stale_interactive_guardian-Moves p s h pid g now db = transact-Moves db _ (
    Commits-if (count (is_stale_use p s h pid) db.controls == 1) _ _
      (λ m. Commits-commit _ true (
        release_guardian-controls g p h db _ (
          Moves-update (is_stale_use p s h pid) (leave g now) db.controls (leave-KeepsKey g now)
            (λ c e. leave-step g p s h now c (stale_use-in_use p s h pid c e)))))
      (λ m. Commits-roll_back false))
