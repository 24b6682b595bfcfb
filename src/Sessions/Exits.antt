-- ===== src/Sessions/Exits.antt =====
-- Whose the project's lease is once an automated process has exited:
-- `finalize_automated_session_after_exit` of src/agent/repositories/sessions_runs.rs.
use clt_rs.Prelude.{
  ℕ, ◌≡◌, refl, ap, ◌∙◌, ◌≢◌, inl, inr, Bool, true, false, ◌&&◌, ◌||◌, not, Option, none, some,
  List, [], ◌∷◌, arith, if◌then◌else◌, ltb, ◌==◌, ==_refl, Bool-cases, Option-cases, is_some, Text,
  text_eq, text_eq_refl,
}
use clt_rs.Sql.{
  SqlResult, ok, err, Transaction, commit, roll_back, any, count, find, delete, update,
}
use clt_rs.Sql.Laws.{any-append, count_pos, any-update_made, find_holds, any_of_find}
use clt_rs.Sql.Transactions.{
  Settles, Settles-commit, Settles-roll_back, Settles-fail, Settles-if, Settles-good,
  Settles-refused, IsTrue, not_IsTrue,
}
use clt_rs.Sessions.{
  control_database_value, AgentSessionControlState, running, stop_requested, stopped,
  interrupt_requested, ready_interactive, interactive, resume_requested, AgentSessionControlRecord,
}
use clt_rs.Store.{Db, Lease, project_exists}
use clt_rs.Leases.{insert_lease, new_lease, of_project, held_by}
use clt_rs.Sessions.Statements.{in_control, hand_lease, delete_lease}
use clt_rs.Sessions.Handoffs.{
  AutomatedSessionFinalization, is_generation, terminal_state, is_exiting, finish_exit,
  release_after_exit, exit_row, exit_transaction, is_first_holder, hand_over, finish_found,
  finish_claimed, finish_terminal, finalize_automated_session_after_exit,
}

abbrev held_after : ℕ → Option Text → List Lease → Bool
held_after p none leases = false
held_after p (some h) leases = any (held_by p h) leases

-- The lease after the exit of the process of `found`: the interactive holder's when the session is
-- handed over, and otherwise not the finished holder's.
unfoldable pub lease_settled : AutomatedSessionFinalization → AgentSessionControlRecord → Db → Bool
lease_settled r found db =
    if in_control interrupt_requested found.state
    then held_after r.project_id found.interactive_holder db.leases
    else not (any (held_by r.project_id r.lease_holder) db.leases)

-- The process that the answer is about, and its project's lease.
unfoldable pub IsSettled : AutomatedSessionFinalization → Db → Db → Type 0
IsSettled r before after =
    (found : AgentSessionControlRecord) × (find (is_generation r) before.controls ≡ some found)
    × (lease_settled r found after ≡ true)

any_deleted : (p : Lease → Bool) (ls : List Lease) → any p (delete p ls) ≡ false
unfolding any delete
any_deleted p [] = refl
any_deleted p (l ∷ ls) = ground (arith, any_deleted p ls)

transferred :
    (p : ℕ) (from h at exp : Text) (ls : List Lease)
    → any (held_by p from) ls ≡ true
    → any (held_by p h) (
        update
          (held_by p from)
          (λ l. record l { holder = h; acquired_at = at; expires_at = exp })
          ls)
      ≡ true
transferred p from h at exp ls e =
    any-update_made (held_by p h) (held_by p from) _ ls
      (λ l k. unfold held_by in ground (arith, text_eq_refl h)) e

always_ready : in_control ready_interactive ready_interactive ≡ true
unfolding in_control text_eq control_database_value
always_ready = refl

interrupted : in_control interrupt_requested interrupt_requested ≡ true
unfolding in_control text_eq control_database_value
interrupted = refl

not_interrupted :
    (in_control interrupt_requested running ≡ false)
    × (in_control interrupt_requested stop_requested ≡ false)
unfolding in_control text_eq control_database_value
not_interrupted = (refl, refl)

not_ready :
    (in_control ready_interactive resume_requested ≡ false)
    × (in_control ready_interactive stopped ≡ false)
unfolding in_control text_eq control_database_value
not_ready = (refl, refl)

find_project :
    (p : ℕ) (ls : List Lease) (l : Lease)
    → find (of_project p) ls ≡ some l
    → (l.project_id == p) ≡ true
unfolding of_project
find_project p ls l k = find_holds (of_project p) ls k

last_held :
    (p : ℕ) (h at exp : Text) (ls : List Lease)
    → (any (held_by p h) ls || any (held_by p h) (new_lease p h at exp ∷ [])) ≡ true
unfolding any held_by
last_held p h at exp ls = ground (arith, ==_refl p, text_eq_refl h)

first_holder :
    (p : ℕ) (h : Text) (db : Db)
    → is_first_holder p h db ≡ true
    → any (held_by p h) db.leases ≡ true
unfolding is_first_holder
first_holder p h db e = elim (Option-cases (find (of_project p) db.leases)) [
  | inl k ↦ absurd (ground (arith, k))
  | inr (l, k) ↦
      any_of_find (held_by p h) (of_project p) db.leases k
        (unfold held_by in ground (arith, k, find_project p db.leases l k))
]

inserted :
    (p : ℕ) (h at exp : Text) (db : Db)
    → (insert_lease (new_lease p h at exp) db).0 ≡ ok true
    → any (held_by p h) (insert_lease (new_lease p h at exp) db).1.leases ≡ true
unfolding insert_lease
inserted p h at exp db e = elim (Bool-cases (any (of_project p) db.leases)) [
  | inl k ↦ absurd (ground (arith, k))
  | inr k ↦ rw k (elim (Bool-cases (project_exists p db)) [
    | inl m ↦ rw m (
        rw (any-append (held_by p h) db.leases (new_lease p h at exp ∷ []))
          (last_held p h at exp db.leases))
    | inr m ↦ absurd (ground (arith, k, m))
  ])
]

module _ (r : AutomatedSessionFinalization) (found : AgentSessionControlRecord) (d : Db)
    (e : find (is_generation r) d.controls ≡ some found) where
  settled : (db : Db) → lease_settled r found db ≡ true → IsSettled r d db
  unfolding IsSettled
  settled db h = (found, e, h)

  abbrev Settled : Transaction Db Bool → Type 0
  Settled t = Settles {D = Db} {A = Bool} (λ x a. IsSettled r d x) IsTrue t

  finishes :
      (to : AgentSessionControlState) (db : Db)
      → lease_settled r found (release_after_exit r to (exit_row r found to db)) ≡ true
      → Settled (finish_exit r found to db)
  unfolding finish_exit
  finishes to db h =
      Settles-if (count (is_exiting r found) db.controls == 1)
        (commit (release_after_exit r to (exit_row r found to db)) true) (roll_back false)
        (λ m.
          Settles-commit (release_after_exit r to (exit_row r found to db)) true (settled _ h) refl)
        (λ m. Settles-roll_back false not_IsTrue)

  finish_ready :
      (h : Text) (db : Db)
      → in_control interrupt_requested found.state ≡ true
      → found.interactive_holder ≡ some h
      → any (held_by r.project_id h) db.leases ≡ true
      → Settled (finish_exit r found ready_interactive db)
  unfolding release_after_exit exit_row lease_settled
  finish_ready h db i o k = finishes ready_interactive db (rw (always_ready) (rw i (rw o k)))

  finish_idle :
      (to : AgentSessionControlState) (db : Db)
      → in_control interrupt_requested found.state ≡ false
      → in_control ready_interactive to ≡ false
      → Settled (finish_exit r found to db)
  unfolding release_after_exit exit_row lease_settled delete_lease
  finish_idle to db i n =
      finishes to db
        (rw n (rw i (rw (any_deleted (held_by r.project_id r.lease_holder) db.leases) refl)))

  finish_claimed-Settled :
      (h : Text) (x : SqlResult Bool × Db)
      → in_control interrupt_requested found.state ≡ true
      → found.interactive_holder ≡ some h
      → (x.0 ≡ ok true → any (held_by r.project_id h) x.1.leases ≡ true)
      → Settled (finish_claimed r found h x)
  finish_claimed-Settled h (err y, db) i o k = Settles-fail y
  finish_claimed-Settled h (ok true, db) i o k = finish_ready h db i o (k refl)
  finish_claimed-Settled h (ok false, db) i o k =
      Settles-if (is_first_holder r.project_id h db) (finish_exit r found ready_interactive db)
        (roll_back false) (λ m. finish_ready h db i o (first_holder r.project_id h db m))
        (λ m. Settles-roll_back false not_IsTrue)

  hand_over-Settled :
      (o : Option Text)
      → in_control interrupt_requested found.state ≡ true
      → found.interactive_holder ≡ o
      → Settled (hand_over r found o d)
  unfolding hand_over hand_lease
  hand_over-Settled none i o = Settles-roll_back false not_IsTrue
  hand_over-Settled (some h) i o =
      Settles-if (ltb 0 (count (held_by r.project_id r.lease_holder) d.leases)) _ _
        (λ m.
          finish_ready h (hand_lease r.project_id r.lease_holder h r.acquired_at r.expires_at d) i o
            (transferred r.project_id r.lease_holder h r.acquired_at r.expires_at d.leases
              (ground (arith, count_pos (held_by r.project_id r.lease_holder) d.leases))))
        (λ m.
          finish_claimed-Settled h
            (insert_lease (new_lease r.project_id h r.acquired_at r.expires_at) d) i o
            (λ k. inserted r.project_id h r.acquired_at r.expires_at d k))

  finish_terminal-Settled :
      (s : AgentSessionControlState)
      → found.state ≡ s
      → Settled (finish_terminal r found (terminal_state s) d)
  unfolding terminal_state
  finish_terminal-Settled running q =
      rw not_ready.0 (finish_idle resume_requested d (rw q not_interrupted.0) not_ready.0)
  finish_terminal-Settled stop_requested q =
      rw not_ready.1 (finish_idle stopped d (rw q not_interrupted.1) not_ready.1)
  finish_terminal-Settled interrupt_requested q =
      rw always_ready (hand_over-Settled found.interactive_holder (rw q interrupted) refl)
  finish_terminal-Settled stopped q = Settles-roll_back false not_IsTrue
  finish_terminal-Settled ready_interactive q = Settles-roll_back false not_IsTrue
  finish_terminal-Settled interactive q = Settles-roll_back false not_IsTrue
  finish_terminal-Settled resume_requested q = Settles-roll_back false not_IsTrue

found-Settled :
    (r : AutomatedSessionFinalization) (d : Db) (o : Option AgentSessionControlRecord)
    → find (is_generation r) d.controls ≡ o
    → Settles {D = Db} {A = Bool} (λ x a. IsSettled r d x) IsTrue (finish_found r o d)
found-Settled r d none e = Settles-roll_back false not_IsTrue
found-Settled r d (some found) e = finish_terminal-Settled r found d e found.state refl

exit-Settled :
    (r : AutomatedSessionFinalization) (d : Db)
    → Settles {D = Db} {A = Bool} (λ x a. IsSettled r d x) IsTrue (exit_transaction r d)
unfolding exit_transaction
exit-Settled r d =
    Settles-if
      (is_some r.reattached_session_id
        && not (count (held_by r.project_id r.lease_holder) d.leases == 1))
      _ _ (λ m. Settles-roll_back false not_IsTrue)
      (λ m. found-Settled r d (find (is_generation r) d.controls) refl)

-- When the exit of an automated process is recorded, the process is one that a control of the
-- project names; if its terminal was asked for, the interactive holder holds the project's lease,
-- and otherwise the process's lease holder holds none.
pub finalize_automated-settles :
    (r : AutomatedSessionFinalization) (db : Db)
    → (finalize_automated_session_after_exit r db).0 ≡ ok true
    → IsSettled r db (finalize_automated_session_after_exit r db).1
unfolding finalize_automated_session_after_exit
finalize_automated-settles r db h =
    Settles-good db (exit_transaction r db) true (exit-Settled r db) h refl

-- When the exit of an automated process is not recorded, with an error or without, nothing has
-- changed: no lease has moved without the control, and no control without the lease.
pub finalize_automated-unrecorded :
    (r : AutomatedSessionFinalization) (db : Db)
    → (finalize_automated_session_after_exit r db).0 ≢ ok true
    → (finalize_automated_session_after_exit r db).1 ≡ db
unfolding finalize_automated_session_after_exit
finalize_automated-unrecorded r db n =
    Settles-refused db (exit_transaction r db) (exit-Settled r db) (λ b e g. n (e ∙ ap ok g))
