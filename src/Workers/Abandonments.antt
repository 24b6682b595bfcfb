-- ===== src/Workers/Abandonments.antt =====
-- What the abandonment of a worker leaves behind: `abandon_worker` of
-- src/agent/repositories/workers_leases.rs.
use mathlib.Core.Path.{subst}
use clt_rs.Prelude.{
  ℕ, ◌≡◌, refl, sym, ap, ◌∙◌, ◌≢◌, Bool, true, false, ◌&&◌, not, Option, none, some, List, arith,
  ◌==◌, Text, text_eq, text_eq→eq, inl, inr, Bool-cases, Option-cases,
}
use clt_rs.Sql.{SqlResult, ok, err, any, count, find, roll_back}
use clt_rs.Sql.Laws.{any-update_made, count_pos}
use clt_rs.Sql.Transactions.{
  Settles, Settles-good, Settles-refused, settles_rules, IsTrue, Commits, commits_rules,
  Commits-transact, Commits-roll_back, Commits-if,
}
use clt_rs.Store.{WorkerState, AgentWorker, Lease, Db}
use clt_rs.Leases.{of_project}
use clt_rs.Projects.{AgentRunOutcome, update_project_after_run}
use clt_rs.Workers.{in_state}
use clt_rs.Workers.Endings.{
  AgentWorkerAbandonment, record_run, mark_abandoned, drop_lease, is_observed, holder_of,
  may_abandon, releases_own, abandonment_outcome, abandon_recorded, abandon_found, abandon_worker,
  has_token,
}

-- The worker is abandoned.
unfoldable pub is_given_up : Text → AgentWorker → Bool
is_given_up t w = has_token t w && in_state WorkerState.abandoned w.state

-- The registry has the worker abandoned.
abbrev GaveUp : AgentWorkerAbandonment → Db → Bool → Type 0
GaveUp a db b = any (is_given_up a.worker_token) db.workers ≡ true

given_up-mark :
    (a : AgentWorkerAbandonment) (id : ℕ) (db : Db)
    → (count (is_observed a) db.workers == 1) ≡ true
    → any (is_given_up a.worker_token) (mark_abandoned a id db).workers ≡ true
unfolding mark_abandoned
given_up-mark a id db e =
    any-update_made _ _ _ db.workers
      (λ w k. unfold is_observed is_given_up has_token in_state in ground arith)
      (ground (arith, count_pos (is_observed a) db.workers))

counted_one : (b : Bool) → not b ≡ false → b ≡ true
counted_one b h = ground arith

given_up-drop :
    (a : AgentWorkerAbandonment) (p : ℕ) (h : Text) (db : Db)
    → any (is_given_up a.worker_token) db.workers ≡ true
    → any (is_given_up a.worker_token) (drop_lease p h db).workers ≡ true
unfolding drop_lease
given_up-drop a p h db e = e

abandon_recorded-Settles :
    (a : AgentWorkerAbandonment) (w : AgentWorker) (own : Bool) (r : SqlResult ℕ × Db)
    → Settles (GaveUp a) IsTrue (abandon_recorded a w own r)
unfolding abandon_recorded
abandon_recorded-Settles a w own (err e, db) = search settles_rules
abandon_recorded-Settles a w own (ok id, db) =
    search (settles_rules, given_up-drop, given_up-mark, counted_one) depth 9

abandon_found-Settles :
    (a : AgentWorkerAbandonment) (o : Option AgentWorker) (db : Db)
    → Settles (GaveUp a) IsTrue (abandon_found a o db)
unfolding abandon_found
abandon_found-Settles a none db = search settles_rules
abandon_found-Settles a (some w) db = search (settles_rules, abandon_recorded-Settles)

-- A worker whose abandonment is answered `true` is abandoned.
pub abandon_worker-GaveUp :
    (a : AgentWorkerAbandonment) (db : Db)
    → (abandon_worker a db).0 ≡ ok true
    → any (is_given_up a.worker_token) (abandon_worker a db).1.workers ≡ true
unfolding abandon_worker
abandon_worker-GaveUp a db h = Settles-good db _ true (abandon_found-Settles a _ db) h refl

-- An abandonment that is not answered `true`, refused or failed at any point, changes nothing: no
-- run is recorded for it either.
pub abandon_worker-refused :
    (a : AgentWorkerAbandonment) (db : Db)
    → (abandon_worker a db).0 ≢ ok true
    → (abandon_worker a db).1 ≡ db
unfolding abandon_worker
abandon_worker-refused a db n =
    Settles-refused db _ (abandon_found-Settles a _ db) (λ b e g. n (e ∙ ap ok g))

not_permitted :
    (a : AgentWorkerAbandonment) (w : AgentWorker) (holder : Text)
    → text_eq holder w.lease_holder ≡ false
    → a.permitted_successor_holder ≢ some holder
    → may_abandon a w (some holder) ≡ false
unfolding may_abandon
not_permitted a w holder n p = elim (Option-cases a.permitted_successor_holder) [
  | inl e ↦ rw (e, n) refl
  | inr (s, e) ↦
      rw (e, n)
        (elim (Bool-cases (text_eq s holder)) [
          | inl k ↦ absurd (p (e ∙ ap some (text_eq→eq s holder k)))
          | inr k ↦ k
        ])
]

-- While anyone but the worker itself and the permitted successor holds the lease of its project, the
-- worker is not abandoned: the answer is false, and nothing changes.
pub abandon_worker-stranger :
    (a : AgentWorkerAbandonment) (w : AgentWorker) (l : Lease) (db : Db)
    → find (is_observed a) db.workers ≡ some w
    → find (of_project w.project_id) db.leases ≡ some l
    → text_eq l.holder w.lease_holder ≡ false
    → a.permitted_successor_holder ≢ some l.holder
    → abandon_worker a db ≡ (ok false, db)
unfolding abandon_worker abandon_found
abandon_worker-stranger a w l db e k n p = rw (e, k, not_permitted a w l.holder n p) refl

module _ (ls : List Lease) where
  record_run-same :
      (t : Text) (o : AgentRunOutcome) (db : Db)
      → db.leases ≡ ls
      → (record_run t o db).1.leases ≡ ls
  unfolding record_run update_project_after_run
  record_run-same t o db h = ground arith

  recorded-same :
      (a : AgentWorkerAbandonment) (w : AgentWorker) (r : SqlResult ℕ × Db)
      → r.1.leases ≡ ls
      → Commits (λ d. d.leases ≡ ls) (abandon_recorded a w false r)
  unfolding abandon_recorded mark_abandoned
  recorded-same a w (err e, db) h = search commits_rules
  recorded-same a w (ok id, db) h = search commits_rules depth 7

  not_own-same :
      (a : AgentWorkerAbandonment) (w : AgentWorker) (own : Bool) (r : SqlResult ℕ × Db)
      → own ≡ false
      → r.1.leases ≡ ls
      → Commits (λ d. d.leases ≡ ls) (abandon_recorded a w own r)
  not_own-same a w own r e h =
      subst (λ b. Commits (λ d. d.leases ≡ ls) (abandon_recorded a w b r)) (sym e)
        (recorded-same a w r h)

-- The abandonment of a worker whose project's lease another holder has leaves every lease as it
-- is: the successor keeps it.
pub abandon_worker-successor :
    (a : AgentWorkerAbandonment) (w : AgentWorker) (l : Lease) (db : Db)
    → find (is_observed a) db.workers ≡ some w
    → find (of_project w.project_id) db.leases ≡ some l
    → text_eq l.holder w.lease_holder ≡ false
    → (abandon_worker a db).1.leases ≡ db.leases
unfolding abandon_worker abandon_found
abandon_worker-successor a w l db e k n =
    let observed = holder_of (find (of_project w.project_id) db.leases) in
    let recorded = record_run a.worker_token (abandonment_outcome a w) db in
    rw e (
      Commits-transact {P = λ d. d.leases ≡ db.leases} db (abandon_found a (some w) db) refl (
        Commits-if (may_abandon a w observed)
          (abandon_recorded a w (releases_own w observed) recorded) (roll_back false)
          (λ m.
            not_own-same db.leases a w (releases_own w observed) recorded
              (rw k (unfold releases_own in n))
              (record_run-same db.leases a.worker_token (abandonment_outcome a w) db refl))
          (λ m. Commits-roll_back false)))
