-- ===== src/Workers/Finalizations.antt =====
-- What the end of a worker leaves behind: `finalize_worker` and `abandon_worker` of
-- src/agent/repositories/workers_leases.rs.
use clt_rs.Prelude.{
  ℕ, ◌≤◌, ◌≡◌, refl, ap, ◌∙◌, ◌≢◌, inl, inr, Bool, true, ◌&&◌, Option, none, some, arith, ◌==◌,
  ==_refl, Option-cases, is_some, Text,
}
use clt_rs.Sql.{SqlResult, ok, err, any, count, find, commit, transact}
use clt_rs.Sql.Laws.{any-update_made, any_of_find, count_pos, find_unique, find_holds}
use clt_rs.Sql.Transactions.{Settles-if, Settles, Settles-good, Settles-refused, settles_rules}
use clt_rs.Store.{WorkerState, AgentWorker, Db}
use clt_rs.Workers.{in_state, pid_is}
use clt_rs.Workers.Consistency.{IsConsistent, IsConsistent-IsStable}
use clt_rs.Workers.Recording.{finalize_worker_keeps}
use clt_rs.Workers.Endings.{drop_lease, has_token}
use clt_rs.Workers.Endings.Finalize.{
  AgentWorkerFinalization, mark_completed, is_in_finalization, finalize_recorded, finalize_active,
  finished_before, finalize_found, finalize_worker,
}

-- The worker is completed with the run.
unfoldable pub is_done : Text → ℕ → AgentWorker → Bool
is_done t id w = has_token t w && in_state WorkerState.completed w.state && pid_is w.run_id id

abbrev Done : Text → Db → Option ℕ → Type 0
Done t db none = ⊥
Done t db (some id) = any (is_done t id) db.workers ≡ true

abbrev HasRun : Option ℕ → Type 0
HasRun o = is_some o ≡ true

has_no_run : HasRun none → ⊥
has_no_run h = cc

completed-Done :
    (f : AgentWorkerFinalization) (id : ℕ) (p : ℕ) (h : Text) (db : Db)
    → (count (is_in_finalization f.worker_token) db.workers == 1) ≡ true
    → Done f.worker_token (drop_lease p h (mark_completed f id db)) (some id)
unfolding drop_lease mark_completed
completed-Done f id p h db e =
    any-update_made _ _ _ db.workers
      (λ w k. unfold is_in_finalization is_done has_token in_state in ground (arith, ==_refl id))
      (ground (arith, count_pos (is_in_finalization f.worker_token) db.workers))

finalize_recorded-Settles :
    (f : AgentWorkerFinalization) (w : AgentWorker) (r : SqlResult ℕ × Db)
    → Settles (Done f.worker_token) HasRun (finalize_recorded f w r)
unfolding finalize_recorded
finalize_recorded-Settles f w (err e, db) = search settles_rules
finalize_recorded-Settles f w (ok id, db) = search (settles_rules, completed-Done)

finalize_active-Settles :
    (f : AgentWorkerFinalization) (w : AgentWorker) (db : Db)
    → Settles (Done f.worker_token) HasRun (finalize_active f w db)
unfolding finalize_active
finalize_active-Settles f w db = search (settles_rules, finalize_recorded-Settles) depth 9

found-Done :
    (t : Text) (w : AgentWorker) (id : ℕ) (db : Db)
    → find (has_token t) db.workers ≡ some w
    → in_state WorkerState.completed w.state ≡ true
    → w.run_id ≡ some id
    → Done t db (some id)
found-Done t w id db e c r =
    any_of_find (is_done t id) (has_token t) db.workers e
      (unfold is_done in ground (arith, find_holds (has_token t) db.workers e, ==_refl id))

finished_before-Settles :
    (t : Text) (o : Option ℕ) (db : Db)
    → ((id : ℕ) → o ≡ some id → Done t db (some id))
    → Settles (Done t) HasRun (finished_before o db)
finished_before-Settles t none db h = search settles_rules
finished_before-Settles t (some id) db h = search (settles_rules, h id refl)

finalize_found-Settles :
    (f : AgentWorkerFinalization) (o : Option AgentWorker) (db : Db)
    → find (has_token f.worker_token) db.workers ≡ o
    → Settles (Done f.worker_token) HasRun (finalize_found f o db)
unfolding finalize_found
finalize_found-Settles f none db e = search settles_rules
finalize_found-Settles f (some w) db e =
    Settles-if _ _ _
      (λ c.
        finished_before-Settles f.worker_token w.run_id db
          (λ id r. found-Done f.worker_token w id db e c r))
      (λ c. finalize_active-Settles f w db)

run_known : (w : AgentWorker) (id : ℕ) → pid_is w.run_id id ≡ true → w.run_id ≡ some id
run_known w id h = elim (Option-cases w.run_id) [
  | inl e ↦ absurd (ground arith)
  | inr (r, e) ↦ ground arith
]

finish_again :
    (g : AgentWorkerFinalization) (id : ℕ) (w : AgentWorker) (db : Db)
    → is_done g.worker_token id w ≡ true
    → finalize_found g (some w) db ≡ commit db (some id)
unfolding finalize_found is_done
finish_again g id w db h = ground (arith, run_known w id)

again :
    (g : AgentWorkerFinalization) (id : ℕ) (db : Db)
    → count (has_token g.worker_token) db.workers ≤ 1
    → any (is_done g.worker_token id) db.workers ≡ true
    → finalize_worker g db ≡ (ok (some id), db)
unfolding finalize_worker
again g id db u d =
    let (w, e, h) =
      find_unique (has_token g.worker_token) (is_done g.worker_token id) db.workers
        (λ w k. unfold is_done in ground arith) u d in
    rw e (ap (transact db) (finish_again g id w db h))

-- A worker that was finalized with a run is completed with that run.
pub finalize_worker-Done :
    (f : AgentWorkerFinalization) (id : ℕ) (db : Db)
    → (finalize_worker f db).0 ≡ ok (some id)
    → any (is_done f.worker_token id) (finalize_worker f db).1.workers ≡ true
unfolding finalize_worker
finalize_worker-Done f id db h =
    Settles-good db _ (some id) (finalize_found-Settles f _ db refl) h refl

-- Finalizing a worker of a consistent registry again, whatever the second call says of the run,
-- returns the run that was recorded and changes nothing.
pub finalize_worker-idempotent :
    (f g : AgentWorkerFinalization) (id : ℕ) (db : Db)
    → IsConsistent db
    → (finalize_worker f db).0 ≡ ok (some id)
    → g.worker_token ≡ f.worker_token
    → finalize_worker g (finalize_worker f db).1 ≡ (ok (some id), (finalize_worker f db).1)
finalize_worker-idempotent f g id db c h e =
    again g id _ ((finalize_worker_keeps IsConsistent IsConsistent-IsStable f db c).one_worker _)
      (rw e (finalize_worker-Done f id db h))

run_given : (o : Option ℕ) → HasRun o → (id : ℕ) × (o ≡ some id)
run_given none h = absurd (has_no_run h)
run_given (some id) h = (id, refl)

-- A finalization that records no run, refused or failed at any point, changes nothing.
pub finalize_worker-refused :
    (f : AgentWorkerFinalization) (db : Db)
    → ((id : ℕ) → (finalize_worker f db).0 ≢ ok (some id))
    → (finalize_worker f db).1 ≡ db
unfolding finalize_worker
finalize_worker-refused f db n =
    Settles-refused db _ (finalize_found-Settles f _ db refl)
      (λ a e g. let (id, r) = run_given a g in n id (e ∙ ap ok r))
