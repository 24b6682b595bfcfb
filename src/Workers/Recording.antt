-- ===== src/Workers/Recording.antt =====
-- `abandon_worker` and `finalize_worker` of src/agent/repositories/workers_leases.rs keep the
-- registry consistent.
use clt_rs.Prelude.{
  ℕ, ◌≡◌, refl, sym, inl, inr, Bool, true, false, ◌||◌, not, Option, none, some, arith, Bool-cases,
  Text, text_eq→eq,
}
use clt_rs.Sql.{SqlResult, ok, err, any}
use clt_rs.Sql.Transactions.{Commits, Commits-transact, commits_rules}
use clt_rs.Store.{WorkerState, AgentWorker, Db, is_active, project_exists}
use clt_rs.Projects.{AgentRunOutcome, update_project_after_run}
use clt_rs.Workers.{in_state}
use clt_rs.Workers.Endings.{
  AgentWorkerAbandonment, run_of_worker, new_run, with_run, record_run, mark_abandoned, drop_lease,
  abandon_recorded, abandon_found, abandon_worker,
}
use clt_rs.Workers.Endings.Finalize.{
  AgentWorkerFinalization, is_finalizable, mark_finalizing, mark_completed, finalize_recorded,
  finalize_active, finalize_found, finalize_worker, finished_before,
}
use clt_rs.Workers.Consistency.{IsStable}

module _ (P : Db → Type 0) (stable : IsStable P) where
  update_project-keeps : (o : AgentRunOutcome) {db : Db} → P db → P (update_project_after_run o db)
  unfolding update_project_after_run
  update_project-keeps o c = stable.set_projects _ _ c

  new_run-worker :
      (id : ℕ) (t u : Text) (o : AgentRunOutcome) → run_of_worker u (new_run id t o) ≡ true → u ≡ t
  unfolding run_of_worker new_run
  new_run-worker id t u o h = sym (text_eq→eq t u h)

  with_run-keeps :
      (t : Text) (id : ℕ) (o : AgentRunOutcome) {db : Db}
      → any (run_of_worker t) db.runs ≡ false
      → P db
      → P (with_run db (new_run id t o))
  with_run-keeps t id o h c =
      stable.insert_runs (new_run id t o) t _ (λ u e. new_run-worker id t u o e) h c

  record_run-keeps : (t : Text) (o : AgentRunOutcome) {db : Db} → P db → P (record_run t o db).1
  unfolding record_run
  record_run-keeps t o {db} c = elim (Bool-cases (any (run_of_worker t) db.runs)) [
    | inl e ↦ rw e c
    | inr e ↦ rw e (elim (Bool-cases (project_exists o.project_id db)) [
      | inl k ↦ rw k (update_project-keeps o (with_run-keeps t _ o e c))
      | inr k ↦ rw k c
    ])
  ]

  mark_abandoned-keeps :
      (a : AgentWorkerAbandonment) (id : ℕ) {db : Db} → P db → P (mark_abandoned a id db)
  unfolding mark_abandoned is_active
  mark_abandoned-keeps a id c =
      stable.update_workers _ _ _
        (record { token = λ w. refl; project = λ w. refl; sleeps = λ w e h. cc }) c

  drop_lease-keeps : (p : ℕ) (holder : Text) {db : Db} → P db → P (drop_lease p holder db)
  unfolding drop_lease
  drop_lease-keeps p holder c = stable.delete_leases _ _ c

  abandon_recorded-keeps :
      (a : AgentWorkerAbandonment) (w : AgentWorker) (own : Bool) (r : SqlResult ℕ × Db)
      → P r.1
      → Commits P (abandon_recorded a w own r)
  unfolding abandon_recorded
  abandon_recorded-keeps a w own (err e, db) c = search commits_rules
  abandon_recorded-keeps a w own (ok id, db) c =
      search (commits_rules, mark_abandoned-keeps, drop_lease-keeps) depth 7

  abandon_found-keeps :
      (a : AgentWorkerAbandonment) (o : Option AgentWorker) {db : Db}
      → P db
      → Commits P (abandon_found a o db)
  unfolding abandon_found
  abandon_found-keeps a none c = search commits_rules
  abandon_found-keeps a (some w) c =
      search (commits_rules, abandon_recorded-keeps, record_run-keeps)

  pub abandon_worker_keeps :
      (a : AgentWorkerAbandonment) (db : Db) → P db → P (abandon_worker a db).1
  unfolding abandon_worker
  abandon_worker_keeps a db c = Commits-transact db _ c (abandon_found-keeps a _ c)

  mark_finalizing-keeps :
      (f : AgentWorkerFinalization) (s : WorkerState) {db : Db}
      → is_active s ≡ true
      → P db
      → P (mark_finalizing f s db)
  unfolding mark_finalizing is_finalizable is_active in_state
  mark_finalizing-keeps f s a c =
      stable.update_workers _ _ _
        (record { token = λ w. refl; project = λ w. refl; sleeps = λ w e h. ground arith }) c

  mark_completed-keeps :
      (f : AgentWorkerFinalization) (id : ℕ) {db : Db} → P db → P (mark_completed f id db)
  unfolding mark_completed is_active
  mark_completed-keeps f id c =
      stable.update_workers _ _ _
        (record { token = λ w. refl; project = λ w. refl; sleeps = λ w e h. cc }) c

  finalize_recorded-keeps :
      (f : AgentWorkerFinalization) (w : AgentWorker) (r : SqlResult ℕ × Db)
      → P r.1
      → Commits P (finalize_recorded f w r)
  unfolding finalize_recorded
  finalize_recorded-keeps f w (err e, db) c = search commits_rules
  finalize_recorded-keeps f w (ok id, db) c =
      search (commits_rules, mark_completed-keeps, drop_lease-keeps) depth 7

  active_guard :
      (s : WorkerState) (b : Bool) → (not (is_active s) || b) ≡ false → is_active s ≡ true
  active_guard s b h = ground arith

  finalize_active-keeps :
      (f : AgentWorkerFinalization) (w : AgentWorker) {db : Db}
      → P db
      → Commits P (finalize_active f w db)
  unfolding finalize_active
  finalize_active-keeps f w {db} c =
      search
        (
          commits_rules, finalize_recorded-keeps, record_run-keeps, mark_finalizing-keeps,
          active_guard,
        )
        depth 9

  finished_before-keeps : (o : Option ℕ) {db : Db} → P db → Commits P (finished_before o db)
  finished_before-keeps none c = search commits_rules
  finished_before-keeps (some id) c = search commits_rules

  finalize_found-keeps :
      (f : AgentWorkerFinalization) (o : Option AgentWorker) {db : Db}
      → P db
      → Commits P (finalize_found f o db)
  unfolding finalize_found
  finalize_found-keeps f none c = search commits_rules
  finalize_found-keeps f (some w) c =
      search (commits_rules, finished_before-keeps, finalize_active-keeps)

  pub finalize_worker_keeps :
      (f : AgentWorkerFinalization) (db : Db) → P db → P (finalize_worker f db).1
  unfolding finalize_worker
  finalize_worker_keeps f db c = Commits-transact db _ c (finalize_found-keeps f _ c)
