-- ===== src/Workers/Consistency.antt =====
-- The uniqueness that the schema in src/agent.rs asks for, kept by each statement that
-- src/agent/repositories/workers_leases.rs makes.
use mathlib.Core.Path.{subst}
use clt_rs.Prelude.{
  ℕ, ◌≤◌, ◌≡◌, refl, sym, Bool, true, false, List, [], ◌∷◌, ◌++◌, arith, ◌==◌, Text, text_eq,
  text_eq→eq,
}
use clt_rs.Sql.{any, count, delete, update}
use clt_rs.Sql.Laws.{count-append_one, count-delete-le, count-update-le, count-update}
use clt_rs.Sessions.{AgentSessionControlRecord}
use clt_rs.Store.{AgentProject, Lease, AgentWorker, AgentRun, Db, is_active, active_in}
use clt_rs.Leases.{of_project, insert_lease}
use clt_rs.Leases.Ownership.{insert_lease_unique}
use clt_rs.Workers.{active_count, worker_conflicts}
use clt_rs.Workers.Endings.{run_of_worker, has_token}

-- One lease and one active worker to a project, one row to a worker's token, one run to a worker.
pub record IsConsistent (db : Db) : Type 0 where
  pub one_lease : (p : ℕ) → count (of_project p) db.leases ≤ 1
  pub one_worker : (t : Text) → count (has_token t) db.workers ≤ 1
  pub one_active : (p : ℕ) → count (active_in p) db.workers ≤ 1
  pub one_run : (t : Text) → count (run_of_worker t) db.runs ≤ 1

-- A change of workers that keeps who they are and wakes none.
pub record KeepsWorkers (p : AgentWorker → Bool) (f : AgentWorker → AgentWorker) : Type 0 where
  pub token : (w : AgentWorker) → (f w).worker_token ≡ w.worker_token
  pub project : (w : AgentWorker) → (f w).project_id ≡ w.project_id
  pub sleeps :
      (w : AgentWorker) → p w ≡ true → is_active (f w).state ≡ true → is_active w.state ≡ true

-- A property of the registry that the statements of its operations keep, but for the insertion of a
-- worker.
pub record IsStable (P : Db → Type 0) : Type 0 where
  pub update_workers :
      (p : AgentWorker → Bool) (f : AgentWorker → AgentWorker) (db : Db)
      → KeepsWorkers p f
      → P db
      → P (record db { workers = update p f db.workers })
  pub update_leases :
      (p : Lease → Bool) (f : Lease → Lease) (db : Db)
      → ((l : Lease) → (f l).project_id ≡ l.project_id)
      → P db
      → P (record db { leases = update p f db.leases })
  pub delete_leases :
      (p : Lease → Bool) (db : Db) → P db → P (record db { leases = delete p db.leases })
  pub insert_leases : (lease : Lease) (db : Db) → P db → P (insert_lease lease db).1
  pub insert_runs :
      (r : AgentRun) (t : Text) (db : Db)
      → ((u : Text) → run_of_worker u r ≡ true → u ≡ t)
      → any (run_of_worker t) db.runs ≡ false
      → P db
      → P (record db { runs = db.runs ++ r ∷ [] })
  pub set_projects : (ps : List AgentProject) (db : Db) → P db → P (record db { projects = ps })
  pub set_controls :
      (cs : List AgentSessionControlRecord) (db : Db) → P db → P (record db { controls = cs })

module _ (p : AgentWorker → Bool) (f : AgentWorker → AgentWorker) (k : KeepsWorkers p f) where
  pub has_token-update :
      (t : Text) (ws : List AgentWorker)
      → count (has_token t) (update p f ws) ≡ count (has_token t) ws
  unfolding has_token
  has_token-update t ws = count-update _ p f ws (λ w e. rw (k.token w) refl)

  pub active_in-update :
      (q : ℕ) (ws : List AgentWorker) → count (active_in q) (update p f ws) ≤ count (active_in q) ws
  unfolding active_in
  active_in-update q ws =
      count-update-le _ p f ws (λ w e. rw (k.project w) (ground (arith, k.sleeps w e)))

  pub active-update :
      (ws : List AgentWorker)
      → count (λ w. is_active w.state) (update p f ws) ≤ count (λ w. is_active w.state) ws
  active-update ws = count-update-le _ p f ws (λ w e h. k.sleeps w e h)

  pub update-workers :
      {db : Db} → IsConsistent db → IsConsistent (record db { workers = update p f db.workers })
  update-workers {db} c = record {
    one_lease = c.one_lease;
    one_worker = λ t. omega (arith, has_token-update t db.workers, c.one_worker t);
    one_active = λ q. omega (arith, active_in-update q db.workers, c.one_active q);
    one_run = c.one_run;
  }

-- A new active worker that conflicts with no row.
new_token :
    (w : AgentWorker) (t : Text) (ws : List AgentWorker)
    → any (worker_conflicts w) ws ≡ false
    → text_eq w.worker_token t ≡ true
    → any (has_token t) ws ≡ false
unfolding any worker_conflicts has_token
new_token w t [] h e = refl
new_token w t (v ∷ vs) h e = ground (arith, new_token w t vs, text_eq→eq w.worker_token t)

new_active :
    (w : AgentWorker) (q : ℕ) (ws : List AgentWorker)
    → any (worker_conflicts w) ws ≡ false
    → (w.project_id == q) ≡ true
    → any (active_in q) ws ≡ false
unfolding any worker_conflicts active_in
new_active w q [] h e = refl
new_active w q (v ∷ vs) h e = ground (arith, new_active w q vs)

pub insert-workers :
    (w : AgentWorker) (db : Db)
    → any (worker_conflicts w) db.workers ≡ false
    → IsConsistent db
    → IsConsistent (record db { workers = db.workers ++ w ∷ [] })
insert-workers w db h c = record {
  one_lease = c.one_lease;
  one_worker = λ t.
      count-append_one (has_token t) w db.workers
        (λ e. new_token w t db.workers h (unfold has_token in e)) (c.one_worker t);
  one_active = λ q.
      count-append_one (active_in q) w db.workers
        (λ e. new_active w q db.workers h (unfold active_in in ground arith)) (c.one_active q);
  one_run = c.one_run;
}

-- A change of a lease's holder or expiry keeps its project.
pub update-leases :
    (p : Lease → Bool) (f : Lease → Lease) {db : Db}
    → ((l : Lease) → (f l).project_id ≡ l.project_id)
    → IsConsistent db
    → IsConsistent (record db { leases = update p f db.leases })
update-leases p f {db} k c = record {
  one_lease = λ q. omega (
    arith,
    count-update (of_project q) p f db.leases (λ l e. unfold of_project in rw (k l) refl),
    c.one_lease q,
  );
  one_worker = c.one_worker;
  one_active = c.one_active;
  one_run = c.one_run;
}

pub delete-leases :
    (p : Lease → Bool) {db : Db}
    → IsConsistent db
    → IsConsistent (record db { leases = delete p db.leases })
delete-leases p {db} c = record {
  one_lease = λ q. omega (arith, count-delete-le (of_project q) p db.leases, c.one_lease q);
  one_worker = c.one_worker;
  one_active = c.one_active;
  one_run = c.one_run;
}

pub insert-leases :
    (lease : Lease) {db : Db} → IsConsistent db → IsConsistent (insert_lease lease db).1
insert-leases lease {db} c = record {
  one_lease = λ q. insert_lease_unique q db (c.one_lease q) lease;
  one_worker = λ t. unfold insert_lease in ground (arith, c.one_worker t);
  one_active = λ q. unfold insert_lease in ground (arith, c.one_active q);
  one_run = λ t. unfold insert_lease in ground (arith, c.one_run t);
}

-- The run of a worker that has none yet.
pub insert-runs :
    (r : AgentRun) (t : Text) {db : Db}
    → ((u : Text) → run_of_worker u r ≡ true → u ≡ t)
    → any (run_of_worker t) db.runs ≡ false
    → IsConsistent db
    → IsConsistent (record db { runs = db.runs ++ r ∷ [] })
insert-runs r t {db} k h c = record {
  one_lease = c.one_lease;
  one_worker = c.one_worker;
  one_active = c.one_active;
  one_run = λ u.
      count-append_one (run_of_worker u) r db.runs
        (λ e. subst (λ v. any (run_of_worker v) db.runs ≡ false) (sym (k u e)) h) (c.one_run u);
}

pub IsConsistent-IsStable : IsStable IsConsistent
IsConsistent-IsStable = record {
  update_workers = λ p f db k c. update-workers p f k c;
  update_leases = λ p f db k c. update-leases p f k c;
  delete_leases = λ p db c. delete-leases p c;
  insert_leases = λ lease db c. insert-leases lease c;
  insert_runs = λ r t db k h c. insert-runs r t k h c;
  set_projects = λ ps db c. record {
    one_lease = c.one_lease;
    one_worker = c.one_worker;
    one_active = c.one_active;
    one_run = c.one_run;
  };
  set_controls = λ cs db c. record {
    one_lease = c.one_lease;
    one_worker = c.one_worker;
    one_active = c.one_active;
    one_run = c.one_run;
  };
}

-- At most `n` workers are active, in all projects together.
pub record IsLimited (n : ℕ) (db : Db) : Type 0 where
  pub limit : active_count db ≤ n

pub IsLimited-IsStable : (n : ℕ) → IsStable (IsLimited n)
unfolding active_count
IsLimited-IsStable n = record {
  update_workers =
      λ p f db k c. record { limit = omega (arith, active-update p f k db.workers, c.limit) };
  update_leases = λ p f db k c. record { limit = c.limit };
  delete_leases = λ p db c. record { limit = c.limit };
  insert_leases = λ lease db c. record { limit = unfold insert_lease in ground (arith, c.limit) };
  insert_runs = λ r t db k h c. record { limit = c.limit };
  set_projects = λ ps db c. record { limit = c.limit };
  set_controls = λ cs db c. record { limit = c.limit };
}
