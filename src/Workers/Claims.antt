-- ===== src/Workers/Claims.antt =====
-- Who runs a worker: `claim_worker` of src/agent/repositories/workers_leases.rs.
use clt_rs.Prelude.{
  ℕ, ◌≤◌, ◌≡◌, ap, ◌∙◌, ◌≢◌, Bool, true, false, List, arith, ltb, ◌==◌, ==_refl, Text,
}
use clt_rs.Sql.{any, count}
use clt_rs.Sql.Laws.{
  count_pos, count-eq-zero, count_mono, update-none, any-update_made, unique_kind,
}
use clt_rs.Store.{Lease, AgentWorker, Db, holds_lease}
use clt_rs.Workers.{
  in_state, is_claimable, is_claimed_by, claim_rows, claimed_count, claimed_pairs, claim_worker,
  start,
}
use clt_rs.Workers.Endings.{has_token}
use clt_rs.Workers.Consistency.{IsConsistent, IsConsistent-IsStable}
use clt_rs.Workers.Operations.{claim_worker_keeps}

-- The process runs the worker, under its project's lease.
unfoldable pub runs_worker : Text → ℕ → Db → Bool
runs_worker t pid db = any (is_claimed_by t pid db.leases) db.workers

some_pair : (n : ℕ) → (n == 1) ≡ true → ltb 0 n ≡ true
some_pair n h = ground arith

started :
    (t : Text) (pid : ℕ) (at : Text) (leases : List Lease) (w : AgentWorker)
    → is_claimable t leases w ≡ true
    → is_claimed_by t pid leases (start pid at w) ≡ true
unfolding is_claimable is_claimed_by holds_lease in_state
started t pid at leases w h = ground (arith, ==_refl pid)

claim_rows-runs :
    (t : Text) (pid : ℕ) (at : Text) (db : Db)
    → (claimed_count t db == 1) ≡ true
    → runs_worker t pid (claim_rows t pid at db) ≡ true
unfolding claim_rows runs_worker claimed_count
claim_rows-runs t pid at db h =
    any-update_made _ _ (start pid at) db.workers (started t pid at db.leases)
      (ground (arith, count_pos (is_claimable t db.leases) db.workers, some_pair _ h))

pairs-run :
    (t : Text) (pid : ℕ) (db : Db)
    → (claimed_pairs t pid db == 1) ≡ true
    → runs_worker t pid db ≡ true
unfolding claimed_pairs runs_worker
pairs-run t pid db h =
    ground (arith, count_pos (is_claimed_by t pid db.leases) db.workers, some_pair _ h)

-- A process whose claim is answered `true` runs the worker, under its project's lease.
pub claim_worker-runs :
    (t : Text) (pid : ℕ) (at : Text) (db : Db)
    → (claim_worker t pid at db).0 ≡ true
    → runs_worker t pid (claim_worker t pid at db).1 ≡ true
unfolding claim_worker
claim_worker-runs t pid at db h =
    ground (arith, claim_rows-runs t pid at db, pairs-run t pid (claim_rows t pid at db))

module _ (t : Text) (db : Db) (unique : count (has_token t) db.workers ≤ 1) (pid : ℕ)
    (r : runs_worker t pid db ≡ true) where
  nothing_claimable : any (is_claimable t db.leases) db.workers ≡ false
  unfolding runs_worker
  nothing_claimable =
      unique_kind (has_token t) (is_claimed_by t pid db.leases) (is_claimable t db.leases)
        db.workers (λ w e. unfold is_claimed_by has_token in ground arith)
        (λ w e. unfold is_claimable has_token in ground arith)
        (λ w e. unfold is_claimable is_claimed_by in_state in ground arith) unique r

  no_other_process :
      (other : ℕ) → pid ≢ other → any (is_claimed_by t other db.leases) db.workers ≡ false
  unfolding runs_worker
  no_other_process other n =
      unique_kind (has_token t) (is_claimed_by t pid db.leases) (is_claimed_by t other db.leases)
        db.workers (λ w e. unfold is_claimed_by has_token in ground arith)
        (λ w e. unfold is_claimed_by has_token in ground arith)
        (λ w e. unfold is_claimed_by in ground arith) unique r

  one_pair : (claimed_pairs t pid db == 1) ≡ true
  unfolding claimed_pairs runs_worker
  one_pair = ground (
    arith,
    count_pos (is_claimed_by t pid db.leases) db.workers,
    count_mono (is_claimed_by t pid db.leases) (has_token t) db.workers
        (λ w e. unfold is_claimed_by has_token in ground arith),
  )

  pub claim_again :
      (other : ℕ) (at : Text) → claim_worker t other at db ≡ (claimed_pairs t other db == 1, db)
  unfolding claim_worker claim_rows claimed_count
  claim_again other at = ground (
    arith,
    count-eq-zero (is_claimable t db.leases) db.workers nothing_claimable,
    update-none (is_claimable t db.leases) (start other at) db.workers nothing_claimable,
  )

  pub claim_by_other :
      (other : ℕ) (at : Text) → pid ≢ other → claim_worker t other at db ≡ (false, db)
  unfolding claimed_pairs
  claim_by_other other at n =
      claim_again other at ∙ ground (arith, count-eq-zero _ db.workers (no_other_process other n))

claimed_unique :
    (t : Text) (pid : ℕ) (at : Text) (db : Db)
    → IsConsistent db
    → count (has_token t) (claim_worker t pid at db).1.workers ≤ 1
claimed_unique t pid at db c =
    (claim_worker_keeps IsConsistent IsConsistent-IsStable (λ r. Unit {0}) t pid at db c).one_worker
      t

-- Once a process has claimed a worker of a consistent registry, the claim of any other process is
-- refused and changes nothing.
pub claim_worker-exclusive :
    (t : Text) (pid other : ℕ) (at later : Text) (db : Db)
    → IsConsistent db
    → (claim_worker t pid at db).0 ≡ true
    → pid ≢ other
    → claim_worker t other later (claim_worker t pid at db).1
      ≡ (false, (claim_worker t pid at db).1)
claim_worker-exclusive t pid other at later db c h n =
    claim_by_other t _ (claimed_unique t pid at db c) pid (claim_worker-runs t pid at db h) other
      later n

-- A process that claims its worker of a consistent registry again is answered `true` again, and
-- nothing changes.
pub claim_worker-idempotent :
    (t : Text) (pid : ℕ) (at later : Text) (db : Db)
    → IsConsistent db
    → (claim_worker t pid at db).0 ≡ true
    → claim_worker t pid later (claim_worker t pid at db).1 ≡ (true, (claim_worker t pid at db).1)
claim_worker-idempotent t pid at later db c h =
    let u = claimed_unique t pid at db c in
    let r = claim_worker-runs t pid at db h in
    claim_again t _ u pid r pid later
    ∙ ap (λ b. (b, (claim_worker t pid at db).1)) (one_pair t _ u pid r)
