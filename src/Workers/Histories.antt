-- ===== src/Workers/Histories.antt =====
-- Sequences of the operations of src/agent/repositories/workers_leases.rs, of any processes.
use clt_rs.Prelude.{
  ℕ, ◌≡◌, refl, Bool, true, false, ◌||◌, Option, List, [], ◌∷◌, if◌then◌else◌, leb, Text,
}
use clt_rs.Sql.{SqlResult, ok, err, any}
use clt_rs.Sql.Transactions.{Commits, Commits-transact, commits_rules}
use clt_rs.Store.{Lease, Db}
use clt_rs.Leases.{
  new_lease, clear_expired, insert_lease, try_acquire_lease, renew_lease, release_lease,
}
use clt_rs.GitLeases.{
  repair_fences, clear_reclaimable, insert_guarded, try_acquire_git_finalization_lease,
  renew_git_finalization_lease, commit_insert,
}
use clt_rs.Workers.{
  AgentWorkerReservation, reserve_worker, claim_worker, insert_worker, new_worker, worker_conflicts,
  active_count,
}
use clt_rs.Workers.Upkeep.{
  renew_worker, supersede_abandoned_workers_for_lease, mark_worker_service_cleaned,
}
use clt_rs.Workers.Endings.{AgentWorkerAbandonment, abandon_worker}
use clt_rs.Workers.Endings.Finalize.{AgentWorkerFinalization, finalize_worker}
use clt_rs.Workers.Consistency.{IsStable}
use clt_rs.Workers.Operations.{
  reserve_worker_keeps, claim_worker_keeps, renew_worker_keeps, supersede_abandoned_keeps,
  mark_cleaned_keeps,
}
use clt_rs.Workers.Recording.{abandon_worker_keeps, finalize_worker_keeps}

pub data Operation : Type 0 where
  acquire : ℕ → Text → Text → Text → Operation
  acquire_finalization : ℕ → Text → Text → Text → Option Text → Operation
  renew : ℕ → Text → Text → Operation
  renew_finalization : ℕ → Text → Text → Operation
  release : ℕ → Text → Operation
  reserve : AgentWorkerReservation → Option (ℕ × Text) → Operation
  claim : Text → ℕ → Text → Operation
  heartbeat : Text → ℕ → Text → Text → Operation
  supersede_abandoned : ℕ → Text → Operation
  mark_cleaned : Text → Text → Operation
  abandon : AgentWorkerAbandonment → Operation
  finalize : AgentWorkerFinalization → Operation

unfoldable pub apply : Operation → Db → Db
apply (acquire p holder at expires) db = (try_acquire_lease p holder at expires db).1
apply (acquire_finalization p holder at expires reclaim) db =
    (try_acquire_git_finalization_lease p holder at expires reclaim db).1
apply (renew p holder expires) db = (renew_lease p holder expires db).1
apply (renew_finalization p holder expires) db =
    (renew_git_finalization_lease p holder expires db).1
apply (release p holder) db = (release_lease p holder db).1
apply (reserve r c) db = (reserve_worker r c db).1
apply (claim t pid at) db = (claim_worker t pid at db).1
apply (heartbeat t pid at expires) db = (renew_worker t pid at expires db).1
apply (supersede_abandoned p holder) db = (supersede_abandoned_workers_for_lease p holder db).1
apply (mark_cleaned t at) db = (mark_worker_service_cleaned t at db).1
apply (abandon a) db = (abandon_worker a db).1
apply (finalize f) db = (finalize_worker f db).1

unfoldable pub apply_all : List Operation → Db → Db
apply_all [] db = db
apply_all (o ∷ os) db = apply_all os (apply o db)

-- Every reservation of the list stays within a condition.
abbrev pub Allowed : (AgentWorkerReservation → Type 0) → Operation → Type 0
Allowed allowed (reserve r c) = allowed r
Allowed allowed _ = Unit {0}

abbrev pub AllAllowed : (AgentWorkerReservation → Type 0) → List Operation → Type 0
AllAllowed allowed [] = Unit {0}
AllAllowed allowed (o ∷ os) = Allowed allowed o × AllAllowed allowed os

P-if : (P : Db → Type 0) (b : Bool) (x y : Db) → P x → P y → P (if b then x else y)
P-if P true x y hx hy = hx
P-if P false x y hx hy = hy

pair-if {ℓ} :
    {A : Type ℓ} (P : Db → Type 0) (b : Bool) (x y : A × Db)
    → P x.1
    → P y.1
    → P (if b then x else y).1
pair-if P true x y hx hy = hx
pair-if P false x y hx hy = hy

module _ (P : Db → Type 0) (stable : IsStable P) (allowed : AgentWorkerReservation → Type 0)
    (inserts : (r : AgentWorkerReservation) (db : Db)
      → any (worker_conflicts (new_worker r)) db.workers ≡ false
      → (leb r.max_active_workers 0 || leb r.max_active_workers (active_count db)) ≡ false
      → allowed r
      → P db
      → P (insert_worker (new_worker r) db)) where
  clear_expired-keeps : (p : ℕ) (now : Text) {db : Db} → P db → P (clear_expired p now db)
  unfolding clear_expired
  clear_expired-keeps p now c = stable.delete_leases _ _ c

  renew_lease-keeps :
      (p : ℕ) (holder expires : Text) {db : Db} → P db → P (renew_lease p holder expires db).1
  unfolding renew_lease
  renew_lease-keeps p holder expires {db} c =
      pair-if P _ (true, _) (_, _) (stable.update_leases _ _ db (λ l. refl) c)
        (stable.update_leases _ _ db (λ l. refl) c)

  repair_fences-keeps : (p : ℕ) (now : Text) {db : Db} → P db → P (repair_fences p now db)
  unfolding repair_fences
  repair_fences-keeps p now c = stable.set_controls _ _ c

  clear_reclaimable-keeps :
      (p : ℕ) (now : Text) (reclaim : Option Text) {db : Db}
      → P db
      → P (clear_reclaimable p now reclaim db)
  unfolding clear_reclaimable
  clear_reclaimable-keeps p now reclaim {db} c = P-if P _ _ _ c (stable.delete_leases _ _ c)

  insert_guarded-keeps : (lease : Lease) {db : Db} → P db → P (insert_guarded lease db).1
  unfolding insert_guarded
  insert_guarded-keeps lease {db} c =
      pair-if P _ (insert_lease lease db) (ok false, db) (stable.insert_leases lease db c) c

  commit_insert-keeps : (r : SqlResult Bool × Db) → P r.1 → Commits P (commit_insert r)
  commit_insert-keeps (ok b, db) c = search commits_rules
  commit_insert-keeps (err e, db) c = search commits_rules

  acquire_finalization-keeps :
      (p : ℕ) (holder at expires : Text) (reclaim : Option Text) {db : Db}
      → P db
      → P (try_acquire_git_finalization_lease p holder at expires reclaim db).1
  unfolding try_acquire_git_finalization_lease
  acquire_finalization-keeps p holder at expires reclaim {db} c = Commits-transact db _ c (
      commit_insert-keeps _ (
        insert_guarded-keeps _ (clear_reclaimable-keeps p at reclaim (repair_fences-keeps p at c))))

  renew_finalization-keeps :
      (p : ℕ) (holder expires : Text) {db : Db}
      → P db
      → P (renew_git_finalization_lease p holder expires db).1
  unfolding renew_git_finalization_lease
  renew_finalization-keeps p holder expires {db} c =
      pair-if P _ (false, db) _ c (stable.update_leases _ _ db (λ l. refl) c)

  apply-keeps : (o : Operation) (db : Db) → Allowed allowed o → P db → P (apply o db)
  unfolding apply
  apply-keeps (acquire p holder at expires) db a c =
      unfold try_acquire_lease in
      stable.insert_leases (new_lease p holder at expires) (clear_expired p at db)
        (clear_expired-keeps p at c)
  apply-keeps (acquire_finalization p holder at expires reclaim) db a c =
      acquire_finalization-keeps p holder at expires reclaim c
  apply-keeps (renew p holder expires) db a c = renew_lease-keeps p holder expires c
  apply-keeps (renew_finalization p holder expires) db a c =
      renew_finalization-keeps p holder expires c
  apply-keeps (release p holder) db a c = unfold release_lease in stable.delete_leases _ db c
  apply-keeps (reserve r cl) db a c = reserve_worker_keeps P stable allowed inserts r cl db a c
  apply-keeps (claim t pid at) db a c = claim_worker_keeps P stable allowed t pid at db c
  apply-keeps (heartbeat t pid at expires) db a c =
      renew_worker_keeps P stable allowed t pid at expires db c
  apply-keeps (supersede_abandoned p holder) db a c =
      supersede_abandoned_keeps P stable allowed p holder db c
  apply-keeps (mark_cleaned t at) db a c = mark_cleaned_keeps P stable allowed t at db c
  apply-keeps (abandon x) db a c = abandon_worker_keeps P stable x db c
  apply-keeps (finalize f) db a c = finalize_worker_keeps P stable f db c

  pub apply_all-keeps :
      (os : List Operation) (db : Db) → AllAllowed allowed os → P db → P (apply_all os db)
  unfolding apply_all
  apply_all-keeps [] db a c = c
  apply_all-keeps (o ∷ os) db a c = apply_all-keeps os (apply o db) a.1 (apply-keeps o db a.0 c)
