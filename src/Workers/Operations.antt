-- ===== src/Workers/Operations.antt =====
-- Every operation of src/agent/repositories/workers_leases.rs, in any order, keeps the registry
-- consistent.
use clt_rs.Prelude.{
  ℕ, ◌≡◌, refl, inl, inr, false, ◌||◌, Option, none, some, arith, leb, ◌==◌, Bool-cases, Text,
}
use clt_rs.Sql.{any}
use clt_rs.Sql.Transactions.{Commits, Commits-transact, commits_rules}
use clt_rs.Store.{AgentWorker, Db, is_active}
use clt_rs.Workers.{
  new_worker, active_count, in_state, worker_conflicts, AgentWorkerReservation, transfer_lease,
  supersede_earlier, is_claimable, start, claim_rows, initial_claim, take_over_lease, insert_worker,
  reserve_body, reserve_worker, claim_worker, supersede, claimed_count,
}
use clt_rs.Workers.Upkeep.{
  beat, extend_lease, renew_owned, renew_worker, supersede_abandoned_workers_for_lease,
  mark_worker_service_cleaned,
}
use clt_rs.Workers.Consistency.{IsStable}

module _ (P : Db → Type 0) (stable : IsStable P) (allowed : AgentWorkerReservation → Type 0) where
  supersede_earlier-keeps : (p : ℕ) (t : Text) {db : Db} → P db → P (supersede_earlier p t db)
  unfolding supersede_earlier is_active
  supersede_earlier-keeps p t c =
      stable.update_workers _ supersede _
        (record { token = λ w. refl; project = λ w. refl; sleeps = λ w e h. cc }) c

  transfer_lease-keeps :
      (p : ℕ) (from holder : Text) {db : Db} → P db → P (transfer_lease p from holder db)
  unfolding transfer_lease
  transfer_lease-keeps p from holder c = stable.update_leases _ _ _ (λ l. refl) c

  claim_rows-keeps : (t : Text) (pid : ℕ) (at : Text) {db : Db} → P db → P (claim_rows t pid at db)
  unfolding claim_rows is_claimable is_active in_state
  claim_rows-keeps t pid at {db} c =
      stable.update_workers _ (start pid at) _
        (record { token = λ w. refl; project = λ w. refl; sleeps = λ w e h. ground arith }) c

  initial_claim-keeps :
      (t : Text) (claim : Option (ℕ × Text)) {db : Db} → P db → Commits P (initial_claim t claim db)
  unfolding initial_claim
  initial_claim-keeps t none c = search commits_rules
  initial_claim-keeps t (some (pid, at)) {db} c = search (commits_rules, claim_rows-keeps)

  take_over_lease-keeps :
      (r : AgentWorkerReservation) (claim : Option (ℕ × Text)) {db : Db}
      → P db
      → Commits P (take_over_lease r claim db)
  unfolding take_over_lease
  take_over_lease-keeps r claim c =
      search (commits_rules, initial_claim-keeps, supersede_earlier-keeps, transfer_lease-keeps)

  -- The worker goes in when no row conflicts with it and the limit leaves room.
  module _
      (inserts : (r : AgentWorkerReservation) (db : Db)
        → any (worker_conflicts (new_worker r)) db.workers ≡ false
        → (leb r.max_active_workers 0 || leb r.max_active_workers (active_count db)) ≡ false
        → allowed r
        → P db
        → P (insert_worker (new_worker r) db)) where
    reserve_body-keeps :
        (r : AgentWorkerReservation) (claim : Option (ℕ × Text)) {db : Db}
        → allowed r
        → P db
        → Commits P (reserve_body r claim db)
    unfolding reserve_body
    reserve_body-keeps r claim {db} a c =
        search (commits_rules, take_over_lease-keeps, inserts) depth 9

    pub reserve_worker_keeps :
        (r : AgentWorkerReservation) (claim : Option (ℕ × Text)) (db : Db)
        → allowed r
        → P db
        → P (reserve_worker r claim db).1
    unfolding reserve_worker
    reserve_worker_keeps r claim db a c =
        Commits-transact db (reserve_body r claim db) c (reserve_body-keeps r claim a c)

  pub claim_worker_keeps :
      (t : Text) (pid : ℕ) (at : Text) (db : Db) → P db → P (claim_worker t pid at db).1
  unfolding claim_worker
  claim_worker_keeps t pid at db c = elim (Bool-cases (claimed_count t db == 1)) [
    | inl e ↦ rw e (claim_rows-keeps t pid at c)
    | inr e ↦ rw e (claim_rows-keeps t pid at c)
  ]

  beat-keeps : (t : Text) (pid : ℕ) (at : Text) {db : Db} → P db → P (beat t pid at db)
  unfolding beat
  beat-keeps t pid at c =
      stable.update_workers _ (λ w. record w { heartbeat_at = some at }) _
        (record { token = λ w. refl; project = λ w. refl; sleeps = λ w e h. h }) c

  extend_lease-keeps : (p : ℕ) (holder at : Text) {db : Db} → P db → P (extend_lease p holder at db)
  unfolding extend_lease
  extend_lease-keeps p holder at c = stable.update_leases _ _ _ (λ l. refl) c

  renew_owned-keeps :
      (o : Option AgentWorker) (t : Text) (pid : ℕ) (at expires_at : Text) {db : Db}
      → P db
      → Commits P (renew_owned o t pid at expires_at db)
  unfolding renew_owned
  renew_owned-keeps none t pid at expires_at c = search commits_rules
  renew_owned-keeps (some w) t pid at expires_at c =
      search (commits_rules, beat-keeps, extend_lease-keeps)

  pub renew_worker_keeps :
      (t : Text) (pid : ℕ) (at expires_at : Text) (db : Db)
      → P db
      → P (renew_worker t pid at expires_at db).1
  unfolding renew_worker
  renew_worker_keeps t pid at expires_at db c =
      Commits-transact db _ c (renew_owned-keeps _ t pid at expires_at c)

  pub supersede_abandoned_keeps :
      (p : ℕ) (holder : Text) (db : Db)
      → P db
      → P (supersede_abandoned_workers_for_lease p holder db).1
  unfolding supersede_abandoned_workers_for_lease is_active
  supersede_abandoned_keeps p holder db c =
      stable.update_workers _ supersede _
        (record { token = λ w. refl; project = λ w. refl; sleeps = λ w e h. cc }) c

  pub mark_cleaned_keeps :
      (t at : Text) (db : Db) → P db → P (mark_worker_service_cleaned t at db).1
  unfolding mark_worker_service_cleaned
  mark_cleaned_keeps t at db c =
      stable.update_workers _ (λ w. record w { service_cleaned_at = some at }) _
        (record { token = λ w. refl; project = λ w. refl; sleeps = λ w e h. h }) c
