-- ===== src/Workers/Reservations.antt =====
-- What a reservation leaves behind: `reserve_worker` of src/agent/repositories/workers_leases.rs.
use clt_rs.Prelude.{
  ℕ, ◌≤◌, ◌≡◌, refl, ap, ◌∙◌, ◌≢◌, Bool, true, false, ◌&&◌, ◌||◌, Option, none, some, List, [], ◌∷◌,
  ◌++◌, arith, leb, ◌==◌, ==_refl, Text, text_eq_refl,
}
use clt_rs.Sql.{ok, any, count, update}
use clt_rs.Sql.Laws.{
  any-append, any-update, any-update_made, count_pos, count-append, count-update-le,
}
use clt_rs.Sql.Transactions.{Settles, Settles-good, Settles-refused, settles_rules, IsTrue}
use clt_rs.Store.{Lease, AgentWorker, Db, worker_lease_holder, is_active, active_in}
use clt_rs.Leases.{held_by}
use clt_rs.Workers.{
  AgentWorkerReservation, active_count, new_worker, insert_worker, transfer_lease,
  supersede_earlier, is_earlier_abandoned, supersede, claim_rows, initial_claim, is_claimable,
  start, take_over_lease, reserve_body, reserve_worker, in_state,
}
use clt_rs.Workers.Endings.{has_token}

-- The worker of the reservation is active in its project.
unfoldable pub is_reserved : AgentWorkerReservation → AgentWorker → Bool
is_reserved r w = has_token r.worker_token w && active_in r.project_id w

-- The worker is active, its project's lease is the worker's, and no more workers than allowed are
-- active.
pub record Reserved (r : AgentWorkerReservation) (db : Db) : Type 0 where
  pub placed : any (is_reserved r) db.workers ≡ true
  pub holds : any (held_by r.project_id (worker_lease_holder r.worker_token)) db.leases ≡ true
  pub within : active_count db ≤ r.max_active_workers

module _ (r : AgentWorkerReservation) where
  placed-insert : (ws : List AgentWorker) → any (is_reserved r) (ws ++ new_worker r ∷ []) ≡ true
  unfolding is_reserved has_token active_in new_worker is_active any
  placed-insert ws = ground (
    arith,
    any-append (is_reserved r) ws (new_worker r ∷ []),
    text_eq_refl r.worker_token,
    ==_refl r.project_id,
  )

  placed-supersede :
      (ws : List AgentWorker)
      → any (is_reserved r) (update (is_earlier_abandoned r.project_id r.worker_token) supersede ws)
        ≡ any (is_reserved r) ws
  placed-supersede ws =
      any-update (is_reserved r) (is_earlier_abandoned r.project_id r.worker_token) supersede ws
        (λ w e.
          unfold is_reserved has_token active_in is_earlier_abandoned is_active in ground arith)

  holds-transfer :
      (ls : List Lease)
      → (count (held_by r.project_id r.expected_lease_holder) ls == 1) ≡ true
      → any (held_by r.project_id (worker_lease_holder r.worker_token)) (
          update
            (held_by r.project_id r.expected_lease_holder)
            (λ l. record l { holder = worker_lease_holder r.worker_token })
            ls)
        ≡ true
  holds-transfer ls h =
      any-update_made _ _ _ ls
        (λ l e. unfold held_by in ground (arith, text_eq_refl (worker_lease_holder r.worker_token)))
        (ground (arith, count_pos (held_by r.project_id r.expected_lease_holder) ls))

  within-insert :
      (db : Db)
      → (leb r.max_active_workers 0 || leb r.max_active_workers (active_count db)) ≡ false
      → active_count (insert_worker (new_worker r) db) ≤ r.max_active_workers
  unfolding active_count insert_worker count new_worker
  within-insert db room =
      ground (arith, count-append (λ w. is_active w.state) db.workers (new_worker r ∷ []))

  within-supersede :
      (ws : List AgentWorker)
      → count
          (λ w. is_active w.state)
          (update (is_earlier_abandoned r.project_id r.worker_token) supersede ws)
        ≤ count (λ w. is_active w.state) ws
  within-supersede ws = count-update-le _ _ supersede ws (λ w e h. unfold is_active in cc)

  taken_over :
      (db : Db)
      → (count (held_by r.project_id r.expected_lease_holder) db.leases == 1) ≡ true
      → (leb r.max_active_workers 0 || leb r.max_active_workers (active_count db)) ≡ false
      → Reserved r (
          supersede_earlier r.project_id r.worker_token (
            transfer_lease r.project_id r.expected_lease_holder
              (worker_lease_holder r.worker_token)
              (insert_worker (new_worker r) db)))
  unfolding supersede_earlier transfer_lease insert_worker
  taken_over db h room = record {
    placed =
        ground
          (arith, placed-supersede (db.workers ++ new_worker r ∷ []), placed-insert db.workers);
    holds = holds-transfer db.leases h;
    within =
        unfold active_count in
        ground (arith, within-supersede (db.workers ++ new_worker r ∷ []), within-insert db room);
  }

  Reserved-claim_rows :
      (pid : ℕ) (at : Text) (db : Db)
      → Reserved r db
      → Reserved r (claim_rows r.worker_token pid at db)
  unfolding claim_rows
  Reserved-claim_rows pid at db c = record {
    placed =
        any-update (is_reserved r) (is_claimable r.worker_token db.leases) (start pid at) db.workers
          (λ w e.
            unfold is_reserved has_token active_in is_claimable is_active in_state in ground arith)
        ∙ c.placed;
    holds = c.holds;
    within =
        unfold active_count in
        ground (
          arith,
          c.within,
          count-update-le (λ w. is_active w.state) (is_claimable r.worker_token db.leases)
              (start pid at) db.workers
              (λ w e h. unfold is_claimable is_active in_state in ground arith),
        );
  }

  initial_claim-Settles :
      (claim : Option (ℕ × Text)) (db : Db)
      → Reserved r db
      → Settles (λ d b. Reserved r d) IsTrue (initial_claim r.worker_token claim db)
  unfolding initial_claim
  initial_claim-Settles none db c = search settles_rules
  initial_claim-Settles (some (pid, at)) db c = search (settles_rules, Reserved-claim_rows)

  reserve_body-Settles :
      (claim : Option (ℕ × Text)) (db : Db)
      → Settles (λ d b. Reserved r d) IsTrue (reserve_body r claim db)
  unfolding reserve_body take_over_lease insert_worker
  reserve_body-Settles claim db = search (settles_rules, initial_claim-Settles, taken_over) depth 12

-- A reservation that is answered `true`, with or without a claim in it, leaves its worker active,
-- with its project's lease, and no more workers active than it allows.
pub reserve_worker-Reserved :
    (r : AgentWorkerReservation) (claim : Option (ℕ × Text)) (db : Db)
    → (reserve_worker r claim db).0 ≡ ok true
    → Reserved r (reserve_worker r claim db).1
unfolding reserve_worker
reserve_worker-Reserved r claim db h =
    Settles-good db _ true (reserve_body-Settles r claim db) h refl

-- A reservation that is not answered `true`, refused or failed at any point, changes nothing.
pub reserve_worker-refused :
    (r : AgentWorkerReservation) (claim : Option (ℕ × Text)) (db : Db)
    → (reserve_worker r claim db).0 ≢ ok true
    → (reserve_worker r claim db).1 ≡ db
unfolding reserve_worker
reserve_worker-refused r claim db n =
    Settles-refused db _ (reserve_body-Settles r claim db) (λ a e g. n (e ∙ ap ok g))
