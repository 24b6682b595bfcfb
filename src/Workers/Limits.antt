-- ===== src/Workers/Limits.antt =====
-- What holds of the registry after any sequence of the operations of
-- src/agent/repositories/workers_leases.rs.
use clt_rs.Prelude.{ℕ, ◌≤◌, ◌≡◌, false, ◌||◌, List, [], ◌∷◌, arith, leb}
use clt_rs.Sql.{count}
use clt_rs.Sql.Laws.{count-append}
use clt_rs.Store.{Db, is_active}
use clt_rs.Workers.{AgentWorkerReservation, insert_worker, new_worker, active_count}
use clt_rs.Workers.Consistency.{
  IsConsistent, IsConsistent-IsStable, IsLimited, IsLimited-IsStable, insert-workers,
}
use clt_rs.Workers.Histories.{Operation, reserve, Allowed, apply_all, AllAllowed, apply_all-keeps}

one-Allowed : (o : Operation) → Allowed (λ r. Unit {0}) o
one-Allowed (reserve r c) = tt
one-Allowed _ = tt

every-AllAllowed : (os : List Operation) → AllAllowed (λ r. Unit {0}) os
every-AllAllowed [] = tt
every-AllAllowed (o ∷ os) = (one-Allowed o, every-AllAllowed os)

-- Whatever operations run, in whatever order and from whatever processes, a consistent registry
-- stays consistent: one lease and one active worker to a project, one row to a worker's token and
-- one run to a worker.
pub operations-IsConsistent :
    (os : List Operation) (db : Db) → IsConsistent db → IsConsistent (apply_all os db)
unfolding insert_worker
operations-IsConsistent os db c =
    apply_all-keeps IsConsistent IsConsistent-IsStable (λ r. Unit)
      (λ r d free room a k. insert-workers (new_worker r) d free k) os db (every-AllAllowed os) c

-- Every reservation of the list asks for at most `n` workers.
abbrev pub AsksAtMost : ℕ → AgentWorkerReservation → Type 0
AsksAtMost n r = r.max_active_workers ≤ n

inserted :
    (n : ℕ) (r : AgentWorkerReservation) (db : Db)
    → (leb r.max_active_workers 0 || leb r.max_active_workers (active_count db)) ≡ false
    → r.max_active_workers ≤ n
    → active_count db ≤ n
    → active_count (insert_worker (new_worker r) db) ≤ n
unfolding active_count insert_worker count
inserted n r db room b h =
    ground (arith, count-append (λ w. is_active w.state) db.workers (new_worker r ∷ []))

-- Where no reservation asks for more than `n` workers and at most `n` are active at first,
-- whatever operations run, in whatever order, at most `n` workers are active in all projects
-- together.
pub operations-limit :
    (n : ℕ) (os : List Operation) (db : Db)
    → AllAllowed (AsksAtMost n) os
    → active_count db ≤ n
    → active_count (apply_all os db) ≤ n
operations-limit n os db a h =
    (apply_all-keeps (IsLimited n) (IsLimited-IsStable n) (AsksAtMost n)
      (λ r d free room b k. record { limit = inserted n r d room b k.limit }) os db a
      (record { limit = h })).limit
