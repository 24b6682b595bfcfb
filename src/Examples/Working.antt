-- ===== src/Examples/Working.antt =====
-- The theorems on workers at concrete inputs.
use clt_rs.Prelude.{◌≤◌, ◌≡◌, refl, false, none, some, List, [], ◌∷◌, arith, Text, codes, text_eq}
use clt_rs.Workers.Endings.{
  abandon_found, next_run_id, new_run, drop_lease, record_run, abandon_worker, is_observed,
  has_token, run_of_worker, may_abandon,
}
use clt_rs.Workers.Endings.Finalize.{
  mark_completed, is_in_finalization, finalization_outcome, mark_finalizing, finalize_recorded,
  is_finalizable, finalize_active, finalize_found, AgentWorkerFinalization, finalize_worker,
}
use clt_rs.Sql.{update, ok, any, count, find, delete}
use clt_rs.Projects.{
  update_project_after_run, outcome_finished_at, is_success, is_failure, project_after_run,
}
use clt_rs.Workers.{
  initial_claim, insert_worker, take_over_lease, reserve_body, in_state, is_claimable,
  claimed_count, active_count, reserve_worker, claim_worker,
}
use clt_rs.Store.{project_exists, holds_lease, WorkerState, Db, worker_lease_holder, is_active}
use clt_rs.Leases.{of_project, held_by}
use clt_rs.Projects.Failures.{after_runs, failures_since, failure_count-after_runs}
use clt_rs.Workers.Consistency.{IsConsistent}
use clt_rs.Workers.Histories.{Operation, reserve, claim, finalize, acquire, heartbeat, apply_all}
use clt_rs.Workers.Limits.{operations-IsConsistent, operations-limit}
use clt_rs.Workers.Claims.{claim_worker-exclusive}
use clt_rs.Workers.Reservations.{Reserved, reserve_worker-Reserved, reserve_worker-refused}
use clt_rs.Workers.Finalizations.{finalize_worker-idempotent, finalize_worker-refused}
use clt_rs.Workers.Abandonments.{
  abandon_worker-refused, abandon_worker-stranger, abandon_worker-successor,
}
use clt_rs.Examples.{
  project, scheduler, lease, registry, leased, reservation, finalization, abandonment, reserved,
  at_work, worker_in,
}

IsConsistent-registry : IsConsistent registry
unfolding count
IsConsistent-registry = record {
  one_lease = λ p. ground arith;
  one_worker = λ t. ground arith;
  one_active = λ p. ground arith;
  one_run = λ t. ground arith;
}

IsConsistent-reserved : IsConsistent reserved
unfolding count
IsConsistent-reserved = record {
  one_lease = λ p. ground arith;
  one_worker = λ t. ground arith;
  one_active = λ p. ground arith;
  one_run = λ t. ground arith;
}

IsConsistent-at_work : IsConsistent at_work
unfolding count
IsConsistent-at_work = record {
  one_lease = λ p. ground arith;
  one_worker = λ t. ground arith;
  one_active = λ p. ground arith;
  one_run = λ t. ground arith;
}

abbrev history : List Operation
history =
    acquire 1 scheduler (codes "100") (codes "160")
    ∷ reserve reservation none
    ∷ claim (codes "w1") 42 (codes "102")
    ∷ heartbeat (codes "w1") 42 (codes "110") (codes "170")
    ∷ finalize finalization
    ∷ []

operations-IsConsistent_example : IsConsistent (apply_all history registry)
operations-IsConsistent_example = operations-IsConsistent history registry IsConsistent-registry

operations-limit_example : active_count (apply_all history registry) ≤ 2
operations-limit_example =
    operations-limit 2 history registry (tt, (omega arith, (tt, (tt, (tt, tt)))))
      (unfold active_count count in omega arith)

claim_worker-exclusive_example :
    claim_worker
      (codes "w1")
      43
      (codes "103")
      (claim_worker (codes "w1") 42 (codes "102") reserved).1
    ≡ (false, (claim_worker (codes "w1") 42 (codes "102") reserved).1)
unfolding claim_worker claimed_count count is_claimable text_eq in_state holds_lease any
    worker_lease_holder
claim_worker-exclusive_example =
    claim_worker-exclusive (codes "w1") 42 43 (codes "102") (codes "103") reserved
      IsConsistent-reserved refl (λ e. omega arith)

reserve_worker-Reserved_example : Reserved reservation (reserve_worker reservation none leased).1
unfolding reserve_worker reserve_body active_count count any project_exists take_over_lease
    insert_worker held_by text_eq initial_claim
reserve_worker-Reserved_example = reserve_worker-Reserved reservation none leased refl

-- Nobody holds the lease that the reservation expects.
refused_reservation : (reserve_worker reservation none registry).0 ≡ ok false
unfolding reserve_worker reserve_body active_count count any project_exists take_over_lease
    insert_worker
refused_reservation = refl

reserve_worker-refused_example : (reserve_worker reservation none registry).1 ≡ registry
reserve_worker-refused_example =
    reserve_worker-refused reservation none registry (λ e. cc (e, refused_reservation))

abbrev late_finalization : AgentWorkerFinalization
late_finalization = record finalization { status = codes "failure" }

finalize_worker-idempotent_example :
    finalize_worker late_finalization (finalize_worker finalization at_work).1
    ≡ (ok (some 1), (finalize_worker finalization at_work).1)
unfolding finalize_worker finalize_found find has_token text_eq in_state finalize_active is_active
    count held_by worker_lease_holder is_finalizable finalize_recorded record_run any
    mark_finalizing project_exists is_failure is_success outcome_finished_at project_after_run
    update_project_after_run delete update drop_lease finalization_outcome is_in_finalization
    mark_completed new_run next_run_id run_of_worker
finalize_worker-idempotent_example =
    finalize_worker-idempotent finalization late_finalization 1 at_work IsConsistent-at_work refl
      refl

-- The worker has not been claimed by the process that finalizes it.
refused_finalization : (finalize_worker finalization reserved).0 ≡ ok none
unfolding finalize_worker finalize_found find has_token text_eq in_state finalize_active is_active
refused_finalization = refl

finalize_worker-refused_example : (finalize_worker finalization reserved).1 ≡ reserved
finalize_worker-refused_example =
    finalize_worker-refused finalization reserved (λ id e. cc (e, refused_finalization))

-- The worker is not in the state that was observed.
refused_abandonment : (abandon_worker abandonment reserved).0 ≡ ok false
unfolding abandon_worker abandon_found find is_observed text_eq in_state
refused_abandonment = refl

abandon_worker-refused_example : (abandon_worker abandonment reserved).1 ≡ reserved
abandon_worker-refused_example =
    abandon_worker-refused abandonment reserved (λ e. cc (e, refused_abandonment))

-- Another holder has the lease of the running worker's project.
abbrev overtaken : Db
overtaken = record at_work { leases = lease ∷ [] }

abandon_worker-stranger_example : abandon_worker abandonment overtaken ≡ (ok false, overtaken)
unfolding find is_observed text_eq in_state of_project may_abandon worker_lease_holder
abandon_worker-stranger_example =
    abandon_worker-stranger abandonment (worker_in WorkerState.running) lease overtaken refl refl
      refl (λ e. cc)

abandon_worker-successor_example :
    (abandon_worker
      (record abandonment { permitted_successor_holder = some scheduler })
      overtaken).1.leases
    ≡ overtaken.leases
unfolding find is_observed text_eq in_state of_project worker_lease_holder
abandon_worker-successor_example =
    abandon_worker-successor (record abandonment { permitted_successor_holder = some scheduler })
      (worker_in WorkerState.running) lease overtaken refl refl refl

abbrev runs : List (Text × Text)
runs =
    (codes "timeout", codes "300")
    ∷ (codes "failure", codes "200")
    ∷ (codes "success", codes "100")
    ∷ []

failure_count-after_runs_example : (after_runs runs project).failure_count ≡ failures_since 0 runs
failure_count-after_runs_example = failure_count-after_runs runs project
