-- ===== src/Scheduler/Reclaiming.antt =====
-- Whose lease the scheduler never takes back: src/scheduler.rs.
use clt_rs.Prelude.{
  ℕ, ◌≡◌, refl, ◌≢◌, Bool, true, false, Option, none, some, ◌++◌, arith, Text, codes, starts_with,
}
use clt_rs.Sql.{any, delete}
use clt_rs.Sql.Laws.{count_pos}
use clt_rs.Store.{Db}
use clt_rs.Leases.{AgentLeaseRecord, release_lease, held_by}
use clt_rs.Scheduler.Reclaim.{
  strip_prefix, before_dash, parse_u32, pid_after, recovered_supervisor_pid, find_disposition,
  from_guardian_holder, guardian_process_id, find_pid, interactive_lease_holder_pid,
  agent_lease_holder_pid, is_dead, is_worker_fenced, agent_pid_liveness,
  agent_lease_holder_liveness, interactive_lease_holder_is_proven_dead, agent_lease_is_reclaimable,
  try_reclaim_inactive_agent_lease, guardian_holder_prefix,
}
use mathlib.Core.Option

not_interactive :
    (rest : Text) → interactive_lease_holder_pid (codes "clt-reattached-" ++ rest) ≡ none
unfolding interactive_lease_holder_pid guardian_process_id from_guardian_holder starts_with
    find_disposition guardian_holder_prefix find_pid pid_after strip_prefix Option.bind
not_interactive rest = refl

recovered :
    (rest : Text) (pid : ℕ)
    → parse_u32 (before_dash rest) ≡ some pid
    → recovered_supervisor_pid (codes "clt-reattached-" ++ rest) ≡ some pid
unfolding recovered_supervisor_pid pid_after strip_prefix Option.bind
recovered rest pid q = q

module _ (local_process_is_running : ℕ → Option Bool) (process_id : ℕ) where
  not_dead :
      (holder : Text) (pid : ℕ)
      → recovered_supervisor_pid holder ≡ some pid
      → local_process_is_running pid ≢ some false
      → is_dead (agent_lease_holder_liveness local_process_is_running process_id holder) ≡ false
  unfolding agent_lease_holder_liveness agent_lease_holder_pid agent_pid_liveness is_dead
  not_dead holder pid q n = ground arith

  not_reclaimable :
      (project_id : ℕ) (lease : AgentLeaseRecord) (current : Bool) (now : ℕ) (db : Db) (pid : ℕ)
      → interactive_lease_holder_pid lease.holder ≡ none
      → recovered_supervisor_pid lease.holder ≡ some pid
      → local_process_is_running pid ≢ some false
      → try_reclaim_inactive_agent_lease local_process_is_running process_id project_id lease
          current now db
        ≡ (false, db)
  unfolding try_reclaim_inactive_agent_lease agent_lease_is_reclaimable
      interactive_lease_holder_is_proven_dead
  not_reclaimable project_id lease current now db pid i q n =
      ground (arith, not_dead lease.holder pid q n)

  -- The lease of a reattached supervisor, whose name carries a process id that is not known to be
  -- dead, is never taken back, however long ago it ran out.
  pub reclaim-spares_reattached :
      (project_id : ℕ) (lease : AgentLeaseRecord) (current : Bool) (now : ℕ) (db : Db) (rest : Text)
      (pid : ℕ)
      → lease.holder ≡ codes "clt-reattached-" ++ rest
      → parse_u32 (before_dash rest) ≡ some pid
      → local_process_is_running pid ≢ some false
      → try_reclaim_inactive_agent_lease local_process_is_running process_id project_id lease
          current now db
        ≡ (false, db)
  reclaim-spares_reattached project_id lease current now db rest pid e q n =
      not_reclaimable project_id lease current now db pid (rw e (not_interactive rest))
        (rw e (recovered rest pid q)) n

  -- Where the scheduler takes a lease back, its holder had a lease of the project, no active
  -- worker ran under it, and all that changes is that it is deleted.
  pub reclaim-releases :
      (project_id : ℕ) (lease : AgentLeaseRecord) (current : Bool) (now : ℕ) (db : Db)
      → (try_reclaim_inactive_agent_lease local_process_is_running process_id project_id lease
          current now db).0
        ≡ true
      → (is_worker_fenced db project_id lease.holder ≡ false)
        × (any (held_by project_id lease.holder) db.leases ≡ true)
        × ((try_reclaim_inactive_agent_lease local_process_is_running process_id project_id lease
              current now db).1
            ≡ record db { leases = delete (held_by project_id lease.holder) db.leases })
  unfolding try_reclaim_inactive_agent_lease release_lease
  reclaim-releases project_id lease current now db h =
      ground (arith, count_pos (held_by project_id lease.holder) db.leases)
