-- ===== src/Scheduler/Reclaim.antt =====
-- Whose lease the scheduler takes back: the process that a holder's name carries, its liveness, and
-- `try_reclaim_inactive_agent_lease` of src/scheduler.rs, with `recovered_supervisor_pid` of
-- src/session_recovery.rs and the guardians' holders of src/session_control.rs. The process table is
-- the operating system's: `local_process_is_running` and the own process id are parameters.
use mathlib.Core.Option
use clt_rs.Prelude.{
  ℕ, Bool, true, false, ◌&&◌, ◌||◌, not, Option, none, some, List, [], ◌∷◌, if◌then◌else◌, leb,
  ◌==◌, is_some, Text, codes, text_eq, starts_with, parse_u64,
}
use clt_rs.Sql.{any}
use clt_rs.Store.{Db, project_exists, is_active}
use clt_rs.Sessions.{AgentSessionControlRecord}
use clt_rs.Leases.{AgentLeaseRecord, release_lease}

unfoldable pub strip_prefix : Text → Text → Option Text
strip_prefix s [] = some s
strip_prefix [] (p ∷ ps) = none
strip_prefix (x ∷ xs) (p ∷ ps) = let rest = strip_prefix xs ps in if x == p then rest else none

-- `s.split('-').next()`.
unfoldable pub before_dash : Text → Text
before_dash [] = []
before_dash (c ∷ cs) = let rest = before_dash cs in if c == b'-' then [] else c ∷ rest

abbrev pub u32_max : ℕ
u32_max = 4294967295

-- Rust's `parse::<u32>`: `parse::<u64>` of a value that fits.
unfoldable pub parse_u32 : Text → Option ℕ
parse_u32 s = elim (parse_u64 s) [ none ↦ none | some n ↦ if leb n u32_max then some n else none ]

-- The process id after a prefix, up to the next dash.
unfoldable pub pid_after : Text → Text → Option ℕ
pid_after prefix holder = Option.bind (strip_prefix holder prefix) (λ s. parse_u32 (before_dash s))

unfoldable pub recovered_supervisor_pid : Text → Option ℕ
recovered_supervisor_pid holder = pid_after (codes "clt-reattached-") holder

abbrev pub or_pid : Option ℕ → Option ℕ → Option ℕ
or_pid none b = b
or_pid (some a) b = some a

pub data InteractiveGuardianDisposition : Type 0 where
  resume_exec preserve_idle_session restore_stopped preserve_shared_session restore_stopped_shared :
      InteractiveGuardianDisposition

unfoldable pub guardian_holder_prefix : InteractiveGuardianDisposition → Text
guardian_holder_prefix resume_exec = codes "clt-interactive-worker"
guardian_holder_prefix preserve_idle_session = codes "clt-idle-interactive-worker"
guardian_holder_prefix restore_stopped = codes "clt-stopped-interactive-worker"
guardian_holder_prefix preserve_shared_session = codes "clt-shared-interactive-worker"
guardian_holder_prefix restore_stopped_shared = codes "clt-stopped-shared-interactive-worker"

unfoldable pub holds_project_lease : InteractiveGuardianDisposition → Bool
holds_project_lease preserve_shared_session = false
holds_project_lease restore_stopped_shared = false
holds_project_lease _ = true

-- The first disposition of the list whose prefix the holder has.
unfoldable pub find_disposition :
    Text → List InteractiveGuardianDisposition → Option InteractiveGuardianDisposition
find_disposition holder [] = none
find_disposition holder (d ∷ ds) =
    let rest = find_disposition holder ds in
    if starts_with holder (guardian_holder_prefix d) then some d else rest

unfoldable pub from_guardian_holder : Text → Option InteractiveGuardianDisposition
unfolding find_disposition
from_guardian_holder holder =
    if starts_with holder (codes "clt-stopped-readonly-interactive-worker-")
    then some restore_stopped_shared
    else if starts_with holder (codes "clt-readonly-interactive-worker-")
    then some preserve_shared_session
    else find_disposition holder (
        resume_exec ∷ preserve_idle_session ∷ restore_stopped ∷ preserve_shared_session
        ∷ restore_stopped_shared ∷ [])

unfoldable pub guardian_process_id : Text → Option ℕ
guardian_process_id holder = Option.bind (from_guardian_holder holder) (λ d.
    Option.bind (strip_prefix holder (guardian_holder_prefix d))
      (λ suffix. pid_after (codes "-") suffix))

-- The first process id after one of the prefixes.
unfoldable pub find_pid : Text → List Text → Option ℕ
find_pid holder [] = none
find_pid holder (p ∷ ps) = let rest = find_pid holder ps in or_pid (pid_after p holder) rest

unfoldable pub interactive_lease_holder_pid : Text → Option ℕ
unfolding find_pid
interactive_lease_holder_pid holder = or_pid (guardian_process_id holder) (
    find_pid holder (
      codes "clt-stopped-shared-interactive-"
      ∷ codes "clt-shared-interactive-"
      ∷ codes "clt-stopped-readonly-interactive-"
      ∷ codes "clt-readonly-interactive-"
      ∷ codes "clt-stopped-interactive-"
      ∷ codes "clt-idle-interactive-"
      ∷ codes "clt-interactive-"
      ∷ []))

abbrev pub or_text : Option Text → Option Text → Option Text
or_text none b = b
or_text (some a) b = some a

unfoldable pub agent_lease_holder_pid : Text → Option ℕ
agent_lease_holder_pid holder = or_pid (recovered_supervisor_pid holder) (
    Option.bind
      (or_text (strip_prefix holder (codes "clt-agent-")) (
        or_text (strip_prefix holder (codes "clt-scheduler-"))
          (strip_prefix holder (codes "clt-interactive-"))))
      parse_u32)

pub data AgentLeaseHolderLiveness : Type 0 where
  current_process alive dead unknown : AgentLeaseHolderLiveness

unfoldable pub is_dead : AgentLeaseHolderLiveness → Bool
is_dead dead = true
is_dead _ = false

abbrev pub running_liveness : Option Bool → AgentLeaseHolderLiveness
running_liveness none = unknown
running_liveness (some true) = alive
running_liveness (some false) = dead

-- `list_active_workers`, whose rows join their project: whether one of them runs under the lease.
unfoldable pub is_worker_fenced : Db → ℕ → Text → Bool
is_worker_fenced db project_id holder =
    any
      (λ w.
        is_active w.state
        && project_exists w.project_id db
        && w.project_id == project_id
        && text_eq w.lease_holder holder)
      db.workers

abbrev pub is_interactive_holder : Text → AgentSessionControlRecord → Bool
is_interactive_holder holder c = elim c.interactive_holder [
  | none ↦ false
  | some h ↦ text_eq h holder
]

-- A session of the project that names the holder.
unfoldable pub is_claimed_by_session : Db → ℕ → Text → Bool
is_claimed_by_session db project_id holder =
    any (λ c. c.project_id == project_id && is_interactive_holder holder c) db.controls

module _ (local_process_is_running : ℕ → Option Bool) (process_id : ℕ) where
  unfoldable pub agent_pid_liveness : ℕ → AgentLeaseHolderLiveness
  agent_pid_liveness pid =
      if pid == process_id then current_process else running_liveness (local_process_is_running pid)

  unfoldable pub agent_lease_holder_liveness : Text → AgentLeaseHolderLiveness
  agent_lease_holder_liveness holder = elim (agent_lease_holder_pid holder) [
    | none ↦ unknown
    | some pid ↦ agent_pid_liveness pid
  ]

  -- The holder names an interactive process, and that process is dead.
  unfoldable pub interactive_lease_holder_is_proven_dead : Text → Bool
  interactive_lease_holder_is_proven_dead holder = elim (interactive_lease_holder_pid holder) [
    | none ↦ false
    | some pid ↦ is_dead (agent_pid_liveness pid)
  ]

  unfoldable pub reclaimable_liveness : Bool → AgentLeaseHolderLiveness → Bool
  reclaimable_liveness reclaim_current dead = true
  reclaimable_liveness reclaim_current current_process = reclaim_current
  reclaimable_liveness reclaim_current _ = false

  abbrev pub has_run_out : Option ℕ → ℕ → Bool
  has_run_out none now = false
  has_run_out (some expires_at) now = leb expires_at now

  unfoldable pub agent_lease_is_reclaimable : AgentLeaseRecord → Bool → ℕ → Bool
  agent_lease_is_reclaimable lease reclaim_current now =
      if is_some (recovered_supervisor_pid lease.holder)
      then is_dead (agent_lease_holder_liveness lease.holder)
      else has_run_out (parse_u64 lease.expires_at) now
        || reclaimable_liveness reclaim_current (agent_lease_holder_liveness lease.holder)

  -- The store's calls are not in one transaction: nothing else runs between them here.
  unfoldable pub try_reclaim_inactive_agent_lease : ℕ → AgentLeaseRecord → Bool → ℕ → Db → Bool × Db
  try_reclaim_inactive_agent_lease project_id lease reclaim_current now db =
      let ordinarily_reclaimable = agent_lease_is_reclaimable lease reclaim_current now in
      let orphaned_interactive_lease =
        not ordinarily_reclaimable
        && interactive_lease_holder_is_proven_dead lease.holder
        && not (is_claimed_by_session db project_id lease.holder) in
      if not ordinarily_reclaimable && not orphaned_interactive_lease
      then (false, db)
      else if is_worker_fenced db project_id lease.holder
      then (false, db)
      else release_lease project_id lease.holder db
