-- ===== src/Examples/Leasing.antt =====
-- The theorems on leases and on Git journals at concrete inputs.
use clt_rs.Prelude.{
  ◌≡◌, refl, ◌↔◌, true, false, ◌&&◌, not, none, some, List, [], ◌∷◌, ◌++◌, arith, if◌then◌else◌,
  leb, Text, codes, text_eq, cast_digits, cast_integer, like_prefix, decimal, decimal_fuel,
}
use clt_rs.Store.{
  worker_lease_holder, is_active, active_in, GitFinalizationRecord, Db, project_exists,
}
use clt_rs.Leases.Timestamps.{is_expired-cast}
use clt_rs.Leases.{
  is_reattached, worker_fences, insert_lease, of_project, held_by, is_expired, new_lease,
  try_acquire_lease, release_lease,
}
use clt_rs.Sql.{find, delete, update, ok, err, foreign_key_failed, any, count}
use clt_rs.GitLeases.{
  shares_only_conversation, resumes_open_journal, resume_token, is_shared_holder, is_reclaimable,
  has_unfinished_journal, guardian_waits, guardian_launched, nonblocking_in, of_session,
  is_stale_fence, controls_allow_finalization, has_active_worker, clear_reclaimable,
  has_open_journal, insert_guarded, try_acquire_git_finalization_lease, repair_fences,
  nonblocking_control, repair_fence, resume_token_prefix,
}
use clt_rs.Git.{
  is_terminal, is_open, AgentGitMode, commit, mode_database_value, mode_from_database,
  GitFinalizationState, working, tracking, commit_pending, completed, cancelled,
  state_from_database, state_database_value, is_finalizing,
}
use clt_rs.Git.Values.{state_from_database_iff}
use clt_rs.Git.Transitions.{Moves, here, move, completed_needs_commit, visits_commit}
use clt_rs.Sessions.{AgentSessionControlRecord, resume_requested}
use clt_rs.Leases.Acquire.{has_live_lease, try_acquire_lease_decision}
use clt_rs.Leases.Ownership.{LeaseKeyUnique, release-handover}
use clt_rs.Leases.Statements.{
  Statement, clear, insert, reclaim, renew, release, transfer, hand, perform_all, lets_go, reclaims,
}
use clt_rs.Leases.Interleavings.{reattached_survives, worker_lease_survives}
use clt_rs.GitLeases.Guard.{IsGuarded, finalization_lease-IsGuarded}
use clt_rs.Examples.{scheduler, lease, registry, leased, at_work}

try_acquire_lease_decision_example :
    (try_acquire_lease 1 (codes "p2") (codes "120") (codes "180") leased).0 ≡ (
      if has_live_lease 1 (codes "120") leased
      then ok false
      else if project_exists 1 leased
      then ok true
      else err foreign_key_failed)
try_acquire_lease_decision_example =
    try_acquire_lease_decision 1 (codes "p2") (codes "120") (codes "180") leased

leased-LeaseKeyUnique : LeaseKeyUnique leased
leased-LeaseKeyUnique p = unfold of_project count in ground arith

release-handover_example :
    ((release_lease 1 scheduler leased).0 ≡ true)
    × ((try_acquire_lease 1
          (codes "p2")
          (codes "120")
          (codes "180")
          (release_lease 1 scheduler leased).1).0
        ≡ ok true)
unfolding any held_by text_eq project_exists
release-handover_example =
    release-handover 1 scheduler (codes "p2") (codes "120") (codes "180") leased
      leased-LeaseKeyUnique refl refl

is_expired-cast_example : is_expired [] (codes "200") lease ≡ (
    leb (cast_digits 0 lease.expires_at) (cast_digits 0 (codes "200"))
    && not (is_reattached lease.holder)
    && not (worker_fences [] lease))
is_expired-cast_example = is_expired-cast [] (codes "200") lease refl refl refl

abbrev rush : List Statement
rush =
    clear 1 (codes "200")
    ∷ insert (new_lease 1 (codes "p2") (codes "200") (codes "260"))
    ∷ insert (new_lease 1 (codes "p3") (codes "201") (codes "261"))
    ∷ renew 1 scheduler (codes "300")
    ∷ release 1 (codes "p2")
    ∷ reclaim 1 (codes "400") (some (codes "p2"))
    ∷ transfer 1 scheduler (codes "clt-worker-w2")
    ∷ hand 1 (codes "p2") (codes "g") (codes "210") (codes "270")
    ∷ []

abbrev reattached : Text
reattached = codes "clt-reattached-9-a"

abbrev recovered : Db
recovered = record registry { leases = record lease { holder = reattached } ∷ [] }

reattached_survives_example : any (held_by 1 reattached) (perform_all rush recovered).leases ≡ true
unfolding is_reattached like_prefix any held_by text_eq lets_go reclaims
reattached_survives_example = reattached_survives rush 1 reattached recovered refl refl refl refl

worker_lease_survives_example :
    any (held_by 1 (codes "clt-worker-w1")) (perform_all rush at_work).leases ≡ true
unfolding any text_eq worker_lease_holder is_active held_by lets_go
worker_lease_survives_example =
    worker_lease_survives rush 1 (codes "clt-worker-w1") at_work refl refl refl

abbrev journal : GitFinalizationRecord
journal = record {
  project_id = 1;
  codex_session_id = codes "s1";
  state = commit_pending;
  git_mode = commit;
  starting_head = none;
  branch_ref = none;
  upstream_ref = none;
  worktree_baseline = codes "";
  task_identity = none;
  owner_run_token = none;
  commit_oid = none;
  generation = 12;
  last_error = none;
  created_at = codes "100";
  updated_at = codes "100";
  completed_at = none;
  acknowledged_at = none;
  acknowledged_run_id = none;
}

-- The control resumes an earlier generation of the journal.
abbrev stale : AgentSessionControlRecord
stale = record {
  project_id = 1;
  codex_session_id = codes "s1";
  state = resume_requested;
  child_pid = none;
  run_token = some (resume_token_prefix ++ codes "3");
  interactive_holder = none;
  interactive_launch_token = none;
  stdout_path = none;
  stderr_path = none;
  updated_at = codes "100";
}

abbrev journalled : Db
journalled = record leased { journals = journal ∷ []; controls = stale ∷ [] }

finalization_lease-IsGuarded_example :
    IsGuarded
      (new_lease 1 (codes "g") (codes "200") (codes "260"))
      (try_acquire_git_finalization_lease 1
        (codes "g")
        (codes "200")
        (codes "260")
        none
        journalled).1
unfolding try_acquire_git_finalization_lease insert_guarded has_open_journal any clear_reclaimable
    has_active_worker repair_fences controls_allow_finalization update is_stale_fence like_prefix
    of_session text_eq is_open repair_fence nonblocking_control nonblocking_in is_terminal
    guardian_launched guardian_waits has_unfinished_journal is_reclaimable is_shared_holder
    resume_token resumes_open_journal shares_only_conversation insert_lease is_reattached of_project
    cast_digits cast_integer decimal decimal_fuel delete find active_in is_active project_exists
finalization_lease-IsGuarded_example =
    finalization_lease-IsGuarded 1 (codes "g") (codes "200") (codes "260") none journalled refl

state_from_database_iff_example :
    (state_from_database (codes "working") ≡ some working)
    ↔ (codes "working" ≡ state_database_value working)
state_from_database_iff_example = state_from_database_iff (codes "working") working

proof : Moves working completed
unfolding clt_rs.Git.can_transition_to
proof = move {t = tracking} refl (move {t = commit_pending} refl (move refl here))

completed_needs_commit_example : visits_commit proof ≡ true
completed_needs_commit_example = completed_needs_commit proof refl refl
