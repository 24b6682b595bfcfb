-- ===== src/GitLeases/Guard.antt =====
-- When the finalization lease of a project is handed out: `try_acquire_git_finalization_lease` of
-- src/agent/repositories/workers_leases.rs.
use clt_rs.Prelude.{
  ℕ, ◌≡◌, refl, inl, inr, Bool, true, false, ◌&&◌, Option, some, List, [], ◌∷◌, arith, Bool-cases,
  Text, text_eq_refl,
}
use clt_rs.Sql.{SqlResult, ok, err, transact, any, find, select}
use clt_rs.Sql.Laws.{any_of_find}
use clt_rs.Git.{is_open}
use clt_rs.Sessions.{AgentSessionControlRecord}
use clt_rs.Store.{Lease, GitFinalizationRecord, Db}
use clt_rs.Leases.{new_lease, of_project, insert_lease}
use clt_rs.GitLeases.{
  commit_insert, column_eq, resume_token, of_session, resumes_open_journal, nonblocking_in,
  nonblocking_control, controls_allow_finalization, has_open_journal, has_active_worker,
  is_stale_fence, repair_fence, repair_fences, clear_reclaimable, insert_guarded,
  try_acquire_git_finalization_lease,
}
use clt_rs.Leases.Acquire.{select-insert_lease}

insert_lease-journals :
    (lease : Lease) (db : Db) (p : ℕ)
    → (has_open_journal p (insert_lease lease db).1 ≡ has_open_journal p db)
      × (has_active_worker p (insert_lease lease db).1 ≡ has_active_worker p db)
      × (controls_allow_finalization p (insert_lease lease db).1 ≡ controls_allow_finalization p db)
unfolding insert_lease has_open_journal has_active_worker controls_allow_finalization
insert_lease-journals lease db p = (ground arith, ground arith, ground arith)

-- What a granted finalization lease stands on.
pub record IsGuarded (lease : Lease) (db : Db) : Type 0 where
  pub journal_open : has_open_journal lease.project_id db ≡ true
  pub no_worker : has_active_worker lease.project_id db ≡ false
  pub no_control : controls_allow_finalization lease.project_id db ≡ true
  pub only_lease : select (of_project lease.project_id) db.leases ≡ lease ∷ []

insert_guarded-IsGuarded :
    (lease : Lease) (db : Db)
    → (insert_guarded lease db).0 ≡ ok true
    → IsGuarded lease (insert_guarded lease db).1
unfolding insert_guarded
insert_guarded-IsGuarded lease db h =
    ground (arith, insert_lease-journals lease db lease.project_id, select-insert_lease lease db)

committed_insert :
    (P : Db → Type 0) (db : Db) (r : SqlResult Bool × Db)
    → (transact db (commit_insert r)).0 ≡ ok true
    → (r.0 ≡ ok true → P r.1)
    → P (transact db (commit_insert r)).1
committed_insert P db (ok b, d) h k = k h
committed_insert P db (err e, d) h k = absurd (ground arith)

-- When the finalization lease is granted, the project has an unfinished journal, no active worker
-- and no session control that blocks, and the lease is the project's only one.
pub finalization_lease-IsGuarded :
    (project_id : ℕ) (holder acquired_at expires_at : Text) (reclaim : Option Text) (db : Db)
    → (try_acquire_git_finalization_lease project_id holder acquired_at expires_at reclaim db).0
      ≡ ok true
    → IsGuarded
        (new_lease project_id holder acquired_at expires_at)
        (try_acquire_git_finalization_lease project_id holder acquired_at expires_at reclaim db).1
unfolding try_acquire_git_finalization_lease
finalization_lease-IsGuarded project_id holder acquired_at expires_at reclaim db h =
    committed_insert (IsGuarded (new_lease project_id holder acquired_at expires_at)) db _ h (
      insert_guarded-IsGuarded (new_lease project_id holder acquired_at expires_at) (
        clear_reclaimable project_id acquired_at reclaim (repair_fences project_id acquired_at db)))

found_session :
    (p : GitFinalizationRecord → Bool) (journals : List GitFinalizationRecord)
    → any p journals ≡ true
    → (g : GitFinalizationRecord) × (find p journals ≡ some g) × (p g ≡ true)
unfolding any find
found_session p [] h = absurd (ground arith)
found_session p (g ∷ gs) h = elim (Bool-cases (p g)) [
  | inl e ↦ (g, rw e refl, e)
  | inr e ↦ let (g', f, e') = found_session p gs (ground arith) in (g', rw e f, e')
]

kept :
    (now : Text) (journals : List GitFinalizationRecord) (sc : AgentSessionControlRecord)
    → ((repair_fence now journals sc).state ≡ sc.state)
      × ((repair_fence now journals sc).child_pid ≡ sc.child_pid)
      × ((repair_fence now journals sc).interactive_holder ≡ sc.interactive_holder)
      × ((repair_fence now journals sc).interactive_launch_token ≡ sc.interactive_launch_token)
unfolding repair_fence
kept now journals sc = (refl, refl, refl, refl)

repaired-resumes :
    (now : Text) (journals : List GitFinalizationRecord) (sc : AgentSessionControlRecord)
    → any (λ g. of_session sc g && is_open g.state) journals ≡ true
    → any
        (λ g.
          of_session (repair_fence now journals sc) g
          && is_open g.state
          && column_eq (repair_fence now journals sc).run_token (resume_token g))
        journals
      ≡ true
unfolding repair_fence of_session
repaired-resumes now journals sc h =
    let (g, f, e) = found_session _ journals h in
    rw f (any_of_find _ _ journals f (ground (arith, text_eq_refl (resume_token g))))

-- Repairing a stale recovery token makes its control one that no longer blocks finalization.
pub repair_fence-nonblocking :
    (project_id : ℕ) (now : Text) (journals : List GitFinalizationRecord)
    (sc : AgentSessionControlRecord)
    → is_stale_fence project_id journals sc ≡ true
    → nonblocking_control journals (repair_fence now journals sc) ≡ true
unfolding is_stale_fence nonblocking_control nonblocking_in resumes_open_journal
repair_fence-nonblocking project_id now journals sc h =
    ground (arith, repaired-resumes now journals sc, kept now journals sc)
