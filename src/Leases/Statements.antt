-- ===== src/Leases/Statements.antt =====
-- Statements on `leases` of any processes, in any order. The operations of
-- src/agent/repositories/workers_leases.rs and src/agent/repositories/sessions_runs.rs change the
-- table by these alone; `try_acquire_lease` is two of them with no transaction around it, so those of
-- others can fall between.
use clt_rs.Prelude.{ℕ, Bool, false, ◌&&◌, Option, List, [], ◌∷◌, ◌==◌, Text, text_eq}
use clt_rs.Store.{Lease, AgentWorker, Db, is_active}
use clt_rs.Leases.{clear_expired, insert_lease, renew_lease, release_lease}
use clt_rs.GitLeases.{is_holder, clear_reclaimable}
use clt_rs.Workers.{transfer_lease}
use clt_rs.Sessions.Statements.{hand_lease}
use clt_rs.Sessions.Guardians.{extend_guarded_lease}

-- `clear` and `insert` are those of `try_acquire_lease`; `reclaim` is the delete of
-- `try_acquire_git_finalization_lease`, which may name a holder; `renew` also stands for the updates
-- in `renew_worker` and `renew_git_finalization_lease`, `extend` is a guardian's; `release` also
-- stands for the deletes by holder of the operations that end workers and sessions; `transfer` is the
-- update of `reserve_worker`, `hand` that of the handovers of sessions and guardians.
pub data Statement : Type 0 where
  clear : ℕ → Text → Statement
  insert : Lease → Statement
  reclaim : ℕ → Text → Option Text → Statement
  renew : ℕ → Text → Text → Statement
  extend : ℕ → Text → Text → Text → Statement
  release : ℕ → Text → Statement
  transfer : ℕ → Text → Text → Statement
  hand : ℕ → Text → Text → Text → Text → Statement

unfoldable pub perform : Statement → Db → Db
perform (clear project_id now) db = clear_expired project_id now db
perform (insert lease) db = (insert_lease lease db).1
perform (reclaim project_id now holder) db = clear_reclaimable project_id now holder db
perform (renew project_id holder expires_at) db = (renew_lease project_id holder expires_at db).1
perform (extend project_id holder now expires_at) db =
    extend_guarded_lease project_id holder now expires_at db
perform (release project_id holder) db = (release_lease project_id holder db).1
perform (transfer project_id from holder) db = transfer_lease project_id from holder db
perform (hand project_id from holder acquired_at expires_at) db =
    hand_lease project_id from holder acquired_at expires_at db

unfoldable pub perform_all : List Statement → Db → Db
unfolding perform
perform_all [] db = db
perform_all (s ∷ ss) db = perform_all ss (perform s db)

-- An active worker of the project runs under the holder's lease.
abbrev pub runs_under : ℕ → Text → AgentWorker → Bool
runs_under project_id holder w =
    w.project_id == project_id && text_eq w.lease_holder holder && is_active w.state

-- The statement names the holder of the project's lease, to release it or to hand it on.
unfoldable pub lets_go : ℕ → Text → Statement → Bool
lets_go project_id holder (release q from) = q == project_id && text_eq from holder
lets_go project_id holder (transfer q from to) = q == project_id && text_eq from holder
lets_go project_id holder (hand q from to acquired_at expires_at) =
    q == project_id && text_eq from holder
lets_go project_id holder _ = false

-- The statement names the holder to reclaim its lease for finalization.
unfoldable pub reclaims : ℕ → Text → Statement → Bool
reclaims project_id holder (reclaim q now named) = q == project_id && is_holder named holder
reclaims project_id holder _ = false
