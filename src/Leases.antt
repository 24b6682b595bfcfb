-- ===== src/Leases.antt =====
-- Project leases: `try_acquire_lease`, `renew_lease`, `release_lease` and `lease_for_project` of
-- src/agent/repositories/workers_leases.rs.
pub mod Acquire
pub mod Ownership
pub mod Statements
pub mod Interleavings
pub mod Timestamps
use mathlib.Core.Option
use clt_rs.Prelude.{
  ℕ, Bool, true, false, ◌&&◌, not, Option, none, some, List, [], ◌∷◌, ◌++◌, Text, codes, text_eq,
  text_leb, like_prefix, ltb, ◌==◌, if◌then◌else◌,
}
use clt_rs.Sql.{SqlResult, ok, err, foreign_key_failed, any, count, find, delete, update}
use clt_rs.Store.{Lease, AgentProject, AgentWorker, Db, project_exists, is_active}

-- The primary key of `leases`.
unfoldable pub of_project : ℕ → Lease → Bool
of_project project_id l = l.project_id == project_id

unfoldable pub held_by : ℕ → Text → Lease → Bool
held_by project_id holder l = l.project_id == project_id && text_eq l.holder holder

unfoldable pub is_reattached : Text → Bool
is_reattached holder = like_prefix holder (codes "clt-reattached-")

-- An active worker of the lease's project runs under the lease.
unfoldable pub worker_fences : List AgentWorker → Lease → Bool
worker_fences workers l =
    any (λ w. w.project_id == l.project_id && text_eq w.lease_holder l.holder && is_active w.state)
      workers

-- The lease has run out at `now`, and nothing keeps its owner in place.
unfoldable pub is_expired : List AgentWorker → Text → Lease → Bool
is_expired workers now l =
    text_leb l.expires_at now && not (is_reattached l.holder) && not (worker_fences workers l)

unfoldable pub clear_expired : ℕ → Text → Db → Db
clear_expired project_id now db = record db {
  leases = delete (λ l. of_project project_id l && is_expired db.workers now l) db.leases;
}

-- `INSERT OR IGNORE INTO leases`: whether a row went in.
unfoldable pub insert_lease : Lease → Db → SqlResult Bool × Db
insert_lease lease db =
    if any (of_project lease.project_id) db.leases
    then (ok false, db)
    else if project_exists lease.project_id db
    then (ok true, record db { leases = db.leases ++ lease ∷ [] })
    else (err foreign_key_failed, db)

abbrev pub new_lease : ℕ → Text → Text → Text → Lease
new_lease project_id holder acquired_at expires_at = record {
  project_id = project_id;
  holder = holder;
  acquired_at = acquired_at;
  expires_at = expires_at;
}

-- Two statements with no transaction around them.
unfoldable pub try_acquire_lease : ℕ → Text → Text → Text → Db → SqlResult Bool × Db
try_acquire_lease project_id holder acquired_at expires_at db =
    insert_lease (new_lease project_id holder acquired_at expires_at)
      (clear_expired project_id acquired_at db)

unfoldable pub renew_lease : ℕ → Text → Text → Db → Bool × Db
renew_lease project_id holder expires_at db =
    let changed = count (held_by project_id holder) db.leases in
    let db' = record db {
      leases =
          update (held_by project_id holder) (λ l. record l { expires_at = expires_at }) db.leases;
    } in
    if ltb 0 changed
    then (true, db')
    else (ltb 0 (count (held_by project_id holder) db'.leases), db')

unfoldable pub release_lease : ℕ → Text → Db → Bool × Db
release_lease project_id holder db = (
  ltb 0 (count (held_by project_id holder) db.leases),
  record db { leases = delete (held_by project_id holder) db.leases },
)

pub record AgentLeaseRecord : Type 0 where
  pub project_id : ℕ
  pub project_name : Text
  pub project_path : Text
  pub holder : Text
  pub acquired_at : Text
  pub expires_at : Text

-- A row of `leases l JOIN projects p ON p.id = l.project_id`.
unfoldable pub lease_record : Option AgentProject → Lease → Option AgentLeaseRecord
lease_record none l = none
lease_record (some p) l = some (record {
  project_id = l.project_id;
  project_name = p.name;
  project_path = p.path;
  holder = l.holder;
  acquired_at = l.acquired_at;
  expires_at = l.expires_at;
})

unfoldable pub join_project : Db → Lease → Option AgentLeaseRecord
join_project db l = lease_record (find (λ p. p.id == l.project_id) db.projects) l

unfoldable pub lease_for_project : ℕ → Db → Option AgentLeaseRecord
lease_for_project project_id db =
    Option.bind (find (of_project project_id) db.leases) (join_project db)
