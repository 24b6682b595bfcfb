-- ===== src/Leases/Acquire.antt =====
-- What `try_acquire_lease`, `renew_lease` and `release_lease` of
-- src/agent/repositories/workers_leases.rs promise.
use mathlib.Core.List.{append-nil}
use clt_rs.Prelude.{
  ℕ, ◌≡◌, refl, ◌∙◌, ◌≢◌, Bool, true, false, ◌&&◌, not, [], ◌∷◌, arith, if◌then◌else◌, ==_iff, Text,
}
use clt_rs.Sql.{ok, err, foreign_key_failed, any, select}
use clt_rs.Sql.Laws.{any-delete, any_congr, select-append, select-delete, select-nil}
use clt_rs.Store.{Lease, Db, project_exists}
use clt_rs.Leases.{
  new_lease, of_project, is_expired, clear_expired, insert_lease, try_acquire_lease,
}

-- Some lease of the project has not run out at `now`.
unfoldable pub has_live_lease : ℕ → Text → Db → Bool
has_live_lease project_id now db =
    any (λ l. of_project project_id l && not (is_expired db.workers now l)) db.leases

not-and : (p q : Bool) → (p && not (p && q)) ≡ (p && not q)
not-and true q = refl
not-and false q = refl

-- What stays after the expired leases go.
any-clear_expired :
    (project_id : ℕ) (now : Text) (db : Db)
    → any (of_project project_id) (clear_expired project_id now db).leases
      ≡ has_live_lease project_id now db
unfolding clear_expired has_live_lease
any-clear_expired project_id now db =
    any-delete (of_project project_id) _ db.leases
    ∙ any_congr _ _ db.leases (λ l. not-and (of_project project_id l) (is_expired db.workers now l))

project_exists-clear_expired :
    (project_id q : ℕ) (now : Text) (db : Db)
    → project_exists q (clear_expired project_id now db) ≡ project_exists q db
unfolding project_exists clear_expired
project_exists-clear_expired project_id q now db = refl

-- Acquisition is refused while a lease of the project has not run out; otherwise it succeeds,
-- unless the project is not registered.
pub try_acquire_lease_decision :
    (project_id : ℕ) (holder acquired_at expires_at : Text) (db : Db)
    → (try_acquire_lease project_id holder acquired_at expires_at db).0 ≡ (
        if has_live_lease project_id acquired_at db
        then ok false
        else if project_exists project_id db
        then ok true
        else err foreign_key_failed)
unfolding try_acquire_lease insert_lease
try_acquire_lease_decision project_id holder acquired_at expires_at db = ground (
  arith,
  any-clear_expired project_id acquired_at db,
  project_exists-clear_expired project_id project_id acquired_at db,
)

-- The leases of the other projects stay as they are when one project's leases are cleared.
select-clear_expired :
    (project_id q : ℕ) (now : Text) (db : Db)
    → project_id ≢ q
    → select (of_project q) (clear_expired project_id now db).leases
      ≡ select (of_project q) db.leases
unfolding clear_expired
select-clear_expired project_id q now db h = select-delete (of_project q) _ db.leases (λ l e.
    unfold of_project in ground (arith, ==_iff l.project_id q, ==_iff l.project_id project_id))

of_project_ne : (p q : ℕ) (l : Lease) → p ≢ q → of_project p l ≡ true → of_project q l ≡ false
unfolding of_project
of_project_ne p q l h e = ground (arith, ==_iff l.project_id q, ==_iff l.project_id p)

select-insert_lease_ne :
    (lease : Lease) (q : ℕ) (db : Db)
    → lease.project_id ≢ q
    → select (of_project q) (insert_lease lease db).1.leases ≡ select (of_project q) db.leases
unfolding insert_lease select of_project
select-insert_lease_ne lease q db h = ground (
  arith,
  select-append (of_project q) db.leases (lease ∷ []),
  append-nil (select (of_project q) db.leases),
)

-- Acquiring one project's lease leaves the leases of every other project as they are.
pub try_acquire_lease_others :
    (project_id q : ℕ) (holder acquired_at expires_at : Text) (db : Db)
    → project_id ≢ q
    → select (of_project q) (try_acquire_lease project_id holder acquired_at expires_at db).1.leases
      ≡ select (of_project q) db.leases
unfolding try_acquire_lease
try_acquire_lease_others project_id q holder acquired_at expires_at db h =
    select-insert_lease_ne _ q (clear_expired project_id acquired_at db) h
    ∙ select-clear_expired project_id q acquired_at db h

pub select-insert_lease :
    (lease : Lease) (db : Db)
    → (insert_lease lease db).0 ≡ ok true
    → select (of_project lease.project_id) (insert_lease lease db).1.leases ≡ lease ∷ []
unfolding insert_lease select of_project
select-insert_lease lease db h = ground (
  arith,
  select-append (of_project lease.project_id) db.leases (lease ∷ []),
  select-nil (of_project lease.project_id) db.leases,
)

-- After a successful acquisition the new lease is the project's only lease.
pub try_acquire_lease_success :
    (project_id : ℕ) (holder acquired_at expires_at : Text) (db : Db)
    → (try_acquire_lease project_id holder acquired_at expires_at db).0 ≡ ok true
    → select
        (of_project project_id)
        (try_acquire_lease project_id holder acquired_at expires_at db).1.leases
      ≡ new_lease project_id holder acquired_at expires_at ∷ []
unfolding try_acquire_lease
try_acquire_lease_success project_id holder acquired_at expires_at db h =
    select-insert_lease _ (clear_expired project_id acquired_at db) h
