-- ===== src/Leases/Ownership.antt =====
-- Who may renew and release a lease: `renew_lease` and `release_lease` of
-- src/agent/repositories/workers_leases.rs.
use mathlib.Core.Path.{subst}
use clt_rs.Prelude.{
  ℕ, ◌+◌, ◌≤◌, ◌≡◌, refl, ◌∙◌, inl, inr, Bool, true, false, ◌&&◌, not, List, [], ◌∷◌, arith,
  Bool-cases, Text,
}
use native.Mathlib.Decide.{ℕ_discrete}
use clt_rs.Sql.{ok, any, count, delete}
use clt_rs.Sql.Laws.{any_mono, count-append, count_pos, count-eq-zero}
use clt_rs.Store.{Lease, Db, project_exists}
use clt_rs.Leases.{of_project, held_by, is_expired, insert_lease, try_acquire_lease, release_lease}
use clt_rs.Leases.Acquire.{has_live_lease, try_acquire_lease_decision}

-- `leases.project_id` is a primary key.
abbrev pub LeaseKeyUnique : Db → Type 0
LeaseKeyUnique db = (q : ℕ) → count (of_project q) db.leases ≤ 1

any-delete_held :
    (project_id : ℕ) (holder : Text) (ls : List Lease)
    → any (of_project project_id) ls ≡ false
    → any (of_project project_id) (delete (held_by project_id holder) ls) ≡ false
unfolding any delete held_by of_project
any-delete_held project_id holder [] h = refl
any-delete_held project_id holder (l ∷ ls) h = ground (arith, any-delete_held project_id holder ls)

held-of_project :
    (project_id : ℕ) (holder : Text) (ls : List Lease)
    → any (held_by project_id holder) ls ≡ true
    → any (of_project project_id) ls ≡ true
held-of_project project_id holder ls =
    any_mono _ _ ls (λ l e. unfold held_by of_project in ground arith)

-- With one lease to a project, none is left when its holder has released it.
release-leaves_none :
    (project_id : ℕ) (holder : Text) (ls : List Lease)
    → count (of_project project_id) ls ≤ 1
    → any (held_by project_id holder) ls ≡ true
    → any (of_project project_id) (delete (held_by project_id holder) ls) ≡ false
unfolding any count delete held_by of_project
release-leaves_none project_id holder [] u h = ground arith
release-leaves_none project_id holder (l ∷ ls) u h = ground (
  arith,
  release-leaves_none project_id holder ls,
  any-delete_held project_id holder ls,
  held-of_project project_id holder ls,
  count_pos (of_project project_id) ls,
)

any_none :
    (p q : Lease → Bool) (ls : List Lease) → any p ls ≡ false → any (λ l. p l && q l) ls ≡ false
unfolding any
any_none p q [] h = refl
any_none p q (l ∷ ls) h = ground (arith, any_none p q ls)

released_acquire :
    (project_id : ℕ) (successor acquired_at expires_at : Text) (db : Db)
    → any (of_project project_id) db.leases ≡ false
    → project_exists project_id db ≡ true
    → (try_acquire_lease project_id successor acquired_at expires_at db).0 ≡ ok true
unfolding has_live_lease
released_acquire project_id successor acquired_at expires_at db h known =
    try_acquire_lease_decision project_id successor acquired_at expires_at db
    ∙ rw (
      any_none (of_project project_id) (λ l. not (is_expired db.workers acquired_at l)) db.leases h,
      known,
    )

-- Where no project has two leases, the holder of the lease of a registered project can release it,
-- and then any process acquires the lease at once.
pub release-handover :
    (project_id : ℕ) (holder successor acquired_at expires_at : Text) (db : Db)
    → LeaseKeyUnique db
    → any (held_by project_id holder) db.leases ≡ true
    → project_exists project_id db ≡ true
    → ((release_lease project_id holder db).0 ≡ true)
      × ((try_acquire_lease project_id successor acquired_at expires_at
            (release_lease project_id holder db).1).0
          ≡ ok true)
unfolding release_lease project_exists
release-handover project_id holder successor acquired_at expires_at db u held known = (
  ground (arith, count_pos (held_by project_id holder) db.leases),
  released_acquire project_id successor acquired_at expires_at _
      (release-leaves_none project_id holder db.leases (u project_id) held) known,
)

count_one :
    (p : ℕ) (lease : Lease) (db : Db)
    → any (of_project lease.project_id) db.leases ≡ false
    → count (of_project p) db.leases ≤ 1
    → count (of_project p) db.leases + count (of_project p) (lease ∷ []) ≤ 1
unfolding count of_project
count_one p lease db free unique = elim (ℕ_discrete lease.project_id p) [
  | yes e ↦ ground (
    arith,
    count-eq-zero (of_project p) db.leases
        (subst (λ t. any (of_project t) db.leases ≡ false) e free),
  )
  | no ne ↦ ground arith
]

module _ (p : ℕ) (db : Db) (unique : count (of_project p) db.leases ≤ 1) where
  pub insert_lease_unique :
      (lease : Lease) → count (of_project p) (insert_lease lease db).1.leases ≤ 1
  unfolding insert_lease
  insert_lease_unique lease = elim (Bool-cases (any (of_project lease.project_id) db.leases)) [
    | inl taken ↦ rw taken unique
    | inr free ↦
        ground
          (arith, count-append (of_project p) db.leases (lease ∷ []), count_one p lease db free)
  ]
