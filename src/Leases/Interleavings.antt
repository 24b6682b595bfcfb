-- ===== src/Leases/Interleavings.antt =====
-- What keeps a lease whatever statements of other processes fall in between: the table `leases` of
-- src/agent/repositories/workers_leases.rs.
use clt_rs.Prelude.{
  ℕ, ◌≡◌, refl, inl, inr, ◌⊎◌, Bool, true, false, ◌&&◌, ◌||◌, not, Option, List, [], ◌∷◌, arith,
  ◌==◌, Bool-cases, Text, text_eq, text_eq→eq,
}
use clt_rs.Sql.{any, delete, update}
use clt_rs.Sql.Laws.{any-append, any_mono, any-update}
use clt_rs.Store.{Lease, AgentWorker, Db, active_in}
use clt_rs.Leases.{
  of_project, held_by, is_reattached, worker_fences, is_expired, clear_expired, insert_lease,
  renew_lease, release_lease,
}
use clt_rs.GitLeases.{
  is_holder, is_reclaimable, clear_reclaimable, has_active_worker, controls_allow_finalization,
}
use clt_rs.Workers.{transfer_lease}
use clt_rs.Sessions.Statements.{hand_lease}
use clt_rs.Sessions.Guardians.{extend_guarded_lease, is_unexpired}
use clt_rs.Leases.Statements.{
  Statement, clear, insert, reclaim, renew, extend, release, transfer, hand, perform, perform_all,
  runs_under, lets_go, reclaims,
}

-- A reclaim takes no lease of an active worker.
unfoldable takes : List AgentWorker → ℕ → Text → Statement → Bool
takes workers project_id holder s =
    lets_go project_id holder s
    || (not (any (runs_under project_id holder) workers) && reclaims project_id holder s)

renew_lease-leases :
    (project_id : ℕ) (holder expires_at : Text) (db : Db)
    → (renew_lease project_id holder expires_at db).1.leases
      ≡ update (held_by project_id holder) (λ l. record l { expires_at = expires_at }) db.leases
unfolding renew_lease
renew_lease-leases project_id holder expires_at db = ground arith

-- A delete that spares what `q` holds of keeps some of it.
any-delete_spared :
    (q p : Lease → Bool) (ls : List Lease)
    → ((l : Lease) → q l ≡ true → p l ≡ false)
    → any q ls ≡ true
    → any q (delete p ls) ≡ true
unfolding any delete
any-delete_spared q p [] h e = e
any-delete_spared q p (l ∷ ls) h e = ground (arith, h l, any-delete_spared q p ls h)

-- An update that leaves alone what `q` holds of keeps it.
any-update_spared :
    (q p : Lease → Bool) (f : Lease → Lease) (ls : List Lease)
    → ((l : Lease) → q l ≡ true → p l ≡ false)
    → any q ls ≡ true
    → any q (update p f ls) ≡ true
unfolding any update
any-update_spared q p f [] h e = e
any-update_spared q p f (l ∷ ls) h e = ground (arith, h l, any-update_spared q p f ls h)

fenced :
    (project_id : ℕ) (holder : Text) (workers : List AgentWorker) (l : Lease)
    → any (runs_under project_id holder) workers ≡ true
    → held_by project_id holder l ≡ true
    → worker_fences workers l ≡ true
unfolding worker_fences held_by
fenced project_id holder workers l a h =
    any_mono (runs_under project_id holder) _ workers
      (λ w e. ground (arith, text_eq→eq l.holder holder)) a

-- The holder is a replacement supervisor, or an active worker of the project runs under its lease.
Shielded : ℕ → Text → List AgentWorker → Type 0
Shielded project_id holder workers =
    (is_reattached holder ≡ true) ⊎ (any (runs_under project_id holder) workers ≡ true)

module _ (project_id : ℕ) (holder : Text) where
  unexpired :
      (workers : List AgentWorker) (now : Text) (l : Lease)
      → Shielded project_id holder workers
      → held_by project_id holder l ≡ true
      → is_expired workers now l ≡ false
  unfolding Shielded is_expired held_by
  unexpired workers now l (inl r) h = ground (arith, text_eq→eq l.holder holder)
  unexpired workers now l (inr a) h = ground (arith, fenced project_id holder workers l a h)

  -- A statement on the lease of a holder that it names spares the lease of another.
  other_row :
      (q : ℕ) (from : Text) (l : Lease)
      → (q == project_id && text_eq from holder) ≡ false
      → held_by project_id holder l ≡ true
      → held_by q from l ≡ false
  unfolding held_by
  other_row q from l n h = ground (arith, text_eq→eq l.holder holder, text_eq→eq l.holder from)

  runs_under-active :
      (q : ℕ) (db : Db)
      → any (runs_under project_id holder) db.workers ≡ true
      → (q == project_id) ≡ true
      → has_active_worker q db ≡ true
  unfolding has_active_worker active_in
  runs_under-active q db a e =
      any_mono (runs_under project_id holder) _ db.workers (λ w k. ground arith) a

  reclaim_spared :
      (q : ℕ) (now : Text) (named : Option Text) (db : Db) (l : Lease)
      → Shielded project_id holder db.workers
      → (not (any (runs_under project_id holder) db.workers)
          && (q == project_id && is_holder named holder))
        ≡ false
      → has_active_worker q db ≡ false
      → held_by project_id holder l ≡ true
      → (of_project q l && is_reclaimable now named l) ≡ false
  unfolding Shielded is_reclaimable held_by of_project
  reclaim_spared q now named db l (inl r) n w h =
      ground (arith, text_eq→eq l.holder holder, runs_under-active q db)
  reclaim_spared q now named db l (inr a) n w h = ground (arith, runs_under-active q db a)

  reclaim-keeps :
      (q : ℕ) (now : Text) (named : Option Text) (db : Db)
      → Shielded project_id holder db.workers
      → (not (any (runs_under project_id holder) db.workers)
          && (q == project_id && is_holder named holder))
        ≡ false
      → any (held_by project_id holder) db.leases ≡ true
      → any (held_by project_id holder) (clear_reclaimable q now named db).leases ≡ true
  unfolding clear_reclaimable
  reclaim-keeps q now named db r n h =
      elim (Bool-cases (has_active_worker q db || not (controls_allow_finalization q db))) [
        | inl k ↦ rw k h
        | inr k ↦ rw k (
            any-delete_spared (held_by project_id holder) _ db.leases
              (λ l e. reclaim_spared q now named db l r n (ground (arith, k)) e) h)
      ]

  perform-keeps :
      (s : Statement) (db : Db)
      → Shielded project_id holder db.workers
      → takes db.workers project_id holder s ≡ false
      → any (held_by project_id holder) db.leases ≡ true
      → any (held_by project_id holder) (perform s db).leases ≡ true
  unfolding perform takes lets_go reclaims
  perform-keeps (clear q now) db r n h =
      unfold clear_expired in
      any-delete_spared (held_by project_id holder) _ db.leases
        (λ l e. ground (arith, unexpired db.workers now l r e)) h
  perform-keeps (insert lease) db r n h =
      unfold insert_lease in
      ground (arith, any-append (held_by project_id holder) db.leases (lease ∷ []))
  perform-keeps (reclaim q now named) db r n h = reclaim-keeps q now named db r n h
  perform-keeps (renew q other expires_at) db r n h =
      rw (renew_lease-leases q other expires_at db) (
        rw
          (any-update (held_by project_id holder) (held_by q other)
            (λ l. record l { expires_at = expires_at }) db.leases (λ l e. unfold held_by in refl))
          h)
  perform-keeps (extend q other now expires_at) db r n h =
      unfold extend_guarded_lease in
      rw
        (any-update (held_by project_id holder) (is_unexpired q other now)
          (λ l. record l { expires_at = expires_at }) db.leases (λ l e. unfold held_by in refl))
        h
  perform-keeps (release q from) db r n h =
      unfold release_lease in
      any-delete_spared (held_by project_id holder) (held_by q from) db.leases
        (λ l e. other_row q from l (ground (arith, n)) e) h
  perform-keeps (transfer q from to) db r n h =
      unfold transfer_lease in
      any-update_spared (held_by project_id holder) (held_by q from) _ db.leases
        (λ l e. other_row q from l (ground (arith, n)) e) h
  perform-keeps (hand q from to at exp) db r n h =
      unfold hand_lease in
      any-update_spared (held_by project_id holder) (held_by q from) _ db.leases
        (λ l e. other_row q from l (ground (arith, n)) e) h

  perform-workers : (s : Statement) (db : Db) → (perform s db).workers ≡ db.workers
  unfolding perform clear_expired insert_lease clear_reclaimable renew_lease extend_guarded_lease
      release_lease transfer_lease hand_lease
  perform-workers (clear q now) db = refl
  perform-workers (insert lease) db = ground arith
  perform-workers (reclaim q now named) db = ground arith
  perform-workers (renew q other expires_at) db = ground arith
  perform-workers (extend q other now expires_at) db = refl
  perform-workers (release q other) db = refl
  perform-workers (transfer q from to) db = refl
  perform-workers (hand q from to at exp) db = refl

  Shielded-survives :
      (ss : List Statement) (db : Db)
      → Shielded project_id holder db.workers
      → any (takes db.workers project_id holder) ss ≡ false
      → any (held_by project_id holder) db.leases ≡ true
      → any (held_by project_id holder) (perform_all ss db).leases ≡ true
  unfolding perform_all any
  Shielded-survives [] db r n h = h
  Shielded-survives (s ∷ ss) db r n h =
      Shielded-survives ss (perform s db) (rw (perform-workers s db) r)
        (rw (perform-workers s db) (ground arith)) (perform-keeps s db r (ground arith) h)

  takes-reattached :
      (workers : List AgentWorker) (ss : List Statement)
      → any (lets_go project_id holder) ss ≡ false
      → any (reclaims project_id holder) ss ≡ false
      → any (takes workers project_id holder) ss ≡ false
  unfolding any takes
  takes-reattached workers [] n m = refl
  takes-reattached workers (s ∷ ss) n m = ground (arith, takes-reattached workers ss)

  takes-fenced :
      (workers : List AgentWorker) (ss : List Statement)
      → any (runs_under project_id holder) workers ≡ true
      → any (lets_go project_id holder) ss ≡ false
      → any (takes workers project_id holder) ss ≡ false
  unfolding any takes
  takes-fenced workers [] a n = refl
  takes-fenced workers (s ∷ ss) a n = ground (arith, takes-fenced workers ss)

-- A lease of a replacement supervisor (`clt-reattached-…`) outlasts its expiry: whatever statements
-- on leases the modelled operations make, in whatever order, it is there until one names its exact
-- holder to release it, to hand it on or to reclaim it for finalization.
pub reattached_survives :
    (ss : List Statement) (project_id : ℕ) (holder : Text) (db : Db)
    → is_reattached holder ≡ true
    → any (lets_go project_id holder) ss ≡ false
    → any (reclaims project_id holder) ss ≡ false
    → any (held_by project_id holder) db.leases ≡ true
    → any (held_by project_id holder) (perform_all ss db).leases ≡ true
unfolding Shielded
reattached_survives ss project_id holder db r n m =
    Shielded-survives project_id holder ss db (inl r)
      (takes-reattached project_id holder db.workers ss n m)

-- A lease that an active worker of its project runs under outlasts its expiry while the worker is
-- active: whatever statements on leases the modelled operations make, in whatever order, it is there
-- until one names its exact holder to release it or to hand it on. A reclaim for finalization does
-- not take it, even one that names the holder.
pub worker_lease_survives :
    (ss : List Statement) (project_id : ℕ) (holder : Text) (db : Db)
    → any (runs_under project_id holder) db.workers ≡ true
    → any (lets_go project_id holder) ss ≡ false
    → any (held_by project_id holder) db.leases ≡ true
    → any (held_by project_id holder) (perform_all ss db).leases ≡ true
unfolding Shielded
worker_lease_survives ss project_id holder db a n =
    Shielded-survives project_id holder ss db (inr a)
      (takes-fenced project_id holder db.workers ss a n)
