-- ===== src/GitLeases.antt =====
-- The lease under which commits of a project are proved and published:
-- `GIT_FINALIZATION_NONBLOCKING_CONTROL`, `try_acquire_git_finalization_lease`,
-- `renew_git_finalization_lease_blocking` and `git_finalization_lease_is_owned_blocking` of
-- src/agent/repositories/workers_leases.rs.
pub mod Guard
use clt_rs.Prelude.{
  ℕ, zero, suc, ◌+◌, ◌-◌, ◌*◌, ◌/◌, ◌%◌, ◌^◌, ◌≤◌, ◌<◌, ◌≡◌, refl, sym, ap, ◌∙◌, ◌≢◌, ◌↔◌, ◌⊎◌, inl,
  inr, Bool, true, false, ◌&&◌, ◌||◌, not, Option, none, some, List, [], ◌∷◌, ◌++◌, arith,
  if◌then◌else◌, ltb, leb, ◌==◌, ==_iff, ==_refl, Bool-cases, Option-cases, is_some, is_none,
  unwrap_or, Text, codes, text_eq, text_eq→eq, text_eq_refl, text_eq_iff, starts_with, text_leb,
  is_digit, cast_digits, cast_integer, u64_max, parse_digits, parse_unsigned, parse_u64,
  like_prefix, decimal, length,
}
use clt_rs.Sql.{
  SqlResult, ok, err, SqlError, foreign_key_failed, no_rows, out_of_range, missing_run_id,
  Transaction, commit, roll_back, fail, transact, any, count, find, delete, update, select,
}
use clt_rs.Sql.Laws.{
  any-append, any-delete, any_congr, any_mono, count-append, count_pos, count-eq-zero, count_mono,
  count-delete-le, count-update-le, count-update, any-update, find-none, find-append, find_holds,
  any_of_find, select-append, select-delete, select-update, select-nil, delete-none, update-none,
}
use clt_rs.Git.{is_open, is_terminal}
use clt_rs.Sessions.{AgentSessionControlState, AgentSessionControlRecord}
use clt_rs.Store.{Lease, AgentWorker, GitFinalizationRecord, Db, project_exists, active_in}
use clt_rs.Leases.{
  new_lease, of_project, held_by, is_reattached, worker_fences, is_expired, clear_expired,
  insert_lease, try_acquire_lease, renew_lease, release_lease,
}

-- `AGENT_GIT_FINALIZATION_RESUME_TOKEN_PREFIX`.
abbrev pub resume_token_prefix : Text
resume_token_prefix = codes "clt-git-finalization:"

-- The journal of the control's session.
unfoldable pub of_session : AgentSessionControlRecord → GitFinalizationRecord → Bool
of_session sc g = g.project_id == sc.project_id && text_eq g.codex_session_id sc.codex_session_id

-- `column = text`, where the column may be NULL.
abbrev pub column_eq : Option Text → Text → Bool
column_eq none t = false
column_eq (some s) t = text_eq s t

abbrev pub column_like : Option Text → Text → Bool
column_like none p = false
column_like (some s) p = like_prefix s p

-- `a = b`, where both columns may be NULL.
abbrev pub columns_eq : Option Text → Option Text → Bool
columns_eq a none = false
columns_eq a (some t) = column_eq a t

-- The recovery token that names the open journal's generation.
unfoldable pub resume_token : GitFinalizationRecord → Text
resume_token g = resume_token_prefix ++ decimal g.generation

unfoldable pub resumes_open_journal : List GitFinalizationRecord → AgentSessionControlRecord → Bool
resumes_open_journal journals sc =
    is_none sc.child_pid
    && is_none sc.interactive_holder
    && is_none sc.interactive_launch_token
    && any (λ g. of_session sc g && is_open g.state && column_eq sc.run_token (resume_token g))
        journals

unfoldable pub is_shared_holder : Option Text → Bool
is_shared_holder holder =
    column_like holder (codes "clt-shared-interactive-")
    || column_like holder (codes "clt-stopped-shared-interactive-")
    || column_like holder (codes "clt-readonly-interactive-")
    || column_like holder (codes "clt-stopped-readonly-interactive-")

-- An unfinished journal of the control's session: `g.state NOT IN ('completed', 'cancelled')`.
unfoldable pub has_unfinished_journal :
    List GitFinalizationRecord → AgentSessionControlRecord → Bool
has_unfinished_journal journals sc =
    any (λ g. of_session sc g && not (is_terminal g.state)) journals

unfoldable pub guardian_launched : AgentSessionControlRecord → Bool
guardian_launched sc = columns_eq sc.interactive_launch_token sc.interactive_holder

unfoldable pub guardian_waits : AgentSessionControlRecord → Bool
guardian_waits sc = is_none sc.child_pid && is_none sc.interactive_launch_token

unfoldable pub shares_only_conversation :
    Bool → List GitFinalizationRecord → AgentSessionControlRecord → Bool
shares_only_conversation phase journals sc =
    is_shared_holder sc.interactive_holder && phase && not (has_unfinished_journal journals sc)

unfoldable pub nonblocking_in :
    AgentSessionControlState → List GitFinalizationRecord → AgentSessionControlRecord → Bool
nonblocking_in AgentSessionControlState.stopped journals sc = true
nonblocking_in AgentSessionControlState.resume_requested journals sc =
    resumes_open_journal journals sc
nonblocking_in AgentSessionControlState.ready_interactive journals sc =
    shares_only_conversation (guardian_waits sc) journals sc
nonblocking_in AgentSessionControlState.interactive journals sc =
    shares_only_conversation (guardian_launched sc) journals sc
nonblocking_in AgentSessionControlState.stop_requested journals sc =
    shares_only_conversation (guardian_launched sc) journals sc
nonblocking_in _ journals sc = false

-- `GIT_FINALIZATION_NONBLOCKING_CONTROL`. It is never NULL: each comparison of a column that may be
-- NULL stands beside a test that it is not.
unfoldable pub nonblocking_control : List GitFinalizationRecord → AgentSessionControlRecord → Bool
nonblocking_control journals sc = nonblocking_in sc.state journals sc

unfoldable pub controls_allow_finalization : ℕ → Db → Bool
controls_allow_finalization project_id db = not (
    any (λ sc. sc.project_id == project_id && not (nonblocking_control db.journals sc)) db.controls)

unfoldable pub has_open_journal : ℕ → Db → Bool
has_open_journal project_id db =
    any (λ g. g.project_id == project_id && is_open g.state) db.journals

unfoldable pub has_active_worker : ℕ → Db → Bool
has_active_worker project_id db = any (active_in project_id) db.workers

abbrev is_resume_requested : AgentSessionControlState → Bool
is_resume_requested AgentSessionControlState.resume_requested = true
is_resume_requested _ = false

-- The controls whose recovery token is out of date.
unfoldable pub is_stale_fence : ℕ → List GitFinalizationRecord → AgentSessionControlRecord → Bool
is_stale_fence project_id journals sc =
    sc.project_id == project_id
    && is_resume_requested sc.state
    && is_none sc.child_pid
    && is_none sc.interactive_holder
    && is_none sc.interactive_launch_token
    && column_like sc.run_token resume_token_prefix
    && any (λ g. of_session sc g && is_open g.state) journals

abbrev token_of : Option GitFinalizationRecord → Option Text
token_of none = none
token_of (some g) = some (resume_token g)

unfoldable pub repair_fence :
    Text → List GitFinalizationRecord → AgentSessionControlRecord → AgentSessionControlRecord
repair_fence now journals sc = record sc {
  run_token = token_of (find (λ g. of_session sc g && is_open g.state) journals);
  updated_at = now;
}

unfoldable pub repair_fences : ℕ → Text → Db → Db
repair_fences project_id now db = record db {
  controls =
      update (is_stale_fence project_id db.journals) (repair_fence now db.journals) db.controls;
}

-- `?3 IS NOT NULL AND holder = ?3`.
abbrev pub is_holder : Option Text → Text → Bool
is_holder none holder = false
is_holder (some h) holder = text_eq holder h

-- The lease has run out and belongs to no replacement supervisor, or it is the one to reclaim.
unfoldable pub is_reclaimable : Text → Option Text → Lease → Bool
is_reclaimable now reclaim_holder l =
    (not (is_reattached l.holder) && leb (cast_integer l.expires_at) (cast_integer now))
    || is_holder reclaim_holder l.holder

unfoldable pub clear_reclaimable : ℕ → Text → Option Text → Db → Db
clear_reclaimable project_id now reclaim_holder db =
    if has_active_worker project_id db || not (controls_allow_finalization project_id db)
    then db
    else record db {
      leases =
          delete (λ l. of_project project_id l && is_reclaimable now reclaim_holder l) db.leases;
    }

-- The `INSERT OR IGNORE … SELECT … WHERE`.
unfoldable pub insert_guarded : Lease → Db → SqlResult Bool × Db
insert_guarded lease db =
    if has_open_journal lease.project_id db
      && not (has_active_worker lease.project_id db)
      && controls_allow_finalization lease.project_id db
    then insert_lease lease db
    else (ok false, db)

abbrev pub commit_insert : SqlResult Bool × Db → Transaction Db Bool
commit_insert (ok inserted, db) = commit db inserted
commit_insert (err e, db) = fail e

unfoldable pub try_acquire_git_finalization_lease :
    ℕ → Text → Text → Text → Option Text → Db → SqlResult Bool × Db
try_acquire_git_finalization_lease project_id holder acquired_at expires_at reclaim_holder db =
    transact db (
      commit_insert (
        insert_guarded
          (record {
            project_id = project_id;
            holder = holder;
            acquired_at = acquired_at;
            expires_at = expires_at;
          })
          (clear_reclaimable project_id acquired_at reclaim_holder
            (repair_fences project_id acquired_at db))))

unfoldable pub renew_git_finalization_lease : ℕ → Text → Text → Db → Bool × Db
renew_git_finalization_lease project_id holder expires_at db =
    if has_active_worker project_id db || not (controls_allow_finalization project_id db)
    then (false, db)
    else (
      count (held_by project_id holder) db.leases == 1,
      record db {
        leases =
            update (held_by project_id holder) (λ l. record l { expires_at = expires_at })
              db.leases;
      },
    )

unfoldable pub git_finalization_lease_is_owned : ℕ → Text → Text → Db → Bool
git_finalization_lease_is_owned project_id holder now db =
    (if has_active_worker project_id db || not (controls_allow_finalization project_id db)
      then zero
      else count
          (λ l. held_by project_id holder l && ltb (cast_integer now) (cast_integer l.expires_at))
          db.leases)
    == 1
