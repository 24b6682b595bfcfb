-- ===== src/Journals/Histories.antt =====
-- The creations and moves of journals in any order: `create_git_finalization` and
-- `compare_and_set_git_finalization` of src/agent/repositories/git_journals.rs.
use clt_rs.Prelude.{
  ◌≡◌, refl, inl, inr, Bool, true, false, Option, none, some, List, arith, ◌==◌, Option-cases, [],
  ◌∷◌,
}
use clt_rs.Sql.{Transaction, commit, pending_exists, no_owner_token, foreign_key_failed, find}
use clt_rs.Sql.Transactions.{
  Commits, Commits-transact, Commits-commit, Commits-fail, Commits-if, commits_rules,
}
use clt_rs.Journals.{
  compare_and_set_git_finalization, move_transaction, move_found, if_owned, if_running,
  unless_refused, move_expected, move_fence,
}
use clt_rs.Journals.Creation.{
  NewGitFinalization, insert_new, insert_row, is_ignored, create_transaction,
  create_git_finalization,
}
use clt_rs.Store.{GitFinalizationRecord, Db}
use clt_rs.Sessions.Clearing.{journal_of}
use clt_rs.Journals.{GitFinalizationMove, refusal}
use clt_rs.Journals.Soundness.{
  IsSound, Passes, refusal-Passes, move_row-IsSound, insert_new-IsSound,
}

abbrev Sound : Db → Type 0
Sound db = IsSound db.journals

move_expected-Commits :
    (r : GitFinalizationMove) (db : Db) (current : GitFinalizationRecord)
    → find (journal_of r.project_id r.codex_session_id) db.journals ≡ some current
    → Passes r current
    → IsSound db.journals
    → Commits Sound (move_expected r db)
unfolding move_expected move_fence
move_expected-Commits r db g e c s =
    Commits-if _ _ _ (λ k. Commits-fail pending_exists)
      (λ k. let t = move_row-IsSound r db g e c k s in search (commits_rules, t))

owned-Commits :
    (r : GitFinalizationMove) (db : Db) (next : Transaction Db Bool)
    → IsSound db.journals
    → Commits Sound next
    → Commits Sound (if_owned r db next)
unfolding if_owned
owned-Commits r db next s c =
    Commits-if r.require_running_owner (if_running r r.owner_run_token db next) next
      (λ k. elim (Option-cases r.owner_run_token) [
        | inl e ↦ rw e (Commits-fail no_owner_token)
        | inr (t, e) ↦ rw e (Commits-if _ _ _ (λ i. c) (λ i. Commits-commit db false s))
      ])
      (λ k. c)

move_found-Commits :
    (r : GitFinalizationMove) (db : Db) (o : Option GitFinalizationRecord)
    → find (journal_of r.project_id r.codex_session_id) db.journals ≡ o
    → IsSound db.journals
    → Commits Sound (move_found r db o)
move_found-Commits r db none e s = Commits-commit db false s
move_found-Commits r db (some g) e s =
    let checked = unless_refused (refusal r g) (move_expected r db) in
    Commits-if (g.generation == r.expected_generation) (if_owned r db checked) (commit db false)
      (λ k. owned-Commits r db checked s (elim (Option-cases (refusal r g)) [
        | inl h ↦ rw h (move_expected-Commits r db g e (refusal-Passes r g h) s)
        | inr (x, h) ↦ rw h (Commits-fail x)
      ]))
      (λ k. Commits-commit db false s)

compare_and_set-IsSound :
    (r : GitFinalizationMove) (db : Db)
    → IsSound db.journals
    → IsSound (compare_and_set_git_finalization r db).1.journals
unfolding compare_and_set_git_finalization move_transaction
compare_and_set-IsSound r db s =
    Commits-transact {P = Sound} db (move_transaction r db) s (move_found-Commits r db _ refl s)

insert_row-IsSound :
    (n : NewGitFinalization) (db : Db)
    → is_ignored n db ≡ false
    → IsSound db.journals
    → IsSound (insert_row n db).journals
unfolding is_ignored insert_row
insert_row-IsSound n db k s = insert_new-IsSound n db (ground arith) s

insert_new-Commits :
    (n : NewGitFinalization) (db : Db) → IsSound db.journals → Commits Sound (insert_new n db)
unfolding insert_new
insert_new-Commits n db s =
    Commits-if _ _ _ (λ k. Commits-commit db false s)
      (λ k.
        Commits-if _ _ _ (λ l. Commits-commit (insert_row n db) true (insert_row-IsSound n db k s))
          (λ l. Commits-fail foreign_key_failed))

create-Commits :
    (n : NewGitFinalization) (db : Db)
    → IsSound db.journals
    → Commits Sound (create_transaction n db)
unfolding create_transaction
create-Commits n db s = let i = insert_new-Commits n db s in search (commits_rules, i)

create-IsSound :
    (n : NewGitFinalization) (db : Db)
    → IsSound db.journals
    → IsSound (create_git_finalization n db).1.journals
unfolding create_git_finalization
create-IsSound n db s =
    Commits-transact {P = Sound} db (create_transaction n db) s (create-Commits n db s)

pub data Operation : Type 0 where
  create : NewGitFinalization → Operation
  compare_and_set : GitFinalizationMove → Operation

unfoldable pub apply : Operation → Db → Db
apply (create n) db = (create_git_finalization n db).1
apply (compare_and_set r) db = (compare_and_set_git_finalization r db).1

unfoldable pub apply_all : List Operation → Db → Db
apply_all [] db = db
apply_all (o ∷ os) db = apply_all os (apply o db)

-- Over every sequence of creations and moves of journals, in any order and by any processes, sound
-- journals stay sound: a session has at most one journal, and a project at most one that is being
-- finalized; one that is finalized or completed names its task, one to push or completed names its
-- commit, only one that is to push is pushed, and one has an end exactly when it is completed or
-- cancelled.
pub journals-IsSound :
    (os : List Operation) (db : Db) → IsSound db.journals → IsSound (apply_all os db).journals
unfolding apply_all apply
journals-IsSound [] db s = s
journals-IsSound (create n ∷ os) db s =
    journals-IsSound os (apply (create n) db) (create-IsSound n db s)
journals-IsSound (compare_and_set r ∷ os) db s =
    journals-IsSound os (apply (compare_and_set r) db) (compare_and_set-IsSound r db s)
