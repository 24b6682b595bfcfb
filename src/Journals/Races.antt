-- ===== src/Journals/Races.antt =====
-- Two processes that move a journal from the same generation: `compare_and_set_git_finalization` of
-- src/agent/repositories/git_journals.rs.
use clt_rs.Prelude.{
  suc, ◌≡◌, refl, ap, inl, inr, Bool, true, false, Option, none, some, List, [], ◌∷◌, arith, ◌==◌,
  ==_iff, Option-cases,
}
use clt_rs.Sql.{ok, no_owner_token, Transaction, commit, find, update}
use clt_rs.Sql.Transactions.{
  Settles, Settles-commit, Settles-fail, Settles-if, Settles-good, settles_rules,
}
use clt_rs.Store.{GitFinalizationRecord, Db}
use clt_rs.Sessions.Clearing.{journal_of}
use clt_rs.Journals.{
  GitFinalizationMove, refusal, is_expected, moved, move_row, move_fence, move_expected,
  unless_refused, if_running, if_owned, move_found, move_transaction,
  compare_and_set_git_finalization,
}

-- The session's journal is past the generation.
abbrev pub Moved : GitFinalizationMove → Db → Type 0
Moved r db =
    (g : GitFinalizationRecord) × (find (journal_of r.project_id r.codex_session_id) db.journals
      ≡ some g)
    × (g.generation ≡ suc r.expected_generation)

abbrev Won : GitFinalizationMove → Db → Bool → Type 0
Won r db a = a ≡ true → Moved r db

abbrev Any : Bool → Type 0
Any a = Unit {0}

lost : (r : GitFinalizationMove) (db : Db) → Settles (Won r) Any (commit db false)
lost r db = Settles-commit db false (λ e. absurd cc) tt

updated :
    (r : GitFinalizationMove) (js : List GitFinalizationRecord) {g : GitFinalizationRecord}
    → find (journal_of r.project_id r.codex_session_id) js ≡ some g
    → (g.generation == r.expected_generation) ≡ true
    → find (journal_of r.project_id r.codex_session_id) (update (is_expected r) (moved r) js)
      ≡ some (moved r g)
unfolding find update journal_of is_expected moved
updated r [] {g} e k = ground arith
updated r (x ∷ js) {g} e k = ground (arith, updated r js {g = g})

passed_on :
    (r : GitFinalizationMove) (db : Db) (g : GitFinalizationRecord)
    → find (journal_of r.project_id r.codex_session_id) db.journals ≡ some g
    → (g.generation == r.expected_generation) ≡ true
    → Moved r (move_fence r (move_row r db))
unfolding move_fence move_row moved
passed_on r db g e k =
    (moved r g, updated r db.journals e k, ap suc ((==_iff g.generation r.expected_generation).0 k))

move_expected-Won :
    (r : GitFinalizationMove) (db : Db) (g : GitFinalizationRecord)
    → find (journal_of r.project_id r.codex_session_id) db.journals ≡ some g
    → (g.generation == r.expected_generation) ≡ true
    → Settles (Won r) Any (move_expected r db)
unfolding move_expected
move_expected-Won r db g e k =
    let l = lost r (move_row r db) in
    let w : Settles (Won r) Any (commit (move_fence r (move_row r db)) true) =
      Settles-commit (move_fence r (move_row r db)) true (λ t. passed_on r db g e k) tt in
    search (settles_rules, l, w)

owned-Won :
    (r : GitFinalizationMove) (db : Db) (next : Transaction Db Bool)
    → Settles (Won r) Any next
    → Settles (Won r) Any (if_owned r db next)
unfolding if_owned
owned-Won r db next s =
    Settles-if r.require_running_owner (if_running r r.owner_run_token db next) next
      (λ k. elim (Option-cases r.owner_run_token) [
        | inl e ↦ rw e (Settles-fail no_owner_token)
        | inr (t, e) ↦ rw e (Settles-if _ _ _ (λ i. s) (λ i. lost r db))
      ])
      (λ k. s)

move_found-Won :
    (r : GitFinalizationMove) (db : Db) (o : Option GitFinalizationRecord)
    → find (journal_of r.project_id r.codex_session_id) db.journals ≡ o
    → Settles (Won r) Any (move_found r db o)
move_found-Won r db none e = lost r db
move_found-Won r db (some g) e =
    let checked = unless_refused (refusal r g) (move_expected r db) in
    Settles-if (g.generation == r.expected_generation) (if_owned r db checked) (commit db false)
      (λ k. owned-Won r db checked (elim (Option-cases (refusal r g)) [
        | inl h ↦ rw h (move_expected-Won r db g e k)
        | inr (x, h) ↦ rw h (Settles-fail x)
      ]))
      (λ k. lost r db)

won :
    (r : GitFinalizationMove) (db : Db)
    → (compare_and_set_git_finalization r db).0 ≡ ok true
    → Moved r (compare_and_set_git_finalization r db).1
unfolding compare_and_set_git_finalization move_transaction
won r db e =
    Settles-good {P = Won r} {Good = Any} db (move_transaction r db) true
      (move_found-Won r db _ refl) e tt refl

past :
    (r : GitFinalizationMove) (db : Db)
    → Moved r db
    → compare_and_set_git_finalization r db ≡ (ok false, db)
unfolding compare_and_set_git_finalization move_transaction
past r db (g, e, k) =
    let other : (g.generation == r.expected_generation) ≡ false = ground (arith, k) in
    rw (e, other) refl

-- Of the processes that move a session's journal from the same generation only one succeeds: once
-- one has, a move of any other from that generation answers false and changes nothing.
pub compare_and_set-exclusive :
    (r s : GitFinalizationMove) (db : Db)
    → s.project_id ≡ r.project_id
    → s.codex_session_id ≡ r.codex_session_id
    → s.expected_generation ≡ r.expected_generation
    → (compare_and_set_git_finalization r db).0 ≡ ok true
    → compare_and_set_git_finalization s (compare_and_set_git_finalization r db).1
      ≡ (ok false, (compare_and_set_git_finalization r db).1)
compare_and_set-exclusive r s db p t g e =
    past s (compare_and_set_git_finalization r db).1 (rw (p, t, g) (won r db e))
