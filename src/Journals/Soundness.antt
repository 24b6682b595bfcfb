-- ===== src/Journals/Soundness.antt =====
-- What the states of journals promise, over every sequence of creations and moves:
-- `create_git_finalization` and `compare_and_set_git_finalization` of
-- src/agent/repositories/git_journals.rs.
use clt_rs.Prelude.{
  ℕ, ◌≤◌, ◌≡◌, refl, inl, inr, Bool, true, false, ◌&&◌, ◌||◌, not, Option, none, some, List, arith,
  if◌then◌else◌, ltb, ◌==◌, ==_iff, Bool-cases, is_some, is_none, Text, [], ◌∷◌, ◌++◌, ◌∙◌, sym,
  text_eq→eq,
}
use clt_rs.Sql.{SqlError, any, count, find}
use clt_rs.Journals.Creation.{NewGitFinalization, new_journal}
use clt_rs.Sql.Laws.{
  any-update_found, any-append, count-append, count-append_one, count-update, any_of_find,
}
use clt_rs.Git.{can_transition_to, is_terminal, is_finalizing}
use clt_rs.Store.{GitFinalizationRecord, Db}
use clt_rs.Sessions.Clearing.{journal_of, is_push_pending}
use clt_rs.Journals.{
  GitFinalizationMove, coalesce, is_completed, is_push_mode, refusal, is_expected, moved,
  is_pending_of, move_row,
}

-- The task and the commit that a journal names by its state, and when it counts as ended.
unfoldable pub is_sound : GitFinalizationRecord → Bool
is_sound g =
    (not (is_finalizing g.state || is_completed g.state) || is_some g.task_identity)
    && (not (is_push_pending g.state || is_completed g.state) || is_some g.commit_oid)
    && (not (is_push_pending g.state) || is_push_mode g.git_mode)
    && (if is_terminal g.state then is_some g.completed_at else is_none g.completed_at)

unfoldable pub is_unsound : GitFinalizationRecord → Bool
unfolding is_sound
is_unsound g = not (is_sound g)

-- A session has one journal and a project one under the index, and every journal is sound.
pub record IsSound (journals : List GitFinalizationRecord) : Type 0 where
  pub keyed : (project_id : ℕ) (session : Text) → count (journal_of project_id session) journals ≤ 1
  pub pending : (project_id : ℕ) → count (is_pending_of project_id) journals ≤ 1
  pub sound : any is_unsound journals ≡ false

-- A check that is passed.
if_none :
    (b : Bool) (e : SqlError) (o : Option SqlError)
    → (if b then some e else o) ≡ none
    → (b ≡ false) × (o ≡ none)
if_none true e o h = absurd cc
if_none false e o h = (refl, h)

coalesce_some : (a b : Option Text) → is_none (coalesce a b) ≡ false → is_some (coalesce b a) ≡ true
coalesce_some none none h = ground arith
coalesce_some none (some y) h = refl
coalesce_some (some x) none h = refl
coalesce_some (some x) (some y) h = refl

coalesce_keeps : (a b : Option Text) → is_some a ≡ true → is_some (coalesce a b) ≡ true
coalesce_keeps none b h = ground arith
coalesce_keeps (some x) b h = refl

coalesce_kept : (a b : Option Text) → is_none (coalesce a b) ≡ false → is_some (coalesce a b) ≡ true
coalesce_kept none none h = ground arith
coalesce_kept none (some y) h = refl
coalesce_kept (some x) b h = refl

not_refused : (b : Bool) → not b ≡ false → b ≡ true
not_refused b h = ground arith

-- The checks that a move passes.
abbrev pub Passes : GitFinalizationMove → GitFinalizationRecord → Type 0
Passes r g =
    (can_transition_to g.state r.next_state ≡ true)
    × ((is_push_pending r.next_state && not (is_push_mode g.git_mode)) ≡ false)
    × ((is_finalizing r.next_state && is_none (coalesce r.task_identity g.task_identity)) ≡ false)
    × (((is_push_pending r.next_state || is_completed r.next_state)
          && is_none (coalesce r.commit_oid g.commit_oid))
        ≡ false)

pub refusal-Passes :
    (r : GitFinalizationMove) (g : GitFinalizationRecord) → refusal r g ≡ none → Passes r g
unfolding refusal
refusal-Passes r g h =
    let (a, h1) = if_none _ _ _ h in
    let (b, h2) = if_none _ _ _ h1 in
    let (c, h3) = if_none _ _ _ h2 in
    let (d, h4) = if_none _ _ _ h3 in
    let (e, h5) = if_none _ _ _ h4 in
    let (f, h6) = if_none _ _ _ h5 in
    (not_refused (can_transition_to g.state r.next_state) a, b, d, f)

sound_after :
    (r : GitFinalizationMove) (g : GitFinalizationRecord)
    → Passes r g
    → is_unsound g ≡ false
    → is_unsound (moved r g) ≡ false
unfolding is_unsound is_sound moved is_finalizing is_completed is_push_pending is_push_mode
    is_terminal can_transition_to
sound_after r g (t, p, i, c) s = ground (
  arith,
  coalesce_some r.task_identity g.task_identity,
  coalesce_keeps g.task_identity r.task_identity,
  coalesce_kept r.commit_oid g.commit_oid,
)

key_moved :
    (r : GitFinalizationMove) (p : ℕ) (s : Text) (g : GitFinalizationRecord)
    → is_expected r g ≡ true
    → journal_of p s (moved r g) ≡ journal_of p s g
unfolding journal_of moved
key_moved r p s g h = refl

of_expected :
    (r : GitFinalizationMove) (g : GitFinalizationRecord)
    → is_expected r g ≡ true
    → journal_of r.project_id r.codex_session_id g ≡ true
unfolding is_expected
of_expected r g h = ground arith

-- The journals of another project stay as they are.
pending_elsewhere :
    (r : GitFinalizationMove) (p : ℕ) (g : GitFinalizationRecord)
    → (p == r.project_id) ≡ false
    → is_expected r g ≡ true
    → is_pending_of p (moved r g) ≡ is_pending_of p g
unfolding is_expected journal_of is_pending_of moved
pending_elsewhere r p g n h =
    ground (arith, ==_iff g.project_id r.project_id, ==_iff g.project_id p)

-- A move whose checks are passed leaves the journals sound.
pub move_row-IsSound :
    (r : GitFinalizationMove) (db : Db) (current : GitFinalizationRecord)
    → find (journal_of r.project_id r.codex_session_id) db.journals ≡ some current
    → Passes r current
    → ltb 1 (count (is_pending_of r.project_id) (move_row r db).journals) ≡ false
    → IsSound db.journals
    → IsSound (move_row r db).journals
unfolding move_row
move_row-IsSound r db g e c u s = record {
  keyed = λ p t.
      rw (count-update (journal_of p t) (is_expected r) (moved r) db.journals (key_moved r p t))
        (s.keyed p t);
  pending = λ p. elim (Bool-cases (p == r.project_id)) [
    | inl k ↦ rw ((==_iff p r.project_id).0 k) (ground arith)
    | inr k ↦
        rw
          (count-update (is_pending_of p) (is_expected r) (moved r) db.journals
            (λ x. pending_elsewhere r p x k))
          (s.pending p)
  ];
  sound =
      any-update_found is_unsound (journal_of r.project_id r.codex_session_id) (is_expected r)
        (moved r) db.journals (of_expected r) (s.keyed r.project_id r.codex_session_id) e
        (sound_after r g c (
          ground (
            arith,
            any_of_find is_unsound (journal_of r.project_id r.codex_session_id) db.journals e,
            s.sound,
            Bool-cases (is_unsound g),
          )))
        s.sound;
}

new_key :
    (n : NewGitFinalization) (p : ℕ) (s : Text) (js : List GitFinalizationRecord)
    → any (journal_of n.project_id n.codex_session_id) js ≡ false
    → journal_of p s (new_journal n) ≡ true
    → any (journal_of p s) js ≡ false
unfolding journal_of new_journal
new_key n p s js h k =
    rw
      (
        sym ((==_iff n.project_id p).0 (ground arith)),
        sym (text_eq→eq n.codex_session_id s (ground arith)),
      )
      h

pub insert_new-IsSound :
    (n : NewGitFinalization) (db : Db)
    → any (journal_of n.project_id n.codex_session_id) db.journals ≡ false
    → IsSound db.journals
    → IsSound (db.journals ++ new_journal n ∷ [])
unfolding new_journal is_pending_of is_finalizing is_unsound is_sound is_completed is_push_pending
    is_terminal any count
insert_new-IsSound n db h s = record {
  keyed = λ p t.
      count-append_one (journal_of p t) (new_journal n) db.journals (new_key n p t db.journals h)
        (s.keyed p t);
  pending = λ p.
      ground (arith, count-append (is_pending_of p) db.journals (new_journal n ∷ []), s.pending p);
  sound = any-append is_unsound db.journals (new_journal n ∷ []) ∙ ground (arith, s.sound);
}
