-- ===== src/Git/Transitions.antt =====
-- What chains of transitions `GitFinalizationState::can_transition_to` of src/agent.rs allows.
use clt_rs.Prelude.{◌≡◌, ◌∙◌, ◌||◌, refl, ◌⊎◌, inl, inr, Bool, true, false, arith}
use clt_rs.Git.{
  GitFinalizationState, working, tracking, commit_pending, completed, cancelled, can_transition_to,
  is_terminal, is_finalizing,
}

-- A journal goes through the states of a list, each move accepted.
pub data Moves : GitFinalizationState → GitFinalizationState → Type 0 where
  here : {s : GitFinalizationState} → Moves s s
  move : {s t u : GitFinalizationState} → can_transition_to s t ≡ true → Moves t u → Moves s u

-- Once proof of a commit is sought, the journal never goes back to `working` and is never cancelled.
step-sealed :
    (s t : GitFinalizationState)
    → can_transition_to s t ≡ true
    → is_finalizing s ≡ true
    → (is_finalizing t ≡ true) ⊎ (t ≡ completed)
unfolding can_transition_to is_finalizing
step-sealed s t h f = ground arith

terminal-stuck : (s t : GitFinalizationState) → is_terminal s ≡ true → can_transition_to s t ≡ false
unfolding can_transition_to is_terminal
terminal-stuck s t h = ground arith

-- A journal in a terminal state stays in it, whatever chain of accepted transitions follows.
pub terminal_absorbs : {s t : GitFinalizationState} → Moves s t → is_terminal s ≡ true → t ≡ s
terminal_absorbs here h = refl
terminal_absorbs (move {s = s} {t = t} e m) h = ground (arith, terminal-stuck s t h)

-- A journal that is finalizing is finalizing or completed after any chain of accepted transitions:
-- it is never cancelled and never works again.
pub finalizing_ends :
    {s t : GitFinalizationState}
    → Moves s t
    → is_finalizing s ≡ true
    → (is_finalizing t ≡ true) ⊎ (t ≡ completed)
unfolding is_terminal
finalizing_ends here h = inl h
finalizing_ends (move {s = s} {t = t} e m) h = elim (step-sealed s t e h) [
  | inl f ↦ finalizing_ends m f
  | inr c ↦ inr (terminal_absorbs m (rw c refl) ∙ c)
]

abbrev is_commit_pending : GitFinalizationState → Bool
is_commit_pending commit_pending = true
is_commit_pending _ = false

-- Whether a chain has a move from `commit_pending`.
pub visits_commit : {s t : GitFinalizationState} → Moves s t → Bool
visits_commit here = false
visits_commit (move {s = s} e m) = is_commit_pending s || visits_commit m

abbrev pub before_commit : GitFinalizationState → Bool
before_commit working = true
before_commit tracking = true
before_commit _ = false

step-before_commit :
    (s t : GitFinalizationState)
    → can_transition_to s t ≡ true
    → before_commit s ≡ true
    → (before_commit t ≡ true) ⊎ (t ≡ commit_pending) ⊎ (t ≡ cancelled)
unfolding can_transition_to
step-before_commit s t h b = ground arith

visits_from_commit :
    {s t : GitFinalizationState} (m : Moves s t)
    → s ≡ commit_pending
    → t ≡ completed
    → visits_commit m ≡ true
unfolding visits_commit
visits_from_commit here b c = ground arith
visits_from_commit (move {s = s} e m) b c = ground arith

not_from_cancelled : {s t : GitFinalizationState} → Moves s t → s ≡ cancelled → t ≡ completed → ⊥
unfolding is_terminal
not_from_cancelled m b c = cc (b, c, terminal_absorbs m (rw b refl))

-- A chain from `working` or `tracking` that ends in `completed` moves out of `commit_pending`: no
-- journal is completed without a commit to prove.
pub completed_needs_commit :
    {s t : GitFinalizationState} (m : Moves s t)
    → before_commit s ≡ true
    → t ≡ completed
    → visits_commit m ≡ true
unfolding visits_commit
completed_needs_commit here b c = ground arith
completed_needs_commit (move {s = s} {t = t} e m) b c = elim (step-before_commit s t e b) [
  | inl f ↦ ground (arith, completed_needs_commit m f c)
  | inr (inl p) ↦ ground (arith, visits_from_commit m p c)
  | inr (inr x) ↦ absurd (not_from_cancelled m x c)
]
