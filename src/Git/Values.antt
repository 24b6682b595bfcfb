-- ===== src/Git/Values.antt =====
-- The text forms of `GitFinalizationState` of src/agent.rs.
use clt_rs.Prelude.{◌≡◌, refl, ◌↔◌, some, Text, codes, text_eq, text_eq→eq, arith}
use clt_rs.Git.{
  GitFinalizationState, working, tracking, commit_pending, push_pending, completed, cancelled,
  state_database_value, state_from_database,
}

state-read_back : (s : GitFinalizationState) → state_from_database (state_database_value s) ≡ some s
unfolding state_from_database state_database_value text_eq
state-read_back working = refl
state-read_back tracking = refl
state-read_back commit_pending = refl
state-read_back push_pending = refl
state-read_back completed = refl
state-read_back cancelled = refl

state-text :
    (t : Text) (s : GitFinalizationState)
    → state_from_database t ≡ some s
    → t ≡ state_database_value s
unfolding state_from_database state_database_value
state-text t s h = ground (
  arith,
  text_eq→eq t (codes "working"),
  text_eq→eq t (codes "tracking"),
  text_eq→eq t (codes "commit_pending"),
  text_eq→eq t (codes "push_pending"),
  text_eq→eq t (codes "completed"),
  text_eq→eq t (codes "cancelled"),
)

-- A text is read as a state of a finalization journal exactly when it is the text that the state is
-- stored as.
pub state_from_database_iff :
    (t : Text) (s : GitFinalizationState)
    → (state_from_database t ≡ some s) ↔ (t ≡ state_database_value s)
state_from_database_iff t s = (state-text t s, λ e. rw e (state-read_back s))
