-- ===== src/Sessions/Steps.antt =====
-- The states that a session's control goes through, as a step relation under the action that an
-- operation of src/agent/repositories/sessions_runs.rs takes, and the statements that take such steps.
use clt_rs.Prelude.{
  ℕ, ◌≤◌, ◌≡◌, refl, sym, ap, ◌∙◌, inl, inr, Bool, true, false, Option, none, some, List, [], ◌∷◌,
  ◌++◌, arith, ==_iff, Bool-cases, unwrap_or, Text, text_eq, text_eq→eq,
}
use clt_rs.Sql.{any, count, find, delete, update}
use clt_rs.Sql.Laws.{count-append_one, count-delete-le, count-update}
use mathlib.Core.Path.{subst}
use clt_rs.Sessions.{
  AgentSessionControlState, running, stop_requested, stopped, interrupt_requested,
  ready_interactive, interactive, resume_requested, AgentSessionControlRecord,
  control_database_value, control_from_database,
}
use clt_rs.Sessions.Statements.{in_control, in_session}

-- What an operation sets out to do to the sessions it names.
pub data Action : Type 0 where
  watching interrupting cancelling stopping stopping_interactive resuming opening finishing : Action
  planning releasing ending handing adopting closing starting retiring dropping clearing : Action
  requesting registering : Action
  changing : AgentSessionControlState → AgentSessionControlState → Action

-- The steps that an action may take a session through: `none` is a session without a control.
pub data Step
    : Action → Option AgentSessionControlState → Option AgentSessionControlState → Type 0 where
  stays : {a : Action} (s : Option AgentSessionControlState) → Step a s s
  ask_interrupt : Step interrupting (some running) (some interrupt_requested)
  go_on : Step cancelling (some interrupt_requested) (some running)
  give_up : Step cancelling (some ready_interactive) (some resume_requested)
  ask_stop : Step stopping (some running) (some stop_requested)
  ask_stop_interactive : Step stopping_interactive (some interactive) (some stop_requested)
  resume : Step resuming (some stopped) (some resume_requested)
  open_new : Step opening none (some ready_interactive)
  open_stopped : Step opening (some stopped) (some ready_interactive)
  open_waiting : Step opening (some resume_requested) (some ready_interactive)
  finish_stop : Step finishing (some stop_requested) (some stopped)
  change : (s t : AgentSessionControlState) → Step (changing s t) (some s) (some t)
  plan : Step planning none (some stopped)
  restore : Step releasing (some ready_interactive) (some stopped)
  forget : Step releasing (some ready_interactive) none
  exit : Step ending (some running) (some resume_requested)
  exit_stopped : Step ending (some stop_requested) (some stopped)
  exit_interrupted : Step ending (some interrupt_requested) (some ready_interactive)
  hand_over : Step handing (some interrupt_requested) (some ready_interactive)
  adopt : Step adopting (some ready_interactive) (some interactive)
  close : Step closing (some interactive) (some stopped)
  close_stopped : Step closing (some stop_requested) (some stopped)
  hand_back : Step closing (some interactive) (some resume_requested)
  launch : Step starting none (some running)
  run : (s : AgentSessionControlState) → Step starting (some s) (some running)
  register : Step registering none (some running)
  run_resumed : Step registering (some resume_requested) (some running)
  run_planned : Step registering (some stopped) (some running)
  retire : Step retiring (some resume_requested) (some stopped)
  drop_request : Step dropping (some resume_requested) none
  clear : Step clearing (some running) none
  request_resume : Step requesting none (some resume_requested)

abbrev pub state_of : Option AgentSessionControlRecord → Option AgentSessionControlState
state_of none = none
state_of (some c) = some c.state

-- The state of a session in the table.
abbrev pub state_in : ℕ → Text → List AgentSessionControlRecord → Option AgentSessionControlState
state_in project_id session cs = state_of (find (in_session project_id session) cs)

-- The table's primary key.
unfoldable pub IsKeyed : List AgentSessionControlRecord → Type 0
IsKeyed cs = (project_id : ℕ) (session : Text) → count (in_session project_id session) cs ≤ 1

-- Every session takes one step, and the key stays unique.
pub record Moves (a : Action) (before after : List AgentSessionControlRecord) : Type 0 where
  pub keyed : IsKeyed before → IsKeyed after
  pub step :
      IsKeyed before
      → (project_id : ℕ) (session : Text)
      → Step a (state_in project_id session before) (state_in project_id session after)

from_database-database_value :
    (s : AgentSessionControlState) → control_from_database (control_database_value s) ≡ some s
unfolding control_from_database control_database_value text_eq
from_database-database_value running = refl
from_database-database_value stop_requested = refl
from_database-database_value stopped = refl
from_database-database_value interrupt_requested = refl
from_database-database_value ready_interactive = refl
from_database-database_value interactive = refl
from_database-database_value resume_requested = refl

same_state : {s t : AgentSessionControlState} → some s ≡ some t → s ≡ t
same_state {s} e = ap (λ o. unwrap_or o s) e

-- The test of a state column is equality.
pub in_control-eq :
    (state actual : AgentSessionControlState) → in_control state actual ≡ true → state ≡ actual
unfolding in_control
in_control-eq state actual h = same_state (
    sym (from_database-database_value state)
    ∙ ap control_from_database
        (sym (text_eq→eq (control_database_value actual) (control_database_value state) h))
    ∙ from_database-database_value actual)

pub from_state :
    {a : Action} (state actual : AgentSessionControlState) {after : Option AgentSessionControlState}
    → Step a (some state) after
    → in_control state actual ≡ true
    → Step a (some actual) after
from_state {a = a} state actual {after} st h =
    subst (λ s. Step a (some s) after) (in_control-eq state actual h) st

-- A change of a row that leaves its key alone.
unfoldable pub KeepsKey : (AgentSessionControlRecord → AgentSessionControlRecord) → Type 0
KeepsKey f =
    (p : ℕ) (s : Text) (c : AgentSessionControlRecord) → in_session p s (f c) ≡ in_session p s c

find-update :
    {a : Action} (h q : AgentSessionControlRecord → Bool)
    (f : AgentSessionControlRecord → AgentSessionControlRecord)
    (cs : List AgentSessionControlRecord)
    → ((c : AgentSessionControlRecord) → h (f c) ≡ h c)
    → ((c : AgentSessionControlRecord) → q c ≡ true → Step a (some c.state) (some (f c).state))
    → Step a (state_of (find h cs)) (state_of (find h (update q f cs)))
unfolding find update
find-update h q f [] k st = stays none
find-update h q f (c ∷ cs) k st = elim (Bool-cases (q c)) [
  | inl m ↦ rw m (elim (Bool-cases (h c)) [
    | inl n ↦ rw (k c) (rw n (st c m))
    | inr n ↦ rw (k c) (rw n (find-update h q f cs k st))
  ])
  | inr m ↦ rw m (elim (Bool-cases (h c)) [
    | inl n ↦ rw n (stays (some c.state))
    | inr n ↦ rw n (find-update h q f cs k st)
  ])
]

-- Updates that keep the states.
state_in-update :
    (h q : AgentSessionControlRecord → Bool)
    (f : AgentSessionControlRecord → AgentSessionControlRecord)
    (cs : List AgentSessionControlRecord)
    → ((c : AgentSessionControlRecord) → h (f c) ≡ h c)
    → ((c : AgentSessionControlRecord) → (f c).state ≡ c.state)
    → state_of (find h (update q f cs)) ≡ state_of (find h cs)
unfolding find update
state_in-update h q f [] k e = refl
state_in-update h q f (c ∷ cs) k e = elim (Bool-cases (q c)) [
  | inl m ↦ rw m (elim (Bool-cases (h c)) [
    | inl n ↦ rw (k c) (rw n (ap some (e c)))
    | inr n ↦ rw (k c) (rw n (state_in-update h q f cs k e))
  ])
  | inr m ↦
      rw m (elim (Bool-cases (h c)) [
        | inl n ↦ rw n refl
        | inr n ↦ rw n (state_in-update h q f cs k e)
      ])
]

IsKeyed-update :
    (q : AgentSessionControlRecord → Bool)
    (f : AgentSessionControlRecord → AgentSessionControlRecord)
    (cs : List AgentSessionControlRecord)
    → KeepsKey f
    → IsKeyed cs
    → IsKeyed (update q f cs)
unfolding KeepsKey IsKeyed
IsKeyed-update q f cs k u p s = rw (count-update (in_session p s) q f cs (λ c e. k p s c)) (u p s)

pub Moves-after_update :
    {a : Action} (q : AgentSessionControlRecord → Bool)
    (f : AgentSessionControlRecord → AgentSessionControlRecord)
    (cs after : List AgentSessionControlRecord)
    → KeepsKey f
    → ((c : AgentSessionControlRecord) → (f c).state ≡ c.state)
    → Moves a (update q f cs) after
    → Moves a cs after
unfolding KeepsKey
Moves-after_update {a = a} q f cs after k e m = record {
  keyed = λ v. m.keyed (IsKeyed-update q f cs k v);
  step = λ v p s.
      subst (λ z. Step a z (state_in p s after)) (state_in-update (in_session p s) q f cs (k p s) e)
        (m.step (IsKeyed-update q f cs k v) p s);
}

pub Moves-same : {a : Action} (cs : List AgentSessionControlRecord) → Moves a cs cs
Moves-same cs = record { keyed = λ k. k; step = λ k p s. stays (state_in p s cs) }

pub Moves-update :
    {a : Action} (q : AgentSessionControlRecord → Bool)
    (f : AgentSessionControlRecord → AgentSessionControlRecord)
    (cs : List AgentSessionControlRecord)
    → KeepsKey f
    → ((c : AgentSessionControlRecord) → q c ≡ true → Step a (some c.state) (some (f c).state))
    → Moves a cs (update q f cs)
unfolding KeepsKey IsKeyed
Moves-update q f cs k st = record {
  keyed = λ u p s. rw (count-update (in_session p s) q f cs (λ c e. k p s c)) (u p s);
  step = λ u p s. find-update (in_session p s) q f cs (k p s) st;
}

find-append_new :
    {a : Action} (h : AgentSessionControlRecord → Bool) (c : AgentSessionControlRecord)
    (cs : List AgentSessionControlRecord)
    → (h c ≡ true → any h cs ≡ false)
    → Step a none (some c.state)
    → Step a (state_of (find h cs)) (state_of (find h (cs ++ c ∷ [])))
unfolding find any
find-append_new h c [] n st = elim (Bool-cases (h c)) [
  | inl m ↦ rw m st
  | inr m ↦ rw m (stays none)
]
find-append_new h c (d ∷ cs) n st = elim (Bool-cases (h d)) [
  | inl m ↦ rw m (stays (some d.state))
  | inr m ↦ rw m (find-append_new h c cs (λ e. ground (arith, n e)) st)
]

any_key :
    (p : ℕ) (s : Text) (c : AgentSessionControlRecord) (cs : List AgentSessionControlRecord)
    → any (in_session c.project_id c.codex_session_id) cs ≡ false
    → in_session p s c ≡ true
    → any (in_session p s) cs ≡ false
unfolding in_session
any_key p s c cs h e =
    let m = (==_iff c.project_id p).0 (ground arith) in
    let n = text_eq→eq c.codex_session_id s (ground arith) in rw⁻¹ m (rw⁻¹ n h)

pub Moves-insert :
    {a : Action} (c : AgentSessionControlRecord) (cs : List AgentSessionControlRecord)
    → any (in_session c.project_id c.codex_session_id) cs ≡ false
    → Step a none (some c.state)
    → Moves a cs (cs ++ c ∷ [])
unfolding IsKeyed
Moves-insert c cs h st = record {
  keyed = λ u p s. count-append_one (in_session p s) c cs (any_key p s c cs h) (u p s);
  step = λ u p s. find-append_new (in_session p s) c cs (any_key p s c cs h) st;
}

gone :
    (h q : AgentSessionControlRecord → Bool) (cs : List AgentSessionControlRecord)
    → count h cs ≡ 0
    → find h (delete q cs) ≡ none
unfolding find delete count
gone h q [] e = refl
gone h q (c ∷ cs) e = ground (arith, gone h q cs)

find-delete_one :
    {a : Action} (h q : AgentSessionControlRecord → Bool) (cs : List AgentSessionControlRecord)
    → count h cs ≤ 1
    → ((c : AgentSessionControlRecord) → q c ≡ true → Step a (some c.state) none)
    → Step a (state_of (find h cs)) (state_of (find h (delete q cs)))
unfolding find delete count
find-delete_one h q [] u st = stays none
find-delete_one h q (c ∷ cs) u st = elim (Bool-cases (h c)) [
  | inl n ↦ elim (Bool-cases (q c)) [
    | inl m ↦ rw n (rw m (rw (gone h q cs (ground (arith, n, u))) (st c m)))
    | inr m ↦ rw m (rw n (stays (some c.state)))
  ]
  | inr n ↦ elim (Bool-cases (q c)) [
    | inl m ↦ rw n (rw m (find-delete_one h q cs (ground (arith, n, u)) st))
    | inr m ↦ rw m (rw n (find-delete_one h q cs (ground (arith, n, u)) st))
  ]
]

pub Moves-delete :
    {a : Action} (q : AgentSessionControlRecord → Bool) (cs : List AgentSessionControlRecord)
    → ((c : AgentSessionControlRecord) → q c ≡ true → Step a (some c.state) none)
    → Moves a cs (delete q cs)
unfolding IsKeyed
Moves-delete q cs st = record {
  keyed = λ u p s. omega (arith, count-delete-le (in_session p s) q cs, u p s);
  step = λ u p s. find-delete_one (in_session p s) q cs (u p s) st;
}
