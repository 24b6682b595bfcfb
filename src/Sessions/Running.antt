-- ===== src/Sessions/Running.antt =====
-- Which operations make a session run: what sequences of operations of
-- src/agent/repositories/sessions_runs.rs do to a session that does not run.
use clt_rs.Prelude.{ℕ, ◌≡◌, refl, Bool, true, false, Option, some, List, arith, Text}
use clt_rs.Sql.{any}
use clt_rs.Sessions.{AgentSessionControlState, running}
use clt_rs.Store.{Db}
use clt_rs.Sessions.Steps.{
  Action, cancelling, starting, registering, changing, Step, stays, ask_interrupt, go_on, give_up,
  ask_stop, ask_stop_interactive, resume, open_new, open_stopped, open_waiting, finish_stop, change,
  plan, restore, forget, exit, exit_stopped, exit_interrupted, hand_over, adopt, close,
  close_stopped, hand_back, launch, run, register, run_resumed, run_planned, retire, drop_request,
  clear, request_resume, state_in, IsKeyed,
}
use clt_rs.Sessions.Histories.{Operation, apply_all, actions, Steps, done, next, apply_all-refines}

unfoldable pub is_running : Option AgentSessionControlState → Bool
is_running (some running) = true
is_running _ = false

-- A start, a registration, an interrupt that is taken back, and a recovery to `running`.
unfoldable pub starts : Action → Bool
unfolding is_running
starts starting = true
starts registering = true
starts cancelling = true
starts (changing s t) = is_running (some t)
starts _ = false

Step-rests :
    {a : Action} {s t : Option AgentSessionControlState}
    → Step a s t
    → starts a ≡ false
    → is_running s ≡ false
    → is_running t ≡ false
unfolding starts is_running
Step-rests (stays s) e h = h
Step-rests ask_interrupt e h = refl
Step-rests go_on e h = absurd cc
Step-rests give_up e h = refl
Step-rests ask_stop e h = refl
Step-rests ask_stop_interactive e h = refl
Step-rests resume e h = refl
Step-rests open_new e h = refl
Step-rests open_stopped e h = refl
Step-rests open_waiting e h = refl
Step-rests finish_stop e h = refl
Step-rests (change s t) e h = e
Step-rests plan e h = refl
Step-rests restore e h = refl
Step-rests forget e h = refl
Step-rests exit e h = refl
Step-rests exit_stopped e h = refl
Step-rests exit_interrupted e h = refl
Step-rests hand_over e h = refl
Step-rests adopt e h = refl
Step-rests close e h = refl
Step-rests close_stopped e h = refl
Step-rests hand_back e h = refl
Step-rests launch e h = absurd cc
Step-rests (run s) e h = absurd cc
Step-rests register e h = absurd cc
Step-rests run_resumed e h = absurd cc
Step-rests run_planned e h = absurd cc
Step-rests retire e h = refl
Step-rests drop_request e h = refl
Step-rests clear e h = refl
Step-rests request_resume e h = refl

Steps-rest :
    {acts : List Action} {s t : Option AgentSessionControlState}
    → Steps acts s t
    → any starts acts ≡ false
    → is_running s ≡ false
    → is_running t ≡ false
unfolding any
Steps-rest done e h = h
Steps-rest (next {a = a} st ss) e h = Steps-rest ss (ground arith) (Step-rests st (ground arith) h)

-- No session comes to run by itself: where no operation of a sequence is a start, a registration,
-- the withdrawal of an interrupt or a recovery to `running`, a session that does not run, or that
-- has no control, does not run afterwards, from a table in which no session has two controls.
pub running_needs_start :
    (os : List Operation) (db : Db) (project_id : ℕ) (session : Text)
    → IsKeyed db.controls
    → any starts (actions os) ≡ false
    → is_running (state_in project_id session db.controls) ≡ false
    → is_running (state_in project_id session (apply_all os db).controls) ≡ false
running_needs_start os db p s k = Steps-rest (apply_all-refines os db p s k)
