-- ===== src/Examples/Controlling.antt =====
-- The theorems on session controls at concrete inputs.
use clt_rs.Sessions.Running.{is_running, starts, running_needs_start}
use clt_rs.Sql.{any}
use clt_rs.Sessions.Statements.{in_session}
use clt_rs.Sessions.Statements.{session_in}
use clt_rs.Sessions.Handoffs.{is_exiting}
use clt_rs.Sessions.Statements.{hand_lease}
use clt_rs.Sessions.Handoffs.{finish_exit}
use clt_rs.Leases.{held_by}
use clt_rs.Sessions.Handoffs.{hand_over}
use clt_rs.Sessions.{control_database_value}
use clt_rs.Sessions.Statements.{in_control}
use clt_rs.Sessions.Handoffs.{terminal_state}
use clt_rs.Sessions.Handoffs.{is_process}
use clt_rs.Sessions.Handoffs.{is_generation}
use clt_rs.Sessions.Handoffs.{exit_transaction}
use clt_rs.Prelude.{ℕ, ◌≡◌, refl, false, none, some, List, [], ◌∷◌, arith, Text, codes, text_eq}
use clt_rs.Sql.{count, find, ok}
use clt_rs.Sessions.{AgentSessionControlRecord, running, interrupt_requested, resume_requested}
use clt_rs.Store.{Db}
use clt_rs.Sessions.Statements.{new_control}
use clt_rs.Sessions.Handoffs.{AutomatedSessionFinalization, finalize_automated_session_after_exit}
use clt_rs.Sessions.Steps.{state_in, IsKeyed}
use clt_rs.Sessions.Histories.{
  Operation, finalize, interrupt, recover_automated, apply_all, Steps, apply_all-refines, actions,
}
use clt_rs.Sessions.Exits.{IsSettled, finalize_automated-settles, finalize_automated-unrecorded}
use clt_rs.Examples.{scheduler, leased}

abbrev session : Text
session = codes "c0ffee"

abbrev token : Text
token = codes "run-1"

abbrev guardian : Text
guardian = codes "clt-interactive-9"

-- The run of a session by process 42.
abbrev control : AgentSessionControlRecord
control = record (new_control 1 session running (codes "100")) {
  child_pid = some 42;
  run_token = some token;
}

abbrev working : Db
working = record leased { controls = control ∷ [] }

-- The same run, whose terminal was asked for.
abbrev asked : Db
asked = record leased {
  controls =
      record control { state = interrupt_requested; interactive_holder = some guardian } ∷ [];
}

abbrev exit_of : ℕ → AutomatedSessionFinalization
exit_of pid = record {
  project_id = 1;
  expected_child_pid = pid;
  expected_run_token = token;
  lease_holder = scheduler;
  acquired_at = codes "200";
  expires_at = codes "260";
  updated_at = codes "200";
  reattached_session_id = none;
}

abbrev operations : List Operation
operations =
    interrupt 1 session 42 token guardian (codes "150")
    ∷ finalize (exit_of 42)
    ∷ recover_automated 1 session running resume_requested 42 (some token) (codes "300")
    ∷ []

IsKeyed-working : IsKeyed working.controls
unfolding IsKeyed count
IsKeyed-working = λ p s. ground arith

apply_all-refines_example :
    Steps
      (actions operations)
      (state_in 1 session working.controls)
      (state_in 1 session (apply_all operations working).controls)
apply_all-refines_example = apply_all-refines operations working 1 session IsKeyed-working

IsKeyed-asked : IsKeyed asked.controls
unfolding IsKeyed count
IsKeyed-asked = λ p s. ground arith

running_needs_start_example :
    is_running (state_in 1 session (apply_all operations asked).controls) ≡ false
unfolding is_running starts actions any find in_session text_eq
running_needs_start_example = running_needs_start operations asked 1 session IsKeyed-asked refl refl

finalize_automated-settles_example :
    IsSettled (exit_of 42) asked (finalize_automated_session_after_exit (exit_of 42) asked).1
unfolding finalize_automated_session_after_exit exit_transaction find is_generation is_process
    text_eq terminal_state in_control control_database_value hand_over count held_by finish_exit
    hand_lease is_exiting session_in in_session
finalize_automated-settles_example = finalize_automated-settles (exit_of 42) asked refl

-- No control names process 43.
unrecorded_exit : (finalize_automated_session_after_exit (exit_of 43) asked).0 ≡ ok false
unfolding finalize_automated_session_after_exit exit_transaction find is_generation is_process
unrecorded_exit = refl

finalize_automated-unrecorded_example :
    (finalize_automated_session_after_exit (exit_of 43) asked).1 ≡ asked
finalize_automated-unrecorded_example =
    finalize_automated-unrecorded (exit_of 43) asked (λ e. cc (e, unrecorded_exit))
