-- ===== src/Runner.antt =====
-- How a run that has ended is classified: `AgentProcessWait`, `AgentSupervisionOutcome` and
-- `classify_agent_supervision_stage` of src/runner.rs. The exit status of a process is the standard
-- library's: its type, its code, whether it is a success and its text are parameters.
pub mod Outcomes
use mathlib.Core.Option
use clt_rs.Prelude.{
  ℕ, zero, suc, ◌+◌, ◌-◌, ◌*◌, ◌/◌, ◌%◌, ◌^◌, ◌≤◌, ◌<◌, ◌≡◌, refl, sym, ap, ◌∙◌, ◌≢◌, ◌↔◌, ◌⊎◌, inl,
  inr, Bool, true, false, ◌&&◌, ◌||◌, not, Option, none, some, List, [], ◌∷◌, ◌++◌, arith,
  if◌then◌else◌, ltb, leb, ◌==◌, ==_iff, ==_refl, Bool-cases, Option-cases, is_some, is_none,
  unwrap_or, Text, codes, text_eq, text_eq→eq, text_eq_refl, text_eq_iff, starts_with, text_leb,
  is_digit, cast_digits, cast_integer, u64_max, parse_digits, parse_unsigned, parse_u64,
  like_prefix, decimal, length,
}
use clt_rs.Store.{ℤ}
use clt_rs.Sessions.{AgentSessionControlAction, stop, interrupt}

pub data AgentProcessWait (E : Type 0) : Type 0 where
  exited : E → AgentProcessWait E
  timed_out : Option E → AgentProcessWait E
  interrupted : Option E → AgentProcessWait E

-- The timeout in seconds.
pub record AgentSupervisionOutcomeRequest (E : Type 0) : Type 0 where
  pub wait_result : AgentProcessWait E
  pub requested_control : Option AgentSessionControlAction
  pub reported_no_tasks : Bool
  pub timeout : ℕ

pub record AgentSupervisionOutcome : Type 0 where
  pub status : Text
  pub exit_code : Option ℤ
  pub summary : Text
  pub stderr_note : Option Text

module _ {E : Type 0} (code : E → Option ℤ) (success : E → Bool) (display : E → Text) where
  unfoldable pub wait_exit_code : AgentProcessWait E → Option ℤ
  wait_exit_code (exited status) = code status
  wait_exit_code (timed_out status) = Option.bind status code
  wait_exit_code (interrupted status) = Option.bind status code

  unfoldable pub classify_controlled :
      AgentSessionControlAction → AgentProcessWait E → AgentSupervisionOutcome
  classify_controlled stop wait = record {
    status = codes "stopped";
    exit_code = wait_exit_code wait;
    summary = codes "Codex task session stopped and remains resumable.";
    stderr_note = some (codes "Codex stopped by task-session control.");
  }
  classify_controlled interrupt wait = record {
    status = codes "handoff";
    exit_code = wait_exit_code wait;
    summary = codes "Codex task session is ready for interactive handoff.";
    stderr_note = some (codes "Codex interrupted for an interactive session handoff.");
  }

  unfoldable pub classify_exited : Bool → E → AgentSupervisionOutcome
  classify_exited reported_no_tasks status =
      if reported_no_tasks
      then record {
        status = codes "idle";
        exit_code = code status;
        summary = codes "Codex reported no available tasks.";
        stderr_note = none;
      }
      else if success status
      then record {
        status = codes "success";
        exit_code = code status;
        summary = codes "Codex run completed successfully.";
        stderr_note = none;
      }
      else record {
        status = codes "failure";
        exit_code = code status;
        summary = codes "Codex exited with status " ++ display status ++ codes ".";
        stderr_note = none;
      }

  abbrev pub timeout_summary : ℕ → Text
  timeout_summary timeout = codes "Codex timed out after " ++ decimal timeout ++ codes " seconds."

  unfoldable pub classify_wait : AgentProcessWait E → Bool → ℕ → AgentSupervisionOutcome
  classify_wait (exited status) reported_no_tasks timeout = classify_exited reported_no_tasks status
  classify_wait (timed_out status) reported_no_tasks timeout = record {
    status = codes "timeout";
    exit_code = Option.bind status code;
    summary = timeout_summary timeout;
    stderr_note = some (timeout_summary timeout);
  }
  classify_wait (interrupted status) reported_no_tasks timeout = record {
    status = codes "interrupted";
    exit_code = Option.bind status code;
    summary = codes "Codex stopped because the agent is shutting down.";
    stderr_note = some (codes "Codex stopped because the agent is shutting down.");
  }

  abbrev pub classify_requested :
      Option AgentSessionControlAction → AgentProcessWait E → Bool → ℕ → AgentSupervisionOutcome
  classify_requested (some action) wait reported_no_tasks timeout = classify_controlled action wait
  classify_requested none wait reported_no_tasks timeout =
      classify_wait wait reported_no_tasks timeout

  unfoldable pub classify_agent_supervision_stage :
      AgentSupervisionOutcomeRequest E → AgentSupervisionOutcome
  classify_agent_supervision_stage request =
      classify_requested request.requested_control request.wait_result request.reported_no_tasks
        request.timeout
