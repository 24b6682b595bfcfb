-- ===== src/Projects/Failures.antt =====
-- How a project's row counts its failures: `update_project_after_run` of src/agent.rs.
use clt_rs.Prelude.{
  ℕ, suc, ◌+◌, ◌≡◌, refl, ap, ◌∙◌, ◌⊎◌, inl, inr, true, false, some, List, [], ◌∷◌, arith,
  if◌then◌else◌, Text, codes, text_eq, text_eq→eq,
}
use clt_rs.Store.{AgentProject}
use clt_rs.Projects.{is_success, is_failure, project_after_run}

failure_texts :
    (status : Text)
    → is_failure status ≡ true
    → (status ≡ codes "failure") ⊎ (status ≡ codes "timeout")
unfolding is_failure
failure_texts status h =
    ground (arith, text_eq→eq status (codes "failure"), text_eq→eq status (codes "timeout"))

no_other :
    (status : Text)
    → (status ≡ codes "failure") ⊎ (status ≡ codes "timeout")
    → (is_success status ≡ false) × (text_eq status (codes "blocked") ≡ false)
unfolding is_success text_eq
no_other status (inl e) = rw e (refl, refl)
no_other status (inr e) = rw e (refl, refl)

pub project_after_run-failure :
    (status finished_at : Text) (p : AgentProject)
    → is_failure status ≡ true
    → project_after_run status finished_at p ≡ record p {
      last_run_at = some finished_at;
      last_failure_at = some finished_at;
      failure_count = p.failure_count + 1;
      updated_at = finished_at;
    }
unfolding project_after_run
project_after_run-failure status finished_at p h =
    ground (arith, no_other status (failure_texts status h))

-- The row after the runs of a list, the last first.
abbrev pub after_runs : List (Text × Text) → AgentProject → AgentProject
after_runs [] p = p
after_runs ((status, at) ∷ earlier) p = project_after_run status at (after_runs earlier p)

-- The failures since the last success, before which there were `n`.
abbrev pub failures_since : ℕ → List (Text × Text) → ℕ
failures_since n [] = n
failures_since n ((status, at) ∷ earlier) =
    let before = failures_since n earlier in
    if is_success status then 0 else if is_failure status then suc before else before

counted :
    (status finished_at : Text) (p : AgentProject)
    → (project_after_run status finished_at p).failure_count ≡ (
        if is_success status
        then 0
        else if is_failure status
        then suc p.failure_count
        else p.failure_count)
unfolding project_after_run
counted status finished_at p =
    ground (arith, λ (h : is_failure status ≡ true). no_other status (failure_texts status h))

-- After any runs a project's row counts the failures and timeouts since the last successful or
-- idle run; without such a run they are added to what it counted before.
pub failure_count-after_runs :
    (runs : List (Text × Text)) (p : AgentProject)
    → (after_runs runs p).failure_count ≡ failures_since p.failure_count runs
failure_count-after_runs [] p = refl
failure_count-after_runs ((status, at) ∷ earlier) p =
    counted status at (after_runs earlier p)
    ∙ ap (λ n. if is_success status then 0 else if is_failure status then suc n else n)
        (failure_count-after_runs earlier p)
