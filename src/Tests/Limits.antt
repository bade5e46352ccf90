-- ===== src/Tests/Limits.antt =====
-- The theorems about budgets and the iteration limit at a workflow of one step with a retry.
use arazzo_cli.Base.{
  ℕ, zero, suc, ◌*◌, ◌<◌, ◌≡◌, refl, min, max, none, some, [], ◌∷◌, length, arith,
}
use arazzo_cli.Routing.Decision.{Inputs, RetryCounts, FlowDecision, effective_retry_limit}
use arazzo_cli.Budget.{u128_max, compute_max_iterations, count_retry}
use arazzo_cli.Budget.Sums.{attempts_sum, compute_max_iterations_lem}
use arazzo_cli.Budget.Left.{left_in, left_in-used}
use arazzo_cli.Invocation.Monad.{Exec, pure, Ensures, Ensures-pure}
use arazzo_cli.Invocation.Calls.{Runner}
use arazzo_cli.Invocation.{run_steps, no_counts}
use arazzo_cli.Invocation.Iterations.{
  GoesForward, Settled, RoutesForward, run_steps-Settled_in_limit,
}
use arazzo_cli.Routing.Within.{within}
use arazzo_cli.Errors.{iteration_limit_exceeded}
use arazzo_cli.Invocation.{sequential}
use arazzo_cli.Invocation.Monad.{raise, ◌>>◌}
use arazzo_cli.Invocation.NoSteps.{sequential-no_steps}
use arazzo_cli.Tests.{workflow_of}
use arazzo_cli.Tests.{action, login, single}
use arazzo_cli.Spec.{ActionType}
use arazzo_cli.Base.{String, true, false}

compute_max_iterations_example :
    compute_max_iterations (login ∷ []) []
    ≡ max
        (min (2 * attempts_sum [] (login ∷ [])) u128_max)
        (min (10 * length (login ∷ [])) u128_max)
compute_max_iterations_example = compute_max_iterations_lem (login ∷ []) []

abbrev once : RetryCounts
once = λ i k. 1

left_in-used_example :
    suc (left_in [] (count_retry once (record { step_index = 0; action_index = 1 })) 0 (login ∷ []))
    ≡ left_in [] once 0 (login ∷ [])
unfolding effective_retry_limit
left_in-used_example =
    left_in-used [] once 0 1 0 0 (login ∷ []) login (action (some ActionType.retry) (some 2) [])
      refl refl refl refl (omega arith)

-- The first failure of a step is retried, and the next ends the workflow.
abbrev pub route_login : (i count : ℕ) → FlowDecision
route_login i zero = FlowDecision.retry i (record { step_index = i; action_index = 1 }) 2 0 none
route_login i (suc count) = FlowDecision.done_flow

abbrev pub attempts_only : Runner (Unit {0})
attempts_only = record {
  check_cancelled = pure tt;
  get_workflow = λ id. some single;
  workflow_is_completed = λ id. pure true;
  validate_and_populate_inputs = λ w inputs. pure tt;
  arm_receivers = λ w steps. pure tt;
  parallel_mode = false;
  debugger_attached = false;
  push_sequential_fallback = λ w reason. pure tt;
  execute_parallel = λ w. pure [];
  own_inputs = pure [];
  debug_gate_step = λ w i. pure tt;
  begin_attempt = λ w i. pure tt;
  run_and_route = λ call w i counts. pure (route_login i (counts i 1));
  execute_retry_reference = λ call w i reference. pure tt;
  emit_retry_scheduled = λ i retry limit delay. pure tt;
  mark_workflow_completed = λ id. pure tt;
  emit_workflow_completed = λ id. pure tt;
  build_outputs = λ w. pure [];
}

abbrev no_call : String → Inputs → Exec (Unit {0}) Inputs
no_call id inputs = pure []

route_login-GoesForward :
    (i count : ℕ) (counts : RetryCounts)
    → counts i 1 ≡ count
    → i < 1
    → GoesForward single i counts (route_login i count)
unfolding effective_retry_limit
route_login-GoesForward zero zero counts e h = (
  login,
  refl,
  within 1 (action (some ActionType.retry) (some 2) []) 0 none refl refl (omega (arith, e)),
)
route_login-GoesForward zero (suc count) counts e h = tt
route_login-GoesForward (suc i) count counts e h = absurd (omega arith)

attempts_only-RoutesForward : RoutesForward attempts_only single no_call
attempts_only-RoutesForward i counts h =
    Ensures-pure (route_login i (counts i 1)) (route_login-GoesForward i (counts i 1) counts refl h)

attempts-fit : attempts_sum [] single.steps < u128_max
unfolding effective_retry_limit
attempts-fit = omega arith

run_steps-Settled_in_limit_example : Ensures Settled (
    run_steps attempts_only single no_call
      (compute_max_iterations single.steps [])
      0
      (no_counts attempts_only single no_call))
run_steps-Settled_in_limit_example =
    run_steps-Settled_in_limit attempts_only single no_call attempts_only-RoutesForward
      (omega arith) attempts-fit

sequential-no_steps_example :
    (sequential attempts_only (workflow_of []) no_call).run tt
    ≡ (attempts_only.mark_workflow_completed "main" >> raise iteration_limit_exceeded).run tt
sequential-no_steps_example = sequential-no_steps attempts_only (workflow_of []) no_call tt refl
