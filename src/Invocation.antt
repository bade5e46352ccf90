-- ===== src/Invocation.antt =====
-- The sequential execution of a workflow: `execute_inner` and `require_workflow_dependencies` of
-- crates/arazzo-runtime/src/runtime_core/engine_impl.rs, and `sequential_fallback` of engine_parallel.rs.
pub mod Monad
pub mod Calls
pub mod Iterations
pub mod NoSteps
use arazzo_cli.Base.{
  ℕ, zero, suc, ◌+◌, ◌≡◌, String, Bool, true, false, Option, none, some, List, [], ◌∷◌, length, leb,
  if◌then◌else◌, is_empty, unwrap_or,
}
use arazzo_cli.Errors.{
  RuntimeErrorKind, Result, ok, err, max_call_depth_exceeded, workflow_not_found,
  workflow_dependency_unsatisfied, iteration_limit_exceeded, is_cancellation,
}
use arazzo_cli.Spec.{Step, Workflow}
use arazzo_cli.Routing.Decision.{Inputs, RetrySite, RetryCounts, RetryReference, FlowDecision}
use arazzo_cli.Budget.{compute_max_iterations, count_retry}
use arazzo_cli.Deps.Blocker.{SequentialFallbackReason, ParallelBlocker, debugger, parallel_blocker}
use arazzo_cli.Invocation.Monad.{Exec, ◌>>=◌, ◌>>◌, pure, raise, tried}
use arazzo_cli.Invocation.Calls.{Runner, local_dependency}

abbrev pub max_call_depth : ℕ
max_call_depth = 10

-- How the loop over the steps ends, where no error is returned from it.
pub data LoopEnd : Type 0 where
  -- `completed = true`.
  completed : LoopEnd
  -- A `goto` to a workflow: its result is the caller's.
  transferred : Result Inputs → LoopEnd
  -- The iterations are used up.
  not_completed : LoopEnd

module _ {W : Type 0} (r : Runner W) (w : Workflow) where
  -- `mark_workflow_completed`, the event, and `return Err(err)`.
  failed : RuntimeErrorKind → Exec W LoopEnd
  failed e = do
    r.mark_workflow_completed w.workflow_id
    r.emit_workflow_completed w.workflow_id
    raise e

  reference_result : Result (Unit {0}) → Exec W (Unit {0})
  reference_result (ok u) = r.check_cancelled
  reference_result (err e) = do
    r.check_cancelled
    r.mark_workflow_completed w.workflow_id
    r.emit_workflow_completed w.workflow_id
    raise e

  -- The recovery reference runs before the step is retried.
  recover : (String → Inputs → Exec W Inputs) → ℕ → Option RetryReference → Exec W (Unit {0})
  unfolding reference_result
  recover call idx none = pure tt
  recover call idx (some reference) = do
    result ← tried (r.execute_retry_reference call w idx reference)
    reference_result result

  transfer : String → Option Inputs → (String → Inputs → Exec W Inputs) → Exec W LoopEnd
  transfer id inputs call = do
    r.check_cancelled
    own ← r.own_inputs
    result ← tried (call id (unwrap_or own inputs))
    elim result [
      | ok outputs ↦ r.mark_workflow_completed w.workflow_id >> pure (transferred (ok outputs))
      | err e ↦
          if is_cancellation e
          then pure (transferred (err e))
          else r.mark_workflow_completed w.workflow_id >> pure (transferred (err e))
    ]

  module _ (call : String → Inputs → Exec W Inputs) where
    -- The `match` on a round's decision; `again` is the next round.
    by_flow : (ℕ → RetryCounts → Exec W LoopEnd) → RetryCounts → FlowDecision → Exec W LoopEnd
    unfolding failed recover transfer
    by_flow again counts (FlowDecision.next idx) = again idx counts
    by_flow again counts (FlowDecision.retry idx site limit delay reference) = do
      r.check_cancelled
      recover call idx reference
      r.emit_retry_scheduled idx (count_retry counts site site.step_index site.action_index) limit
          delay
      r.check_cancelled
      again idx (count_retry counts site)
    by_flow again counts FlowDecision.done_flow = pure completed
    by_flow again counts (FlowDecision.goto_workflow id inputs) = transfer id inputs call
    by_flow again counts (FlowDecision.error e) = failed e

    -- The body of the `for` loop behind the test of `step_index`.
    attempt : ℕ → RetryCounts → Exec W FlowDecision
    attempt step_index counts = do
      r.debug_gate_step w step_index
      r.check_cancelled
      r.begin_attempt w step_index
      r.check_cancelled
      flow ← r.run_and_route call w step_index counts
      r.check_cancelled
      pure flow

    pub run_steps : (iterations step_index : ℕ) → RetryCounts → Exec W LoopEnd
    unfolding by_flow attempt
    run_steps zero step_index counts = pure not_completed
    run_steps (suc n) step_index counts = do
      r.check_cancelled
      (if leb (length w.steps) step_index
          then pure completed
          else do flow ← attempt step_index counts; by_flow (λ i c. run_steps n i c) counts flow)

    -- What follows the loop.
    finish : LoopEnd → Exec W Inputs
    finish (transferred (ok outputs)) = pure outputs
    finish (transferred (err e)) = raise e
    finish not_completed = do
      r.mark_workflow_completed w.workflow_id
      raise iteration_limit_exceeded
    finish completed = do
      r.check_cancelled
      outputs ← r.build_outputs w
      r.emit_workflow_completed w.workflow_id
      r.mark_workflow_completed w.workflow_id
      pure outputs

    pub no_counts : RetryCounts
    no_counts i k = 0

    pub sequential : Exec W Inputs
    unfolding finish run_steps no_counts
    sequential = do
      end ← run_steps (compute_max_iterations w.steps w.failure_actions) 0 no_counts
      finish end

  pub require_workflow_dependencies : List String → Exec W (Unit {0})
  require_workflow_dependencies [] = pure tt
  require_workflow_dependencies (d ∷ rest) = elim (local_dependency d) [
    | none ↦ raise workflow_dependency_unsatisfied
    | some id ↦ do
      done ← r.workflow_is_completed id
      (if done then require_workflow_dependencies rest else raise workflow_dependency_unsatisfied)
  ]

module _ {W : Type 0} (r : Runner W) where
  -- The invocation has run in parallel: unless it was cancelled, it counts as completed.
  parallel_result : Workflow → Result Inputs → Exec W Inputs
  parallel_result w (ok outputs) = do r.mark_workflow_completed w.workflow_id; pure outputs
  parallel_result w (err e) =
      if is_cancellation e then raise e else (r.mark_workflow_completed w.workflow_id >> raise e)

  -- `sequential_fallback` of engine_parallel.rs: why an invocation in parallel mode runs
  -- sequentially.
  sequential_fallback : Workflow → Option SequentialFallbackReason
  unfolding parallel_blocker
  sequential_fallback w =
      if r.debugger_attached then some debugger else fallback_of (parallel_blocker w)
    where
      fallback_of : Option ParallelBlocker → Option SequentialFallbackReason
      fallback_of none = none
      fallback_of (some b) = some b.reason

  in_parallel_mode :
      (String → Inputs → Exec W Inputs) → Workflow → Option SequentialFallbackReason → Exec W Inputs
  unfolding parallel_result sequential
  in_parallel_mode call w (some reason) = do
    r.push_sequential_fallback w reason
    sequential r w call
  in_parallel_mode call w none = do result ← tried (r.execute_parallel w); parallel_result w result

  found_workflow : (String → Inputs → Exec W Inputs) → Inputs → Option Workflow → Exec W Inputs
  unfolding require_workflow_dependencies in_parallel_mode sequential_fallback
  found_workflow call inputs none = raise workflow_not_found
  found_workflow call inputs (some w) = do
    require_workflow_dependencies r w w.depends_on
    r.validate_and_populate_inputs w inputs
    r.arm_receivers w w.steps
    (if r.parallel_mode
        then in_parallel_mode call w (sequential_fallback w)
        else sequential r w call)

  -- `execute_inner` at the depth `max_call_depth - left`.
  pub execute_at : (left : ℕ) → String → Inputs → Exec W Inputs
  unfolding found_workflow
  execute_at zero id inputs = r.check_cancelled >> raise max_call_depth_exceeded
  execute_at (suc left) id inputs = do
    r.check_cancelled
    found_workflow (λ i x. execute_at left i x) inputs (r.get_workflow id)

  pub execute : String → Inputs → Exec W Inputs
  unfolding execute_at
  execute id inputs = execute_at max_call_depth id inputs
